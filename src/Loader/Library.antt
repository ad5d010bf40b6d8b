-- ===== src/Loader/Library.antt =====
-- load_symbol, the LOAD_SYMBOL macro, and the open and close of a library
-- (coakka_runtime_bridge.c).
use mathlib.Core.Logic.{ite}
use coakka_runtime_swift.Prelude.{
  ℕ, String, Bool, true, false, if◌then◌else◌, List, [], ◌∷◌, Option, none, some, codes, pos,
  negsuc, ◌==◌, zero, suc, ◌≡◌, ◌≢◌, refl, arith,
}
use coakka_runtime_swift.Status.{Status, ok, err_load, err_symbol, invalid_arg, nomem}
use coakka_runtime_swift.Core.Records.{Ptr}
use coakka_runtime_swift.Core.Slot.{Slot, Slot-discrete, symbol_name, load_order}
use coakka_runtime_swift.Machine.Heap.{Host, Library, zeroed, library}
use coakka_runtime_swift.Machine.Effects.{M, pure, ◌>>=◌, ◌>>◌, calloc, free, load, store}
use coakka_runtime_swift.Loader.ErrorText.{set_error}
use coakka_runtime_swift.Loader.Platform.{
  platform_library_open, platform_library_symbol, platform_library_error, platform_library_close,
}

abbrev pub Buffer : Type 0
Buffer = Option (List ℕ)

-- status == COAKKA_SWIFT_OK
unfoldable pub is_ok : Status → Bool
is_ok (pos n) = n == 0
is_ok (negsuc n) = false

pub is_ok-ok : (s : Status) → is_ok s ≡ true → s ≡ ok
unfolding is_ok
is_ok-ok (pos zero) e = refl
is_ok-ok (pos (suc n)) e = absurd (ground arith)
is_ok-ok (negsuc n) e = absurd (ground arith)

pub is_ok-failed : (s : Status) → s ≢ ok → is_ok s ≡ false
unfolding is_ok
is_ok-failed (pos zero) bad = absurd (bad refl)
is_ok-failed (pos (suc n)) bad = ground arith
is_ok-failed (negsuc n) bad = refl

-- memcpy(&library->field, &symbol, …)
unfoldable pub set_slot : Slot → Ptr → Library → Library
set_slot s symbol l = record l { slot = λ t. ite (Slot-discrete t s) symbol (l.slot t) }

pub record Loaded : Type 0 where
  pub status : Status
  pub symbol : Ptr
  pub error_buf : Buffer

pub record Opened : Type 0 where
  pub status : Status
  pub out_library : Option Ptr
  pub error_buf : Buffer

module _ (host : Host) where
  unfoldable pub load_symbol : Library → String → Buffer → ℕ → Loaded
  unfolding platform_library_symbol
  load_symbol l name buf len = elim (platform_library_symbol host l.handle name) [
    | none ↦ record {
      status = err_symbol;
      symbol = none;
      error_buf = set_error buf len (some (codes "missing symbol: ")) (some (codes name));
    }
    | some a ↦ record { status = ok; symbol = some a; error_buf = buf }
  ]

  -- LOAD_SYMBOL over the library at an address: on failure the handle is closed and the library
  -- freed, and the status is returned.
  unfoldable pub load_slot : ℕ → Slot → Buffer → ℕ → M (Status × Buffer)
  unfolding load_symbol
  load_slot p s buf len = do
    l ← load p
    let r = load_symbol l (symbol_name s) buf len
    if is_ok r.status
        then (do store p (set_slot s r.symbol l); pure (ok, r.error_buf))
        else (do platform_library_close l.handle; free p; pure (r.status, r.error_buf))

  -- The sequence of LOAD_SYMBOL, which the first failure leaves.
  unfoldable pub load_symbols : ℕ → List Slot → Buffer → ℕ → M (Status × Buffer)
  load_symbols p [] buf len = pure (ok, buf)
  load_symbols p (s ∷ ss) buf len = do
    r ← load_slot p s buf len
    elim (is_ok r.0) [ true ↦ load_symbols p ss r.1 len | false ↦ pure r ]

  -- The tail of the open, once the symbols are loaded or one is missing.
  unfoldable pub publish : ℕ → Status × Buffer → Opened
  publish p (status, buf) = elim (is_ok status) [
    | true ↦ record { status = status; out_library = some (some p); error_buf = buf }
    | false ↦ record { status = status; out_library = some none; error_buf = buf }
  ]

  unfoldable pub open_loaded : ℕ → Ptr → Buffer → ℕ → M Opened
  unfolding publish
  open_loaded p none buf len w =
      (do
        free p
        pure (record {
          status = err_load;
          out_library = some none;
          error_buf =
              set_error buf len (some (codes "failed to open runtime library: "))
                (some (platform_library_error host w));
        }))
        w
  open_loaded p (some h) buf len w =
      (do r ← load_symbols p load_order buf len; pure (publish p r)) w

  unfoldable pub open_allocated : String → Ptr → Buffer → ℕ → M Opened
  open_allocated path none buf len = pure (record {
    status = nomem;
    out_library = some none;
    error_buf = set_error buf len (some (codes "out of memory")) (some []);
  })
  open_allocated path (some p) buf len = do
    handle ← platform_library_open host path
    l ← load p
    store p (record l { handle = handle })
    open_loaded p handle buf len

  -- coakka_swift_runtime_library_open
  unfoldable pub library_open : Option String → Option Ptr → Buffer → ℕ → M Opened
  unfolding open_allocated
  library_open (some path) (some _) buf len = do
    p ← calloc host (library zeroed)
    open_allocated path p buf len
  library_open _ out buf len = pure (record {
    status = invalid_arg;
    out_library = out;
    error_buf = set_error buf len (some (codes "invalid runtime library path")) (some []);
  })

-- coakka_swift_runtime_library_close
unfoldable pub library_close : Ptr → M (Unit {0})
unfolding platform_library_close free load
library_close none = pure tt
library_close (some p) = do l ← load p; platform_library_close l.handle; free p
