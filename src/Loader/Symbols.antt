-- ===== src/Loader/Symbols.antt =====
-- The sequence of LOAD_SYMBOL: what it leaves in the library, and where it stops.
use coakka_runtime_swift.Prelude.{
  ℕ, List, [], ◌∷◌, Option, none, some, codes, ◌≡◌, refl, ◌∙◌, ==_refl, sym, Option-cases, inl, inr,
  arith,
}
use coakka_runtime_swift.Status.{Status, ok, err_symbol}
use coakka_runtime_swift.Core.Records.{Ptr}
use coakka_runtime_swift.Core.Slot.{Slot, Slot-discrete, symbol_name, load_order}
use coakka_runtime_swift.Machine.Heap.{World, Host, Library, library, update}
use coakka_runtime_swift.Machine.Effects.{returns, Outcome, load, store, free, unload, release}
use coakka_runtime_swift.Machine.Reasoning.{update-update, update_self, update_at}
use coakka_runtime_swift.Loader.ErrorText.{set_error}
use coakka_runtime_swift.Loader.Platform.{platform_library_symbol, platform_library_close}
use coakka_runtime_swift.Loader.Library.{Buffer, is_ok, set_slot, load_slot, load_symbols}

module _ (host : Host) where
  -- The first symbol of the list that the module of a handle lacks.
  unfoldable pub first_missing : Ptr → List Slot → Option Slot
  first_missing handle [] = none
  first_missing handle (s ∷ ss) = elim (host.find_symbol handle (symbol_name s)) [
    | none ↦ some s
    | some _ ↦ first_missing handle ss
  ]

  -- The library with the slots of the list set to what the loader finds.
  unfoldable pub fill : List Slot → Library → Library
  unfolding set_slot Slot-discrete
  fill [] l = l
  fill (s ∷ ss) l = fill ss (set_slot s (host.find_symbol l.handle (symbol_name s)) l)

  -- Every slot holds the address of the symbol that it is declared for.
  abbrev pub bound : Ptr → Library
  bound handle = record { handle = handle; slot = λ s. host.find_symbol handle (symbol_name s) }

  fill_all : (l : Library) (t : Slot) → (fill load_order l).slot t ≡ (bound l.handle).slot t
  unfolding fill load_order
  fill_all l Slot.create_native = refl
  fill_all l _ = refl

  fill-handle : (ss : List Slot) (l : Library) → (fill ss l).handle ≡ l.handle
  unfolding fill
  fill-handle [] l = refl
  fill-handle (s ∷ ss) l = fill-handle ss (set_slot s (host.find_symbol l.handle (symbol_name s)) l)

  pub fill-bound : (l : Library) → fill load_order l ≡ bound l.handle
  fill-bound l = λ i. record { handle = fill-handle load_order l i; slot = λ t. fill_all l t i }

  -- What the sequence does: on a first missing symbol the library is freed and the handle closed.
  abbrev pub loaded_outcome :
      ℕ
      → List Slot
      → Library
      → List ℕ
      → Buffer
      → ℕ
      → World
      → Option Slot
      → Outcome (Status × Buffer)
  loaded_outcome p ss l ms buf len w none =
      returns (ok, buf) (record w { heap = update w.heap p (some (library (fill ss l))) })
  loaded_outcome p ss l ms buf len w (some s) =
      returns
        (
          err_symbol,
          set_error buf len (some (codes "missing symbol: ")) (some (codes (symbol_name s))),
        )
        (record w { heap = update w.heap p none; modules = ms })

  module _ (p : ℕ) (s : Slot) (l : Library) (buf : Buffer) (len : ℕ) (w : World)
      (e : w.heap p ≡ some (library l)) where
    load_slot-found :
        (a : ℕ)
        → host.find_symbol l.handle (symbol_name s) ≡ some a
        → load_slot host p s buf len w
          ≡ returns
              (ok, buf)
              (record w { heap = update w.heap p (some (library (set_slot s (some a) l))) })
    unfolding load_slot platform_library_symbol load store is_ok
    load_slot-found a found = ground arith

    load_slot-missing :
        (h : ℕ) (ms : List ℕ)
        → l.handle ≡ some h
        → w.modules ≡ h ∷ ms
        → host.find_symbol l.handle (symbol_name s) ≡ none
        → load_slot host p s buf len w
          ≡ returns
              (
                err_symbol,
                set_error buf len (some (codes "missing symbol: ")) (some (codes (symbol_name s))),
              )
              (record w { heap = update w.heap p none; modules = ms })
    unfolding load_slot platform_library_symbol load free is_ok platform_library_close unload
        release
    load_slot-missing h ms eh em missing = ground (arith, ==_refl h)

    loaded_outcome-step :
        (ss : List Slot) (ms : List ℕ) (a : ℕ) (o : Option Slot)
        → host.find_symbol l.handle (symbol_name s) ≡ some a
        → loaded_outcome p ss
            (set_slot s (some a) l)
            ms
            buf
            len
            (record w { heap = update w.heap p (some (library (set_slot s (some a) l))) })
            o
          ≡ loaded_outcome p (s ∷ ss) l ms buf len w o
    unfolding fill
    loaded_outcome-step ss ms a none found = rw found (λ i.
        returns (ok, buf)
          (record w {
            heap =
                update-update w.heap p (some (library (set_slot s (some a) l)))
                  (some (library (fill ss (set_slot s (some a) l)))) i;
          }))
    loaded_outcome-step ss ms a (some t) found = λ i.
        returns
          (
            err_symbol,
            set_error buf len (some (codes "missing symbol: ")) (some (codes (symbol_name t))),
          )
          (record w {
            heap = update-update w.heap p (some (library (set_slot s (some a) l))) none i;
            modules = ms;
          })

  -- Over a live library with a handle that was the last one opened, the sequence of LOAD_SYMBOL does
  -- what the first missing name of its list decides. Without one it is OK, the buffer is untouched
  -- and every slot of the list is filled; with one the library is freed, the handle is closed and
  -- the result is ERR_SYMBOL with the message that names it.
  pub load_symbols_lem :
      (p : ℕ) (ss : List Slot) (l : Library) (h : ℕ) (ms : List ℕ) (buf : Buffer) (len : ℕ)
      (w : World)
      → w.heap p ≡ some (library l)
      → l.handle ≡ some h
      → w.modules ≡ h ∷ ms
      → load_symbols host p ss buf len w
        ≡ loaded_outcome p ss l ms buf len w (first_missing l.handle ss)
  unfolding load_symbols fill first_missing is_ok set_slot
  load_symbols_lem p [] l h ms buf len w e eh em =
      λ i. returns (ok, buf) (record w { heap = sym (update_self w.heap p (some (library l)) e) i })
  load_symbols_lem p (s ∷ ss) l h ms buf len w e eh em =
      elim (Option-cases (host.find_symbol l.handle (symbol_name s))) [
        | inl missing ↦
            rw (load_slot-missing p s l buf len w e h ms eh em missing, missing, first_missing) refl
        | inr (a, found) ↦
            rw (load_slot-found p s l buf len w e a found, found, first_missing)
              (load_symbols_lem p ss (set_slot s (some a) l) h ms buf len
                  (record w { heap = update w.heap p (some (library (set_slot s (some a) l))) })
                  (update_at w.heap p (some (library (set_slot s (some a) l)))) eh em
                ∙ loaded_outcome-step p s l buf len w e ss ms a (first_missing l.handle ss) found)
      ]
