-- ===== src/Tests/Loading.antt =====
-- The loader at concrete inputs.
use coakka_runtime_swift.Prelude.{
  ℕ, true, none, some, List, [], ◌∷◌, ◌++◌, ◌≡◌, refl, codes, length, take, drop, replicate, arith,
  min, suc, ◌-◌, if◌then◌else◌,
}
use text.Mathlib.Text.{◌==◌ as str_eq}
use coakka_runtime_swift.Status.{ok}
use coakka_runtime_swift.Core.Slot.{Slot, symbol_name, load_order}
use coakka_runtime_swift.Core.Slot.Names.{occurrences, symbol_name-once}
use coakka_runtime_swift.Machine.Heap.{World, Host, library, update, zeroed, Library}
use coakka_runtime_swift.Machine.Effects.{returns, fault, load_module}
use coakka_runtime_swift.Machine.Reasoning.{update_at}
use coakka_runtime_swift.Loader.ErrorText.{set_error, text_of}
use coakka_runtime_swift.Loader.ErrorText.Bounds.{set_error_bounds}
use coakka_runtime_swift.Loader.Platform.{platform_library_open}
use coakka_runtime_swift.Loader.Acquire.{Acquires, platform_library_open-Acquired}
use coakka_runtime_swift.Loader.Library.{Opened, library_open, library_close, load_symbols}
use coakka_runtime_swift.Loader.Symbols.{first_missing, loaded_outcome, load_symbols_lem}
use coakka_runtime_swift.Loader.Opening.{allocated}
use coakka_runtime_swift.Loader.Opening.Contract.{Contract, Success, library_open-Contract}
use coakka_runtime_swift.Loader.Opening.Decided.{decided, library_open-decided}
use coakka_runtime_swift.Loader.Opening.Closing.{library_close-open}
use coakka_runtime_swift.Tests.{demo, start_world, start_world-IsFresh, open_world}

-- A buffer of 32 bytes for the messages.
abbrev blank : List ℕ
blank = replicate 32 0xff

-- A Core library without one of the symbols.
abbrev partial : Host
partial = record demo {
  find_symbol = λ handle name. if str_eq name "coakka_v2_runtime_stop" then none else some 100;
}

-- The same platform on Windows.
abbrev windows : Host
windows = record demo { is_windows = true }

library_open-Contract_example :
    Contract partial start_world
      (some none)
      (library_open partial (some "libcoakka.so") (some none) (some blank) 32 start_world)
library_open-Contract_example =
    library_open-Contract partial (some "libcoakka.so") (some none) (some blank) 32 start_world
      start_world-IsFresh

loads :
    platform_library_open partial "libcoakka.so" (allocated start_world)
    ≡ returns (some 7) (record (allocated start_world) { modules = 7 ∷ [] })
unfolding platform_library_open load_module
loads = refl

library_open-decided_example :
    (w' : World) × (library_open partial
        (some "libcoakka.so")
        (some none)
        (some blank)
        32
        start_world
      ≡ returns
          (decided partial "libcoakka.so"
            (some blank)
            32
            start_world
            start_world-IsFresh
            (first_missing partial (some 7) load_order))
          w')
library_open-decided_example =
    library_open-decided partial "libcoakka.so" (some blank) 32 start_world start_world-IsFresh none
      7 (record (allocated start_world) { modules = 7 ∷ [] }) refl loads

stop_missing : first_missing partial (some 7) load_order ≡ some Slot.runtime_stop
unfolding first_missing load_order symbol_name
stop_missing = refl

-- A library with a handle and no slot yet, at address 16.
abbrev unloaded : Library
unloaded = record zeroed { handle = some 7 }

abbrev loading_world : World
loading_world = record start_world {
  heap = update (λ q. none) 16 (some (library unloaded));
  next = 17;
  modules = 7 ∷ [];
}

load_symbols_lem_example :
    load_symbols partial 16 load_order (some blank) 32 loading_world
    ≡ loaded_outcome partial 16 load_order unloaded []
        (some blank)
        32
        loading_world
        (first_missing partial (some 7) load_order)
load_symbols_lem_example =
    load_symbols_lem partial 16 load_order unloaded 7 [] (some blank) 32 loading_world
      (update_at (λ q. none) 16 (some (library unloaded))) refl refl

abbrev opened : Opened
opened = record { status = ok; out_library = some (some 16); error_buf = some blank }

abbrev opened-Success : Success demo start_world opened open_world
opened-Success = record {
  at = 16;
  handle = 7;
  status_ok = refl;
  published = refl;
  was_free = refl;
  heap_after = refl;
  modules_after = refl;
  log_kept = refl;
  fresh_after = record { fresh = λ q h. ground arith };
  resolved = λ s e. cc;
}

library_close-open_example :
    (w'' : World) × (library_close (some 16) open_world ≡ returns tt w'')
    × (w''.heap ≡ start_world.heap)
    × (w''.modules ≡ [])
    × (w''.log ≡ [])
    × (library_close (some 16) w'' ≡ fault)
library_close-open_example = library_close-open demo start_world opened open_world opened-Success

platform_library_open-Acquired_example : Acquires windows "coakka.dll" start_world
platform_library_open-Acquired_example =
    platform_library_open-Acquired windows "coakka.dll" start_world start_world-IsFresh

set_error_bounds_example :
    (result : List ℕ) × (set_error (some blank) 6 (some (codes "missing symbol: ")) none
      ≡ some result)
    × (length result ≡ 32)
    × (drop 6 result ≡ drop 6 blank)
    × (result
        ≡ take (6 - 1) (text_of (some (codes "missing symbol: ")) ++ text_of none)
          ++ 0
            ∷ drop
                (suc (
                  min (6 - 1) (length (text_of (some (codes "missing symbol: ")) ++ text_of none))))
                blank)
set_error_bounds_example =
    set_error_bounds blank 6 (some (codes "missing symbol: ")) none (omega arith) (omega arith)

symbol_name-once_example :
    (occurrences (symbol_name Slot.runtime_stop) load_order ≡ 1)
    × ((t : Slot) → symbol_name Slot.runtime_stop ≡ symbol_name t → Slot.runtime_stop ≡ t)
symbol_name-once_example = symbol_name-once Slot.runtime_stop
