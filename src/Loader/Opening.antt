-- ===== src/Loader/Opening.antt =====
-- coakka_swift_runtime_library_open: its states and results, step by step.
pub mod Contract
pub mod Decided
pub mod Closing
use coakka_runtime_swift.Prelude.{
  ℕ, suc, ◌≤◌, String, List, [], ◌∷◌, Option, none, some, ◌≡◌, ◌≢◌, refl, ap, ◌∙◌, ◌⊎◌, inl, inr,
  Bool-cases, Option-cases, arith, codes,
}
use coakka_runtime_swift.Status.{ok, err_load, err_symbol, nomem}
use coakka_runtime_swift.Core.Records.{Ptr}
use coakka_runtime_swift.Core.Slot.{Slot, symbol_name, load_order}
use coakka_runtime_swift.Machine.Heap.{World, Host, Block, Library, zeroed, library, update}
use coakka_runtime_swift.Machine.Effects.{returns, Outcome, and_then, pure, calloc}
use coakka_runtime_swift.Machine.Reasoning.{load-ok, store-ok, free-ok, update-update, update_at}
use coakka_runtime_swift.Loader.ErrorText.{set_error}
use coakka_runtime_swift.Loader.Platform.{platform_library_open, platform_library_error}
use coakka_runtime_swift.Loader.Library.{
  Buffer, Opened, is_ok, load_symbols, publish, open_loaded, open_allocated, library_open,
}
use coakka_runtime_swift.Loader.Symbols.{
  bound, first_missing, fill, fill-bound, loaded_outcome, load_symbols_lem,
}
use coakka_runtime_swift.Loader.Acquire.{
  IsFresh, Acquired, Acquires, held, transient, platform_library_open-Acquired,
}

-- The state after the calloc of the library.
abbrev pub allocated : World → World
allocated w = record w { heap = update w.heap w.next (some (library zeroed)); next = suc w.next }

pub allocated-IsFresh : (w : World) → IsFresh w → IsFresh (allocated w)
allocated-IsFresh w wf = record { fresh = λ q h. ground (arith, wf.fresh q) }

module _ (host : Host) (path : String) (buf : Buffer) (len : ℕ) where
  module _ (w : World) (wf : IsFresh w) where
    module _ (handle : Ptr) (w₂ : World) (a : Acquired (allocated w) handle w₂) where
      -- The library with its handle, before any symbol is loaded.
      abbrev pub stored_world : World
      stored_world = record w₂ {
        heap = update w₂.heap w.next (some (library (record zeroed { handle = handle })));
      }

      freed_heap : (b : Option Block) → update (update w₂.heap w.next b) w.next none ≡ w.heap
      freed_heap b =
          update-update w₂.heap w.next b none
          ∙ (ap (λ (heap : ℕ → Option Block). update heap w.next none) a.heap_kept
              ∙ transient w (library zeroed) wf)

      filled_heap :
          (b c : Option Block) → update (update w₂.heap w.next b) w.next c ≡ update w.heap w.next c
      filled_heap b c =
          update-update w₂.heap w.next b c
          ∙ (ap (λ (heap : ℕ → Option Block). update heap w.next c) a.heap_kept
              ∙ update-update w.heap w.next (some (library zeroed)) c)

      stored_lem :
          platform_library_open host path (allocated w) ≡ returns handle w₂
          → open_allocated host path (some w.next) buf len (allocated w)
            ≡ open_loaded host w.next handle buf len stored_world
      unfolding open_allocated
      stored_lem e = rw e (
          rw
            (load-ok w.next zeroed w₂
              (rw a.heap_kept (update_at w.heap w.next (some (library zeroed)))))
            (rw (
              store-ok w.next zeroed (record zeroed { handle = handle }) w₂
                (rw a.heap_kept (update_at w.heap w.next (some (library zeroed)))))))

    abbrev pub load_failure : World → Opened
    load_failure w₃ = record {
      status = err_load;
      out_library = some none;
      error_buf =
          set_error buf len (some (codes "failed to open runtime library: "))
            (some (platform_library_error host w₃));
    }

    abbrev pub symbol_failure : Slot → Opened
    symbol_failure s = record {
      status = err_symbol;
      out_library = some none;
      error_buf =
          set_error buf len (some (codes "missing symbol: ")) (some (codes (symbol_name s)));
    }

    abbrev pub opened : Opened
    opened = record { status = ok; out_library = some (some w.next); error_buf = buf }

    abbrev pub loaded_result : ℕ → World → Option Slot → Outcome Opened
    loaded_result h w₂ none =
        returns opened
          (record w₂ { heap = update w.heap w.next (some (library (bound host (some h)))) })
    loaded_result h w₂ (some s) =
        returns (symbol_failure s) (record w₂ { heap = w.heap; modules = w.modules })

    module _ (w₂ : World) where
      open_without_handle :
          (a : Acquired (allocated w) none w₂)
          → open_loaded host w.next none buf len (stored_world none w₂ a)
            ≡ returns (load_failure (stored_world none w₂ a)) (record w₂ { heap = w.heap })
      unfolding open_loaded
      open_without_handle a =
          rw
            (free-ok w.next (library zeroed) (stored_world none w₂ a)
              (update_at w₂.heap w.next (some (library zeroed))))
            (λ i.
              returns (load_failure (stored_world none w₂ a))
                (record w₂ { heap = freed_heap none w₂ a (some (library zeroed)) i }))

      published_lem :
          (h : ℕ) (a : Acquired (allocated w) (some h) w₂) (o : Option Slot)
          → and_then
              (loaded_outcome host w.next load_order
                (record zeroed { handle = some h })
                w.modules
                buf
                len
                (stored_world (some h) w₂ a)
                o)
              (λ r. pure (publish host w.next r))
            ≡ loaded_result h w₂ o
      unfolding publish is_ok
      published_lem h a none = rw (fill-bound host (record zeroed { handle = some h })) (λ i.
          returns opened (record w₂ {
            heap =
                filled_heap (some h) w₂ a (some (library (record zeroed { handle = some h })))
                  (some (library (bound host (some h)))) i;
          }))
      published_lem h a (some s) = λ i. returns (symbol_failure s) (record w₂ {
        heap = freed_heap (some h) w₂ a (some (library (record zeroed { handle = some h }))) i;
        modules = w.modules;
      })

      open_with_handle :
          (h : ℕ) (a : Acquired (allocated w) (some h) w₂)
          → open_loaded host w.next (some h) buf len (stored_world (some h) w₂ a)
            ≡ loaded_result h w₂ (first_missing host (some h) load_order)
      unfolding open_loaded
      open_with_handle h a =
          rw
            (load_symbols_lem host w.next load_order (record zeroed { handle = some h }) h w.modules
              buf len (stored_world (some h) w₂ a)
              (update_at w₂.heap w.next (some (library (record zeroed { handle = some h })))) refl
              a.modules_held)
            (published_lem h a (first_missing host (some h) load_order))
