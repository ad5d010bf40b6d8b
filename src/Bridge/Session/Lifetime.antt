-- ===== src/Bridge/Session/Lifetime.antt =====
-- The open, the calls and the close together.
use coakka_runtime_swift.Prelude.{
  ℕ, ◌≤◌, String, none, some, List, [], ◌++◌, ◌≡◌, ◌≢◌, refl, ◌∙◌, ap, inl, inr, AllOf, length,
  arith, true,
}
use coakka_runtime_swift.Status.{Status, ok}
use coakka_runtime_swift.Core.Records.{Ptr}
use coakka_runtime_swift.Machine.Heap.{World, Host, library, Event}
use coakka_runtime_swift.Machine.Effects.{returns}
use coakka_runtime_swift.Machine.Reasoning.{update_at}
use coakka_runtime_swift.Loader.Library.{Buffer, Opened, is_ok, is_ok-failed, library_open}
use coakka_runtime_swift.Loader.Acquire.{IsFresh}
use coakka_runtime_swift.Loader.Symbols.{bound}
use coakka_runtime_swift.Loader.Opening.Contract.{Success, Failure, library_open-Contract}
use coakka_runtime_swift.Loader.Opening.Closing.{library_close-open}
use coakka_runtime_swift.Bridge.Spec.{IsOpen}
use coakka_runtime_swift.Bridge.Session.{Request, lifetime, library_at}
use coakka_runtime_swift.Bridge.Session.Restores.{IsExport, session-Calls}

-- What is given back: heap and handles are as they were; the calls made are of functions that one
-- loaded module exports, at most n of them, and none unless the status is OK.
pub record Restored (host : Host) (n : ℕ) (w : World) (status : Status) (w' : World) : Type 0 where
  pub heap_restored : w'.heap ≡ w.heap
  pub modules_restored : w'.modules ≡ w.modules
  pub events : List Event
  pub logged : w'.log ≡ events ++ w.log
  pub bounded : length events ≤ n
  pub exported : (handle : Ptr) × AllOf (IsExport host handle) events
  pub failed_quiet : status ≢ ok → w'.log ≡ w.log

module _ (host : Host) (path : String) (buf : Buffer) (len : ℕ) (qs : List Request) (w : World)
    (wf : IsFresh w) where
  module _ (r : Opened) (w₁ : World)
      (e : library_open host (some path) (some none) buf len w ≡ returns r w₁) where
    failed :
        Failure host w (some none) r w₁
        → (status : Status) × (w' : World) × (lifetime host path buf len qs w ≡ returns status w')
          × Restored host (length qs) w status w'
    unfolding lifetime is_ok
    failed f = (
      r.status,
      w₁,
      rw e rw (is_ok-failed r.status f.status_failed) refl,
      record {
        heap_restored = f.heap_kept;
        modules_restored = f.modules_kept;
        events = [];
        logged = f.log_kept;
        bounded = omega arith;
        exported = (none, tt);
        failed_quiet = λ bad. f.log_kept;
      },
    )

    module _ (s : Success host w r w₁) where
      is_ok_status : is_ok r.status ≡ true
      unfolding is_ok
      is_ok_status = rw s.status_ok refl

      opened_p : IsOpen host (some s.handle) s.at w₁
      opened_p =
          ap (λ h. h s.at) s.heap_after
          ∙ update_at w.heap s.at (some (library (bound host (some s.handle))))

      succeeded :
          (status : Status) × (w' : World) × (lifetime host path buf len qs w ≡ returns status w')
          × Restored host (length qs) w status w'
      unfolding lifetime is_ok
      succeeded =
          let (w₂, f, c) = session-Calls host (some s.handle) s.at s.resolved qs w₁ opened_p in
          let (w₃, g, heap, modules, log, again) =
            library_close-open host (record w { log = w₂.log }) r w₂
              (record {
                at = s.at;
                handle = s.handle;
                status_ok = s.status_ok;
                published = s.published;
                was_free = s.was_free;
                heap_after = c.heap_kept ∙ s.heap_after;
                modules_after = c.modules_kept ∙ s.modules_after;
                log_kept = refl;
                fresh_after = record {
                  fresh = λ q h.
                      ap (λ f. f q) c.heap_kept
                      ∙ s.fresh_after.fresh q (omega (arith, c.next_kept, h));
                };
                resolved = s.resolved;
              }) in
          (
            r.status,
            w₃,
            rw e (rw is_ok_status (rw (ap library_at s.published) (rw f (rw g refl)))),
            record {
              heap_restored = heap;
              modules_restored = modules;
              events = c.events;
              logged = log ∙ (c.logged ∙ ap (λ t. c.events ++ t) s.log_kept);
              bounded = c.bounded;
              exported = (some s.handle, c.exported);
              failed_quiet = λ bad. absurd (bad s.status_ok);
            },
          )

-- A client that opens a library from any fresh state, makes any calls of the bridge with any
-- arguments if the open succeeds, and closes it, never meets a fault, whatever the platform and the
-- Core library do. It gives back every heap block and every loader handle; the calls that reached
-- the Core library are at most as many as it made, all of functions that one module exports, and
-- none where the status is not OK.
pub lifetime-Restored :
    (host : Host) (path : String) (buf : Buffer) (len : ℕ) (qs : List Request) (w : World)
    → IsFresh w
    → (status : Status) × (w' : World) × (lifetime host path buf len qs w ≡ returns status w')
      × Restored host (length qs) w status w'
lifetime-Restored host path buf len qs w wf =
    let (r, w₁, e, c) = library_open-Contract host (some path) (some none) buf len w wf in
    elim c [
      | inl s ↦ succeeded host path buf len qs w wf r w₁ e s
      | inr f ↦ failed host path buf len qs w wf r w₁ e f
    ]
