-- ===== src/Bridge/Session/Restores.antt =====
-- The effect on the state of any calls of the bridge through one open library.
use coakka_runtime_swift.Prelude.{
  ℕ, suc, ◌≤◌, String, some, List, [], ◌∷◌, ◌++◌, ◌≡◌, refl, ◌∙◌, ap, arith, AllOf, AllOf-append,
  length, length-append, append_assoc,
}
use coakka_runtime_swift.Core.Records.{Ptr}
use coakka_runtime_swift.Machine.Heap.{World, Host, Event}
use coakka_runtime_swift.Machine.Effects.{returns}
use coakka_runtime_swift.Bridge.Spec.{IsOpen}
use coakka_runtime_swift.Bridge.Safety.{Safe, Complete, Quiet, Logged, same, called}
use coakka_runtime_swift.Bridge.Lifecycle.Bounded.{lifecycle-Safe}
use coakka_runtime_swift.Bridge.Inspect.Bounded.{inspect-Safe}
use coakka_runtime_swift.Bridge.Client.Bounded.{client-Safe}
use coakka_runtime_swift.Bridge.File.Bounded.{file-Safe}
use coakka_runtime_swift.Bridge.Stream.Bounded.{stream-Safe}
use coakka_runtime_swift.Bridge.Session.{
  Request, lifecycle, inspect, client, file, stream, serve, session,
}

module _ (host : Host) (handle : Ptr) where
  -- The function called is one that the module of the handle exports.
  abbrev pub IsExport : Event → Type 0
  IsExport event = (name : String) × (host.find_symbol handle name ≡ some event.address)

  -- Only the log has changed: by at most n calls, all of exported functions.
  pub record Calls (n : ℕ) (w w' : World) : Type 0 where
    pub heap_kept : w'.heap ≡ w.heap
    pub next_kept : w'.next ≡ w.next
    pub modules_kept : w'.modules ≡ w.modules
    pub events : List Event
    pub logged : w'.log ≡ events ++ w.log
    pub bounded : length events ≤ n
    pub exported : AllOf IsExport events

  one_call : (w w' : World) → Quiet host handle w w' → Calls 1 w w'
  one_call w w' q = of q.logged
    where
      of : Logged host handle w.log w'.log → Calls 1 w w'
      of (same e) = record {
        heap_kept = q.heap_kept;
        next_kept = q.next_kept;
        modules_kept = q.modules_kept;
        events = [];
        logged = e;
        bounded = omega arith;
        exported = tt;
      }
      of (called name event found e) = record {
        heap_kept = q.heap_kept;
        next_kept = q.next_kept;
        modules_kept = q.modules_kept;
        events = event ∷ [];
        logged = e;
        bounded = omega arith;
        exported = ((name, found), tt);
      }

  Calls-append : (n : ℕ) (u v w : World) → Calls 1 u v → Calls n v w → Calls (suc n) u w
  Calls-append n u v w a b = record {
    heap_kept = b.heap_kept ∙ a.heap_kept;
    next_kept = b.next_kept ∙ a.next_kept;
    modules_kept = b.modules_kept ∙ a.modules_kept;
    events = b.events ++ a.events;
    logged = b.logged ∙ (ap (λ t. b.events ++ t) a.logged ∙ append_assoc b.events a.events u.log);
    bounded = omega (arith, length-append b.events a.events, a.bounded, b.bounded);
    exported = AllOf-append IsExport b.events a.events b.exported a.exported;
  }

  module _ (p : ℕ) (complete : Complete host handle) where
    -- On a library that an open published for a module with every name of the load order, no call of
    -- the bridge faults, whatever its arguments, and it changes nothing of the state but the log, by
    -- at most one call of an exported function.
    pub serve-Safe :
        (q : Request) (w : World)
        → IsOpen host handle p w
        → Safe host handle (serve host (some p) q) w
    unfolding serve
    serve-Safe (lifecycle o) w open_p = lifecycle-Safe host handle p w o open_p complete
    serve-Safe (inspect o) w open_p = inspect-Safe host handle p w o open_p complete
    serve-Safe (client o) w open_p = client-Safe host handle p w o open_p complete
    serve-Safe (file o) w open_p = file-Safe host handle p w o open_p complete
    serve-Safe (stream o) w open_p = stream-Safe host handle p w o open_p complete

    -- On a library that an open published for a module with every name of the load order, any list of
    -- calls of the bridge, with any arguments, runs to its end without a fault. Heap, handles and
    -- allocator are as before; the calls logged are at most as many as were made, all of functions
    -- that the module exports.
    pub session-Calls :
        (qs : List Request) (w : World)
        → IsOpen host handle p w
        → (w' : World) × (session host (some p) qs w ≡ returns tt w') × Calls (length qs) w w'
    unfolding session
    session-Calls [] w open_p = (
      w,
      refl,
      record {
        heap_kept = refl;
        next_kept = refl;
        modules_kept = refl;
        events = [];
        logged = refl;
        bounded = omega arith;
        exported = tt;
      },
    )
    session-Calls (q ∷ qs) w open_p =
        let (_, w₁, e, quiet) = serve-Safe q w open_p in
        let (w₂, f, c) = session-Calls qs w₁ (ap (λ h. h p) quiet.heap_kept ∙ open_p) in
        (w₂, rw e f, Calls-append (length qs) w w₁ w₂ (one_call w w₁ quiet) c)
