-- ===== src/Swift/Session/Settled.antt =====
-- How stopLocked and retireLocked carry the invariant of a session, and the owners given back.
use coakka_runtime_swift.Prelude.{
  Bool, true, false, ◌&&◌, not, List, ◌++◌, ◌≡◌, refl, arith, is_null, sym,
}
use coakka_runtime_swift.Core.Call.{Call}
use coakka_runtime_swift.Machine.Heap.{Host, Event}
use coakka_runtime_swift.Swift.Session.{Session, after_stop, after_retire}
use coakka_runtime_swift.Swift.Session.Outcomes.{
  StopOutcome, RetireOutcome, not_due, tried, retired, is_over,
}
use coakka_runtime_swift.Swift.Session.Traffic.{released, IsHarmless}
use coakka_runtime_swift.Swift.Session.Sound.{Owners, IsHeld, IsSound, given_back}
use coakka_runtime_swift.Swift.Session.System.{System}

abbrev pub with_session : System → Session → System
with_session sys s = record sys { session = s }

no_more_due : (n b : Bool) → (b && not n) ≡ false → (n ≡ true → b ≡ true) → n ≡ b
no_more_due true b e f = sym (f refl)
no_more_due false b e f = ground arith

both_true : (a b : Bool) → (a && b) ≡ true → a ≡ true
both_true a b e = ground arith

module _ (o : Owners) (sys : System) where
  pub stopped-Held :
      (host : Host) {log : List Event} {s' : Session} {cs : List Call}
      → StopOutcome host log sys.session s' cs
      → IsHeld o sys
      → IsHeld o (with_session sys s')
        × IsHarmless cs
        × (given_back o (with_session sys s') ≡ given_back o sys)
  unfolding released after_stop
  stopped-Held host (not_due e) h = (h, refl, refl)
  stopped-Held host (tried r status due live reply) h = (
    record {
      library = h.library;
      client = h.client;
      reader = h.reader;
      owned = h.owned;
      bounded = h.bounded;
      counted = h.counted;
      runner_known = h.runner_known;
      admission_closed = h.admission_closed;
      only_over = λ e. absurd (ground (arith, live, e));
      stop_known = λ e. rw e refl;
    },
    refl,
    refl,
  )

  -- After a retirement that was due is made, all is over exactly if the session is retired; its
  -- owners are given back with it.
  pub settled-Sound :
      {s' : Session} {cs : List Call}
      → RetireOutcome sys.session s' cs
      → IsHeld o sys
      → IsSound o (with_session sys s')
        × (given_back o (with_session sys s') ≡ released cs ++ given_back o sys)
  unfolding released after_retire
  settled-Sound (not_due e) h = (
    record {
      held = h;
      retired = no_more_due (is_null sys.session.runtime) (is_over sys.session) e h.only_over;
    },
    refl,
  )
  settled-Sound (retired r closed due live) h = (
    record {
      held = record {
        library = h.library;
        client = h.client;
        reader = h.reader;
        owned = λ q e. absurd (ground arith);
        bounded = h.bounded;
        counted = h.counted;
        runner_known = h.runner_known;
        admission_closed = h.admission_closed;
        only_over = λ e. both_true (is_over sys.session) _ due;
        stop_known = h.stop_known;
      };
      retired = sym (both_true (is_over sys.session) _ due);
    },
    ground (arith, h.owned r live, h.client, live),
  )
