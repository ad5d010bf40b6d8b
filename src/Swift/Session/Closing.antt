-- ===== src/Swift/Session/Closing.antt =====
-- What a close reports, and what a failed stop leaves.
use coakka_runtime_swift.Prelude.{
  true, Option, none, some, List, [], ◌++◌, ◌≡◌, refl, arith, Bool-cases, inl, inr, length, ℕ,
  if◌then◌else◌, ◌∷◌,
}
use coakka_runtime_swift.Status.{Status}
use coakka_runtime_swift.Core.Records.{Ptr}
use coakka_runtime_swift.Core.Call.{Call}
use coakka_runtime_swift.Machine.Heap.{World, Host, Event}
use coakka_runtime_swift.Loader.Library.{is_ok}
use coakka_runtime_swift.Bridge.Spec.{IsOpen}
use coakka_runtime_swift.Bridge.Safety.{Complete}
use coakka_runtime_swift.Swift.Calls.{Runs, bind-Runs, pure-Runs, if-Runs, Answered}
use coakka_runtime_swift.Swift.Session.{Session, after_stop, after_retire, close_locked}
use coakka_runtime_swift.Swift.Session.Outcomes.{
  StopOutcome, RetireOutcome, EndOutcome, ended, not_due, tried, retired, ended-Runs, stop_due,
  stop_call, retire_calls,
}
use coakka_runtime_swift.Swift.Session.Traffic.{released}
use coakka_runtime_swift.Swift.Session.Sound.{Owners, IsSound}
use coakka_runtime_swift.Swift.Session.System.{System}

-- What the close did: nothing, since the session was stopped already; or it called a stop of the
-- session's runtime, and the status that is given is the Core library's reply to that very call, which
-- comes after the calls of the log.
pub data Tried (host : Host) (log : List Event) (s : Session)
    : Option Status → List Call → Type 0 where
  stopped_already : s.stopped ≡ true → Tried host log s none []
  stop_called :
      (r : ℕ) (status : Status) (ds : List Call)
      → s.runtime ≡ some r
      → Answered host log (Call.runtime_stop (some r)) status
      → Tried host log s (some status) (ds ++ Call.runtime_stop (some r) ∷ [])

-- A close reports no failure exactly if the session was stopped already or the Core library replied
-- to the stop with success, and then the session is stopped. Otherwise it reports the status with
-- which the Core library replied; the stop is then the only call, the session keeps its runtime and
-- itself, and the next close tries again.
pub record Reported (host : Host) (log : List Event) (s s' : Session) (failure : Option Status)
    (cs : List Call) : Type 0 where
  pub reply : Option Status
  pub attempt : Tried host log s reply cs
  pub reported : failure ≡ elim reply [ none ↦ none | some f ↦ if is_ok f then none else some f ]
  pub success : failure ≡ none → s'.stopped ≡ true
  pub refusal :
      (f : Status)
      → failure ≡ some f
      → (length cs ≡ 1)
        × (released cs ≡ [])
        × (s'.runtime ≡ s.runtime)
        × (s'.keeps_itself ≡ true)
        × (stop_due s' ≡ true)

after_stop-Reported :
    (host : Host) (log : List Event) (s : Session) (r : ℕ) (status : Status) {s' : Session}
    (ds : List Call)
    → stop_due s ≡ true
    → s.runtime ≡ some r
    → Answered host log (Call.runtime_stop (some r)) status
    → RetireOutcome (after_stop s status) s' ds
    → Reported host log s s' s'.stop_failure (ds ++ stop_call r)
unfolding released after_stop after_retire
after_stop-Reported host log s r status ds due live reply (not_due e) =
    elim (Bool-cases (is_ok status)) [
      | inl fine ↦ record {
        reply = some status;
        attempt = stop_called r status [] live reply;
        reported = rw fine refl;
        success = λ _. fine;
        refusal = λ f g. absurd (ground (arith, fine, g));
      }
      | inr failed ↦ record {
        reply = some status;
        attempt = stop_called r status [] live reply;
        reported = rw failed refl;
        success = λ g. absurd (ground (arith, failed, g));
        refusal = λ f g. ground (arith, failed, g, due);
      }
    ]
after_stop-Reported host log s r status ds due live reply (retired q c d l) = record {
  reply = some status;
  attempt = stop_called r status (retire_calls s.client q s.handles) live reply;
  reported = ground (arith, d);
  success = λ _. ground (arith, d);
  refusal = λ f g. absurd (ground (arith, d, g));
}

stopped-Reported :
    (host : Host) {log : List Event} (s : Session) {s₁ s' : Session} {cs : List Call}
    (ds : List Call)
    → stop_due s ≡ true
    → StopOutcome host log s s₁ cs
    → RetireOutcome s₁ s' ds
    → Reported host log s s' s'.stop_failure (ds ++ cs)
stopped-Reported host s ds due (not_due e) b = absurd (ground (arith, e, due))
stopped-Reported host {log} s ds due (tried r status d l reply) b =
    after_stop-Reported host log s r status ds due l reply b

ended-Reported :
    (host : Host) {log : List Event} (s : Session) {s' : Session} {cs : List Call}
    → stop_due s ≡ true
    → EndOutcome host log s s' cs
    → Reported host log s s' s'.stop_failure cs
ended-Reported host s due (ended {ds = ds} a b) = stopped-Reported host s ds due a b

-- In a sound state whose runner is done, over an open library of a complete module, the locked part
-- of close returns, with any reply of the Core library. Either the session was stopped already: then
-- it makes no call and reports no failure. Or it calls a stop of the session's runtime, and what it
-- reports is the status with which the Core library replies to a stop of it at that moment, after
-- all calls made before, or no failure if that is success. Where it reports no failure, the session is stopped. Where it reports one, the stop was
-- its only call; every owner, the runtime and the session itself are kept, and a stop is still due.
pub close_locked-Reports :
    (o : Owners) (host : Host) (handle : Ptr) (sys : System) (w : World)
    → Complete host handle
    → IsOpen host handle o.library w
    → IsSound o sys
    → sys.session.reader_retired ≡ true
    → Runs (close_locked host sys.session) w (λ r cs. Reported host w.log sys.session r.0 r.1 cs)
unfolding close_locked
close_locked-Reports o host handle sys w complete op i gone =
    if-Runs sys.session.stopped
      (λ halted. pure-Runs _ w (record {
        reply = none;
        attempt = stopped_already halted;
        reported = i.held.stop_known halted;
        success = λ _. halted;
        refusal = λ f g. absurd (ground (arith, i.held.stop_known halted, g));
      }))
      (λ going.
        bind-Runs host handle o.library op
          (ended-Runs host handle o.library complete sys.session w op i.held.library)
          (λ s' cs w' op' end.
            pure-Runs _ w'
              (ended-Reported host sys.session (ground (arith, gone, going, i.retired)) end)))
