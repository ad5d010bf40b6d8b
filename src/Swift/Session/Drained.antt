-- ===== src/Swift/Session/Drained.antt =====
-- What is left to do until a session is retired, and what a stop and a retirement leave of it.
use coakka_runtime_swift.Prelude.{
  ℕ, ◌≤◌, Bool, true, some, List, length, ◌≡◌, refl, arith, sym, ◌∙◌,
}
use coakka_runtime_swift.Status.{Status, ok}
use coakka_runtime_swift.Core.Call.{Call}
use coakka_runtime_swift.Machine.Heap.{World, Host, Event}
use coakka_runtime_swift.Machine.Effects.{returns, M}
use coakka_runtime_swift.Loader.Library.{is_ok}
use coakka_runtime_swift.Swift.Calls.{Runs, Answered, pure-Runs, if-Runs}
use coakka_runtime_swift.Swift.Session.{Session, after_stop, after_retire}
use coakka_runtime_swift.Swift.Session.Reader.{
  Runner, reading, dispatching, leaving, joining, done, read_request,
}
use coakka_runtime_swift.Swift.Session.Outcomes.{
  StopOutcome, RetireOutcome, EndOutcome, ended, not_due, tried, retired, stop_due,
}
use coakka_runtime_swift.Swift.Session.Sound.{is_done}
use coakka_runtime_swift.Swift.Session.System.{System}

-- The Core library stops a runtime whenever it is asked to.
abbrev pub StopSucceeds : Host → ℕ → Type 0
StopSucceeds host r =
    (a : ℕ) (log : List Event) → host.native a (Call.runtime_stop (some r)) log ≡ ok

-- How many rounds the runner needs to be done, once the session is closing.
abbrev pub rounds_left : Runner → ℕ
rounds_left (dispatching f) = 4
rounds_left reading = 3
rounds_left leaving = 2
rounds_left joining = 1
rounds_left done = 0

returned : {A : Type 0} {a b : A} {v w : World} → returns a v ≡ returns b w → a ≡ b
returned e = cc

-- Both facts hold of the one result of an action.
pub both-Runs :
    {A : Type 0} {m : M A} {w : World} {P : A → List Call → Type 0} {Q : A → Type 0}
    → Runs m w P
    → Runs m w (λ a _. Q a)
    → Runs m w (λ a cs. P a cs × Q a)
both-Runs r q =
    let same : q.result ≡ r.result = returned (sym q.runs ∙ r.runs) in
    record {
      result = r.result;
      after = r.after;
      made_calls = r.made_calls;
      runs = r.runs;
      made = r.made;
      holds = (r.holds, rw (← same) q.holds);
    }

-- A session that is closing, with at most so many rounds left for its runner, so many live tickets
-- and so many askers about to end; and, if that is said, stopped.
pub record Left (rounds tickets ends : ℕ) (halted : Bool) (sys : System) : Type 0 where
  pub shut : sys.session.closing ≡ true
  pub rounds_few : rounds_left sys.runner ≤ rounds
  pub tickets_left : length sys.waiting ≡ tickets
  pub ends_left : sys.ending ≡ ends
  pub stopped : halted ≡ true → sys.session.stopped ≡ true

stop_went :
    (host : Host) (log : List Event) (q r : ℕ) (status : Status)
    → StopSucceeds host q
    → r ≡ q
    → Answered host log (Call.runtime_stop (some r)) status
    → is_ok status ≡ true
unfolding is_ok
stop_went host log q r status fine e (a, same) =
    let well : status ≡ ok = sym same ∙ rw e (fine a log) in rw well refl

stop_facts :
    (host : Host) {log : List Event} (q : ℕ) {s s' : Session} {cs : List Call}
    → StopSucceeds host q
    → ((r : ℕ) → s.runtime ≡ some r → r ≡ q)
    → StopOutcome host log s s' cs
    → (s'.closing ≡ s.closing)
      × (s.stopped ≡ true → s'.stopped ≡ true)
      × (stop_due s ≡ true → s'.stopped ≡ true)
unfolding after_stop
stop_facts host q fine own (not_due e) = (refl, λ h. h, λ h. absurd (ground (arith, e, h)))
stop_facts host {log} q fine own (tried r status due live reply) =
    let well = stop_went host log q r status fine (own r live) reply in (refl, λ h. well, λ h. well)

pub retire_facts :
    {s s' : Session} {cs : List Call}
    → RetireOutcome s s' cs
    → (s'.closing ≡ s.closing) × (s'.stopped ≡ s.stopped)
unfolding after_retire
retire_facts (not_due e) = (refl, refl)
retire_facts (retired r c d l) = (refl, refl)

-- What a stop and a retirement leave of a session, if the stop succeeds.
pub end_facts :
    (host : Host) {log : List Event} (q : ℕ) {s s' : Session} {cs : List Call}
    → StopSucceeds host q
    → ((r : ℕ) → s.runtime ≡ some r → r ≡ q)
    → EndOutcome host log s s' cs
    → (s'.closing ≡ s.closing)
      × (s.stopped ≡ true → s'.stopped ≡ true)
      × (stop_due s ≡ true → s'.stopped ≡ true)
end_facts host q fine own (ended a b) =
    let (shut, halted, due) = stop_facts host q fine own a in
    let (shut', kept) = retire_facts b in (shut' ∙ shut, λ h. kept ∙ halted h, λ h. kept ∙ due h)

pub no_rounds : (phase : Runner) → rounds_left phase ≤ 0 → is_done phase ≡ true
no_rounds done h = refl
no_rounds reading h = absurd (omega arith)
no_rounds (dispatching f) h = absurd (omega arith)
no_rounds leaving h = absurd (omega arith)
no_rounds joining h = absurd (omega arith)

pub read-closing :
    (host : Host) (s : Session) (w : World)
    → s.closing ≡ true
    → Runs (read_request host s) w (λ r _. r ≡ (s, leaving))
unfolding read_request
read-closing host s w shut =
    if-Runs s.closing (λ _. pure-Runs _ w refl) (λ e. absurd (ground (arith, e, shut)))
