-- ===== src/Swift/Session/Retires.antt =====
-- A session that is asked to retire gets there: the schedule in which each actor does what is left.
use coakka_runtime_swift.Prelude.{
  ℕ, zero, suc, true, false, none, List, [], ◌∷◌, length, ◌≡◌, refl, arith,
}
use coakka_runtime_swift.Core.Records.{Ptr}
use coakka_runtime_swift.Machine.Heap.{World, Host}
use coakka_runtime_swift.Bridge.Spec.{IsOpen}
use coakka_runtime_swift.Bridge.Safety.{Complete}
use coakka_runtime_swift.Swift.Calls.{Runs, bind-Runs, pure-Runs}
use coakka_runtime_swift.Swift.Session.{request_retirement}
use coakka_runtime_swift.Swift.Session.Sound.{Owners, IsSound}
use coakka_runtime_swift.Swift.Session.Schedules.{act-Keeps}
use coakka_runtime_swift.Swift.Session.System.{
  System, Action, destroy_ticket, end_ask, run_reader, join_close, drop_host, act, run,
}
use coakka_runtime_swift.Swift.Session.Remaining.{
  run_reader-Left, join_close-Left, destroy_picked-Left, end_one-Left,
}
use coakka_runtime_swift.Swift.Session.Drained.{
  StopSucceeds, rounds_left, Left, both-Runs, no_rounds,
}

-- Each live ticket is destroyed, and each asker ends.
abbrev pub asks_end : ℕ → ℕ → List Action
asks_end (suc m) n = destroy_ticket 0 ∷ asks_end m (suc n)
asks_end zero (suc n) = end_ask ∷ asks_end zero n
asks_end zero zero = []

-- The runner ends its rounds, and close goes on.
abbrev pub runner_ends : ℕ → ℕ → ℕ → List Action
runner_ends (suc k) m n = run_reader ∷ runner_ends k m n
runner_ends zero m n = join_close ∷ asks_end m n

-- The host is dropped, and what is left is done.
abbrev pub retirement : System → List Action
retirement sys = drop_host ∷ runner_ends (rounds_left sys.runner) (length sys.waiting) sys.ending

module _ (o : Owners) (host : Host) (handle : Ptr) (complete : Complete host handle)
    (fine : StopSucceeds host o.runtime) where
  abbrev Retires : List Action → System → World → Type 0
  Retires actions sys w = Runs (run host actions sys) w (λ sys' _. sys'.session.runtime ≡ none)

  first :
      (a : Action) (rest : List Action) (sys : System) (w : World) {Q : System → Type 0}
      → IsSound o sys
      → IsOpen host handle o.library w
      → Runs (act host a sys) w (λ sys' _. Q sys')
      → ((sys' : System) (w' : World)
          → IsSound o sys'
          → IsOpen host handle o.library w'
          → Q sys'
          → Retires rest sys' w')
      → Retires (a ∷ rest) sys w
  unfolding run
  first a rest sys w i op q more =
      bind-Runs host handle o.library op
        (both-Runs (act-Keeps o host handle complete a sys w i op) q)
        (λ sys' cs w' op' k. more sys' w' k.0.0 op' k.1)

  asks_end-Retires :
      (m n : ℕ) (sys : System) (w : World)
      → IsSound o sys
      → IsOpen host handle o.library w
      → Left 0 m n true sys
      → Retires (asks_end m n) sys w
  unfolding run act
  asks_end-Retires (suc m) n sys w i op l =
      first (destroy_ticket 0) (asks_end m (suc n)) sys w i op
        (destroy_picked-Left o host handle complete fine m n true sys sys.waiting w refl i op l)
        (λ sys' w' i' op' l'. asks_end-Retires m (suc n) sys' w' i' op' l')
  asks_end-Retires zero (suc n) sys w i op l =
      first end_ask (asks_end zero n) sys w i op
        (end_one-Left o host handle complete fine n true sys sys.ending w refl i op l)
        (λ sys' w' i' op' l'. asks_end-Retires zero n sys' w' i' op' l')
  asks_end-Retires zero zero sys w i op l = pure-Runs sys w (
      ground (
        arith,
        i.retired,
        i.held.runner_known,
        no_rounds sys.runner l.rounds_few,
        i.held.counted,
        l.tickets_left,
        l.ends_left,
        l.stopped refl,
      ))

  runner_ends-Retires :
      (k m n : ℕ) (sys : System) (w : World)
      → IsSound o sys
      → IsOpen host handle o.library w
      → Left k m n false sys
      → Retires (runner_ends k m n) sys w
  runner_ends-Retires (suc k) m n sys w i op l =
      first run_reader (runner_ends k m n) sys w i op
        (run_reader-Left o host handle complete fine k m n false sys w i op l)
        (λ sys' w' i' op' l'. runner_ends-Retires k m n sys' w' i' op' l')
  runner_ends-Retires zero m n sys w i op l =
      first join_close (asks_end m n) sys w i op
        (join_close-Left o host handle complete fine m n false sys w i op l)
        (λ sys' w' i' op' l'. asks_end-Retires m n sys' w' i' op' l')

-- From every sound state of a session, over an open library of a complete module and with a Core
-- library whose stop succeeds, the schedule in which the host is dropped, the runner ends its
-- rounds, close goes on, and each asker destroys its ticket and ends, retires the session.
pub retirement-Retires :
    (o : Owners) (host : Host) (handle : Ptr) (sys : System) (w : World)
    → Complete host handle
    → IsOpen host handle o.library w
    → StopSucceeds host o.runtime
    → IsSound o sys
    → Runs (run host (retirement sys) sys) w (λ sys' cs. sys'.session.runtime ≡ none)
unfolding act request_retirement
retirement-Retires o host handle sys w complete op fine i =
    first o host handle complete fine drop_host _ sys w i op
      (pure-Runs _ w (record {
        shut = refl;
        rounds_few = omega arith;
        tickets_left = refl;
        ends_left = refl;
        stopped = λ e. absurd (cc);
      }))
      (λ sys' w' i' op' l. runner_ends-Retires o host handle complete fine _ _ _ sys' w' i' op' l)
