-- ===== src/Swift/Session/Ends.antt =====
-- The loop of the request runner ends once the session is closing, whatever the others do meanwhile.
use coakka_runtime_swift.Prelude.{
  ℕ, zero, suc, true, false, ◌-◌, ◌≤◌, Option, none, some, List, [], ◌∷◌, ◌≡◌, refl, arith, ◌∙◌,
}
use coakka_runtime_swift.Core.Records.{Ptr}
use coakka_runtime_swift.Core.Call.{Call}
use coakka_runtime_swift.Machine.Heap.{World, Host, Event}
use coakka_runtime_swift.Machine.Effects.{pure, ◌>>=◌}
use coakka_runtime_swift.Bridge.Spec.{IsOpen}
use coakka_runtime_swift.Bridge.Safety.{Complete}
use coakka_runtime_swift.Swift.Errors.{Result}
use coakka_runtime_swift.Swift.Calls.{Runs, bind-Runs, pure-Runs, if-Runs, weaken-Runs}
use coakka_runtime_swift.Swift.Native.{
  reader_destroy-Runs, ask_ticket_destroy-Runs, deadletter_reason_name-Runs,
}
use coakka_runtime_swift.Swift.Session.{
  Session, request_retirement, close_request, end_borrow, retire_reader, close_locked, after_stop,
}
use coakka_runtime_swift.Swift.Session.Ask.{Wait}
use coakka_runtime_swift.Swift.Session.Answers.{await_result-Harmless}
use coakka_runtime_swift.Swift.Session.Reader.{Runner, reading, dispatching, leaving, joining, done}
use coakka_runtime_swift.Swift.Session.Outcomes.{
  StopOutcome, EndOutcome, ended, tried, ended-Runs, retire_locked-Runs,
}
use coakka_runtime_swift.Swift.Session.Traffic.{
  BeginOutcome, refused, begun, begin_request-Runs, submit-Runs, release_frame-Runs,
}
use coakka_runtime_swift.Swift.Session.Sound.{Owners, IsSound, is_done}
use coakka_runtime_swift.Swift.Session.System.{
  System, Action, begin_ask, await_ticket, destroy_ticket, end_ask, name_deadletter, run_reader,
  submit_reply, call_close, join_close, drop_host, pick, admit, await_picked, destroy_picked,
  end_one, run_phase, act, run,
}
use coakka_runtime_swift.Swift.Session.Schedules.{act-Keeps}
use coakka_runtime_swift.Swift.Session.Drained.{
  rounds_left, no_rounds, retire_facts, both-Runs, read-closing,
}

-- A step of the runner counts, the others do not.
abbrev count_turn : Action → ℕ → ℕ
count_turn run_reader k = suc k
count_turn _ k = k

-- The steps that a schedule gives the runner.
abbrev pub turns : List Action → ℕ
turns [] = 0
turns (a ∷ rest) = count_turn a (turns rest)

-- A session that is closing, with at most so many rounds left for its runner.
abbrev pub IsEnding : ℕ → System → Type 0
IsEnding rounds sys = (sys.session.closing ≡ true) × (rounds_left sys.runner ≤ rounds)

stop_closing :
    {host : Host} {log : List Event} {s s' : Session} {cs : List Call}
    → StopOutcome host log s s' cs
    → s'.closing ≡ s.closing
unfolding after_stop
stop_closing (StopOutcome.not_due e) = refl
stop_closing (tried r status due live reply) = refl

end_closing :
    {host : Host} {log : List Event} {s s' : Session} {cs : List Call}
    → EndOutcome host log s s' cs
    → s'.closing ≡ s.closing
end_closing (ended a b) = (retire_facts b).0 ∙ stop_closing a

begun-IsEnding :
    (k : ℕ) (sys : System) (r : Session × Result ℕ)
    → IsEnding k sys
    → BeginOutcome sys.session r
    → IsEnding k (admit sys r)
unfolding admit
begun-IsEnding k sys _ e (refused x) = e
begun-IsEnding k sys _ e (begun t going few) = absurd (ground (arith, going, e.0))

module _ (o : Owners) (host : Host) (handle : Ptr) (complete : Complete host handle) where
  run_phase-IsEnding :
      (k : ℕ) (sys : System) (phase : Runner) (w : World)
      → sys.runner ≡ phase
      → IsSound o sys
      → IsOpen host handle o.library w
      → IsEnding (suc k) sys
      → Runs (run_phase host sys phase) w (λ sys' _. IsEnding k sys')
  unfolding run_phase retire_reader
  run_phase-IsEnding k sys reading w e i op l =
      bind-Runs host handle o.library op (read-closing host sys.session w l.0)
        (λ r cs w' op' same. pure-Runs _ w' (ground (arith, e, same, l)))
  run_phase-IsEnding k sys (dispatching f) w e i op l =
      bind-Runs host handle o.library op
        (release_frame-Runs host handle o.library complete sys.session (some f) w op i.held.library)
        (λ _ cs w' op' h. pure-Runs _ w' (ground (arith, e, l)))
  run_phase-IsEnding k sys leaving w e i op l =
      bind-Runs host handle o.library op
        (reader_destroy-Runs host handle o.library complete w op i.held.library
          (some sys.session.reader))
        (λ _ cs w' op' h. pure-Runs _ w' (ground (arith, e, l)))
  run_phase-IsEnding k sys joining w e i op l =
      let s : Session = record sys.session { reader_retired = true; closing = true } in
      bind-Runs host handle o.library op
        (ended-Runs host handle o.library complete s w op i.held.library)
        (λ s' cs w' op' end. pure-Runs _ w' (end_closing end, omega arith))
  run_phase-IsEnding k sys done w e i op l = pure-Runs sys w (ground (arith, e, l))

  destroy_picked-IsEnding :
      (k : ℕ) (sys : System) (picked : Option (ℕ × List ℕ)) (w : World)
      → IsSound o sys
      → IsOpen host handle o.library w
      → IsEnding k sys
      → Runs (destroy_picked host sys picked) w (λ sys' _. IsEnding k sys')
  unfolding destroy_picked
  destroy_picked-IsEnding k sys none w i op l = pure-Runs sys w l
  destroy_picked-IsEnding k sys (some r) w i op l =
      bind-Runs host handle o.library op
        (ask_ticket_destroy-Runs host handle o.library complete w op i.held.library r.0)
        (λ _ cs w' op' c. pure-Runs _ w' l)

  await_picked-IsEnding :
      (k : ℕ) (sys : System) (a : Wait) (picked : Option (ℕ × List ℕ)) (w : World)
      → IsSound o sys
      → IsOpen host handle o.library w
      → IsEnding k sys
      → Runs (await_picked host sys a picked) w (λ sys' _. IsEnding k sys')
  unfolding await_picked
  await_picked-IsEnding k sys a none w i op l = pure-Runs sys w l
  await_picked-IsEnding k sys a (some r) w i op l =
      bind-Runs host handle o.library op
        (await_result-Harmless host handle o.library complete i.held.library r.0 a w op)
        (λ _ cs w' op' c. pure-Runs sys w' l)

  end_one-IsEnding :
      (k : ℕ) (sys : System) (n : ℕ) (w : World)
      → IsSound o sys
      → IsOpen host handle o.library w
      → IsEnding k sys
      → Runs (end_one host sys n) w (λ sys' _. IsEnding k sys')
  unfolding end_one end_borrow
  end_one-IsEnding k sys zero w i op l = pure-Runs sys w l
  end_one-IsEnding k sys (suc n) w i op l =
      let s : Session = record sys.session { active_asks = sys.session.active_asks - 1 } in
      bind-Runs host handle o.library op
        (retire_locked-Runs host handle o.library complete s w op i.held.library)
        (λ s' cs w' op' r. pure-Runs _ w' ((retire_facts r).0 ∙ l.0, l.1))

  join_close-IsEnding :
      (k : ℕ) (sys : System) (w : World)
      → IsSound o sys
      → IsOpen host handle o.library w
      → IsEnding k sys
      → Runs
          (do r ← close_locked host sys.session; pure (record sys { session = r.0 }))
          w
          (λ sys' _. IsEnding k sys')
  unfolding close_locked
  join_close-IsEnding k sys w i op l =
      bind-Runs host handle o.library {P = λ r _. r.0.closing ≡ true} op
        (if-Runs sys.session.stopped (λ _. pure-Runs _ w l.0)
          (λ _.
            bind-Runs host handle o.library op
              (ended-Runs host handle o.library complete sys.session w op i.held.library)
              (λ s' cs w' op' end. pure-Runs _ w' (end_closing end ∙ l.0))))
        (λ r cs w' op' shut. pure-Runs _ w' (shut, l.1))

  act-IsEnding :
      (a : Action) (k : ℕ) (sys : System) (w : World)
      → IsSound o sys
      → IsOpen host handle o.library w
      → IsEnding (count_turn a k) sys
      → Runs (act host a sys) w (λ sys' _. IsEnding k sys')
  unfolding act close_request request_retirement
  act-IsEnding (begin_ask spec) k sys w i op l =
      bind-Runs host handle o.library op
        (begin_request-Runs host handle o.library complete spec sys.session w op i.held.library)
        (λ r cs w' op' h. pure-Runs _ w' (begun-IsEnding k sys r l h.0))
  act-IsEnding (await_ticket n a) k sys w i op l =
      await_picked-IsEnding k sys a (pick n sys.waiting) w i op l
  act-IsEnding (destroy_ticket n) k sys w i op l =
      destroy_picked-IsEnding k sys (pick n sys.waiting) w i op l
  act-IsEnding end_ask k sys w i op l = end_one-IsEnding k sys sys.ending w i op l
  act-IsEnding (name_deadletter reason) k sys w i op l =
      bind-Runs host handle o.library op
        (deadletter_reason_name-Runs host handle o.library complete w op i.held.library reason)
        (λ _ cs w' op' c. pure-Runs sys w' l)
  act-IsEnding run_reader k sys w i op l = run_phase-IsEnding k sys sys.runner w refl i op l
  act-IsEnding (submit_reply reply) k sys w i op l =
      bind-Runs host handle o.library op
        (submit-Runs host handle o.library complete reply sys.session w op i.held.library)
        (λ _ cs w' op' h. pure-Runs sys w' l)
  act-IsEnding (call_close true busy) k sys w i op l = pure-Runs _ w l
  act-IsEnding (call_close false true) k sys w i op l = pure-Runs _ w l
  act-IsEnding (call_close false false) k sys w i op l = pure-Runs _ w (refl, l.1)
  act-IsEnding join_close k sys w i op l =
      if-Runs sys.session.reader_retired (λ _. join_close-IsEnding k sys w i op l)
        (λ _. pure-Runs sys w l)
  act-IsEnding drop_host k sys w i op l = pure-Runs _ w (refl, l.1)

  run-IsEnding :
      (actions : List Action) (sys : System) (w : World)
      → IsSound o sys
      → IsOpen host handle o.library w
      → IsEnding (turns actions) sys
      → Runs (run host actions sys) w (λ sys' _. IsEnding 0 sys')
  unfolding run
  run-IsEnding [] sys w i op l = pure-Runs sys w l
  run-IsEnding (a ∷ rest) sys w i op l =
      bind-Runs host handle o.library op
        (both-Runs (act-Keeps o host handle complete a sys w i op)
          (act-IsEnding a (turns rest) sys w i op l))
        (λ sys' cs w' op' q. run-IsEnding rest sys' w' q.0.0 op' q.1)

few_rounds : (phase : Runner) → rounds_left phase ≤ 4
few_rounds reading = omega arith
few_rounds (dispatching f) = omega arith
few_rounds leaving = omega arith
few_rounds joining = omega arith
few_rounds done = omega arith

-- From every sound state in which the session is closing, over an open library of a complete module
-- and with any replies of the Core library, the loop of the request runner ends: in every schedule
-- that gives the runner at least four steps, whatever the other actors do before, between and after
-- them, the runner is done at the end, and the session is still closing.
pub runner-Ends :
    (o : Owners) (host : Host) (handle : Ptr) (actions : List Action) (sys : System) (w : World)
    → Complete host handle
    → IsOpen host handle o.library w
    → IsSound o sys
    → sys.session.closing ≡ true
    → 4 ≤ turns actions
    → Runs
        (run host actions sys)
        w
        (λ sys' cs. (is_done sys'.runner ≡ true) × (sys'.session.closing ≡ true))
runner-Ends o host handle actions sys w complete op i shut enough =
    weaken-Runs
      (run-IsEnding o host handle complete actions sys w i op
        (shut, omega (arith, enough, few_rounds sys.runner)))
      (λ sys' cs l. (no_rounds sys'.runner l.1, l.0))
