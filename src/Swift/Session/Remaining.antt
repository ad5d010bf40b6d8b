-- ===== src/Swift/Session/Remaining.antt =====
-- How each actor does its part of what is left until a session is retired.
use coakka_runtime_swift.Prelude.{
  ℕ, zero, suc, ◌-◌, Bool, true, some, List, [], ◌∷◌, ◌≡◌, refl, arith, ◌∙◌,
}
use coakka_runtime_swift.Core.Records.{Ptr}
use coakka_runtime_swift.Machine.Heap.{World, Host}
use coakka_runtime_swift.Bridge.Spec.{IsOpen}
use coakka_runtime_swift.Bridge.Safety.{Complete}
use coakka_runtime_swift.Swift.Calls.{Runs, bind-Runs, pure-Runs, if-Runs}
use coakka_runtime_swift.Swift.Native.{reader_destroy-Runs, ask_ticket_destroy-Runs}
use coakka_runtime_swift.Swift.Session.{Session, retire_reader, close_locked, end_borrow}
use coakka_runtime_swift.Swift.Session.Reader.{Runner, reading, dispatching, leaving, joining, done}
use coakka_runtime_swift.Swift.Session.Outcomes.{ended-Runs, retire_locked-Runs}
use coakka_runtime_swift.Swift.Session.Traffic.{release_frame-Runs}
use coakka_runtime_swift.Swift.Session.Sound.{Owners, IsSound}
use coakka_runtime_swift.Swift.Session.System.{
  System, run_reader, join_close, pick, destroy_picked, end_one, run_phase, act,
}
use coakka_runtime_swift.Swift.Session.Drained.{
  StopSucceeds, Left, end_facts, retire_facts, no_rounds, read-closing,
}

module _ (o : Owners) (host : Host) (handle : Ptr) (complete : Complete host handle)
    (fine : StopSucceeds host o.runtime) where
  run_phase-Left :
      (k m n : ℕ) (b : Bool) (sys : System) (phase : Runner) (w : World)
      → sys.runner ≡ phase
      → IsSound o sys
      → IsOpen host handle o.library w
      → Left (suc k) m n b sys
      → Runs (run_phase host sys phase) w (λ sys' _. Left k m n b sys')
  unfolding run_phase retire_reader
  run_phase-Left k m n b sys reading w e i op l =
      bind-Runs host handle o.library op (read-closing host sys.session w l.shut)
        (λ r cs w' op' same. pure-Runs _ w' (ground (arith, e, same, l.rounds_few)))
  run_phase-Left k m n b sys (dispatching f) w e i op l =
      bind-Runs host handle o.library op
        (release_frame-Runs host handle o.library complete sys.session (some f) w op i.held.library)
        (λ _ cs w' op' h. pure-Runs _ w' (ground (arith, e, l.rounds_few)))
  run_phase-Left k m n b sys leaving w e i op l =
      bind-Runs host handle o.library op
        (reader_destroy-Runs host handle o.library complete w op i.held.library
          (some sys.session.reader))
        (λ _ cs w' op' h. pure-Runs _ w' (ground (arith, e, l.rounds_few)))
  run_phase-Left k m n b sys joining w e i op l =
      let s : Session = record sys.session { reader_retired = true; closing = true } in
      bind-Runs host handle o.library op
        (ended-Runs host handle o.library complete s w op i.held.library)
        (λ s' cs w' op' end.
          let facts = end_facts host o.runtime fine (λ r live. (i.held.owned r live).0) end in
          pure-Runs _ w' (record {
            shut = facts.0;
            rounds_few = omega arith;
            tickets_left = l.tickets_left;
            ends_left = l.ends_left;
            stopped = λ h. facts.1 (l.stopped h);
          }))
  run_phase-Left k m n b sys done w e i op l = pure-Runs sys w (ground (arith, e, l.rounds_few))

  pub run_reader-Left :
      (k m n : ℕ) (b : Bool) (sys : System) (w : World)
      → IsSound o sys
      → IsOpen host handle o.library w
      → Left (suc k) m n b sys
      → Runs (act host run_reader sys) w (λ sys' _. Left k m n b sys')
  unfolding act
  run_reader-Left k m n b sys w i op l = run_phase-Left k m n b sys sys.runner w refl i op l

  -- A close after the runner is done leaves the session stopped.
  pub close_locked-Left :
      (m n : ℕ) (b : Bool) (sys : System) (w : World)
      → IsSound o sys
      → IsOpen host handle o.library w
      → Left 0 m n b sys
      → Runs (close_locked host sys.session) w (λ r _. (r.0.closing ≡ true) × (r.0.stopped ≡ true))
  unfolding close_locked
  close_locked-Left m n b sys w i op l =
      let gone : sys.session.reader_retired ≡ true =
        i.held.runner_known ∙ no_rounds sys.runner l.rounds_few in
      if-Runs sys.session.stopped (λ h. pure-Runs _ w (l.shut, h))
        (λ h.
          bind-Runs host handle o.library op
            (ended-Runs host handle o.library complete sys.session w op i.held.library)
            (λ s' cs w' op' end.
              let facts = end_facts host o.runtime fine (λ r live. (i.held.owned r live).0) end in
              pure-Runs _ w' (facts.0 ∙ l.shut, facts.2 ground (arith, h, gone, i.retired))))

  pub join_close-Left :
      (m n : ℕ) (b : Bool) (sys : System) (w : World)
      → IsSound o sys
      → IsOpen host handle o.library w
      → Left 0 m n b sys
      → Runs (act host join_close sys) w (λ sys' _. Left 0 m n true sys')
  unfolding act
  join_close-Left m n b sys w i op l =
      if-Runs sys.session.reader_retired
        (λ _.
          bind-Runs host handle o.library op (close_locked-Left m n b sys w i op l)
            (λ r cs w' op' h. pure-Runs _ w' (ground (arith, h, l.rounds_few))))
        (λ e. absurd (ground (arith, e, i.held.runner_known, no_rounds sys.runner l.rounds_few)))

  pub destroy_picked-Left :
      (m n : ℕ) (b : Bool) (sys : System) (ts : List ℕ) (w : World)
      → sys.waiting ≡ ts
      → IsSound o sys
      → IsOpen host handle o.library w
      → Left 0 (suc m) n b sys
      → Runs (destroy_picked host sys (pick 0 ts)) w (λ sys' _. Left 0 m (suc n) b sys')
  unfolding destroy_picked pick
  destroy_picked-Left m n b sys [] w e i op l = absurd (ground (arith, e, l.tickets_left))
  destroy_picked-Left m n b sys (t ∷ ts) w e i op l =
      bind-Runs host handle o.library op
        (ask_ticket_destroy-Runs host handle o.library complete w op i.held.library t)
        (λ _ cs w' op' h. pure-Runs _ w' (ground (arith, e, l.tickets_left)))

  pub end_one-Left :
      (n : ℕ) (b : Bool) (sys : System) (ends : ℕ) (w : World)
      → sys.ending ≡ ends
      → IsSound o sys
      → IsOpen host handle o.library w
      → Left 0 0 (suc n) b sys
      → Runs (end_one host sys ends) w (λ sys' _. Left 0 0 n b sys')
  unfolding end_one end_borrow
  end_one-Left n b sys zero w e i op l = absurd (ground (arith, e, l.ends_left))
  end_one-Left n b sys (suc k) w e i op l =
      let s : Session = record sys.session { active_asks = sys.session.active_asks - 1 } in
      bind-Runs host handle o.library op
        (retire_locked-Runs host handle o.library complete s w op i.held.library)
        (λ s' cs w' op' r.
          let facts = retire_facts r in
          pure-Runs _ w' (record {
            shut = facts.0 ∙ l.shut;
            rounds_few = l.rounds_few;
            tickets_left = l.tickets_left;
            ends_left = omega (arith, e, l.ends_left);
            stopped = λ h. facts.1 ∙ l.stopped h;
          }))
