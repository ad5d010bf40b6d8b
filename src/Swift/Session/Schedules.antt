-- ===== src/Swift/Session/Schedules.antt =====
-- Every action of a schedule keeps the invariant of a session and gives back what it says.
use coakka_runtime_swift.Prelude.{
  ℕ, zero, suc, ◌-◌, true, false, Option, none, some, List, [], ◌∷◌, length, ◌≡◌, refl, arith, ◌∙◌,
  append_assoc, sym, append_nil,
}
use coakka_runtime_swift.Core.Records.{Ptr}
use coakka_runtime_swift.Core.Call.{Call}
use coakka_runtime_swift.Machine.Heap.{World, Host}
use coakka_runtime_swift.Machine.Effects.{pure, ◌>>=◌}
use coakka_runtime_swift.Bridge.Spec.{IsOpen}
use coakka_runtime_swift.Bridge.Safety.{Complete}
use coakka_runtime_swift.Swift.Calls.{Runs, bind-Runs, pure-Runs, if-Runs, weaken-Runs}
use coakka_runtime_swift.Swift.Native.{
  reader_destroy-Runs, ask_ticket_destroy-Runs, deadletter_reason_name-Runs,
}
use coakka_runtime_swift.Swift.Session.{
  Session, request_retirement, close_request, end_borrow, retire_reader, close_locked, new_session,
}
use coakka_runtime_swift.Swift.Session.Ask.{Wait}
use coakka_runtime_swift.Swift.Session.Answers.{await_result-Harmless}
use coakka_runtime_swift.Swift.Session.Reader.{
  Runner, reading, dispatching, leaving, joining, done, fail_read,
}
use coakka_runtime_swift.Swift.Session.Outcomes.{ended-Runs, retire_locked-Runs}
use coakka_runtime_swift.Swift.Session.Traffic.{
  released, released-append, IsHarmless, silent, single, begin_request-Runs, submit-Runs,
  release_frame-Runs,
}
use coakka_runtime_swift.Swift.Session.Rounds.{
  has_reader, RoundOutcome, went_on, broke, read_request-Runs,
}
use coakka_runtime_swift.Swift.Session.Sound.{Owners, IsSound, given_back, new_system-IsSound}
use coakka_runtime_swift.Swift.Session.Settled.{with_session}
use coakka_runtime_swift.Swift.Session.System.{
  System, Action, begin_ask, await_ticket, destroy_ticket, end_ask, name_deadletter, run_reader,
  submit_reply, call_close, join_close, drop_host, pick, await_picked, destroy_picked, end_one,
  run_phase, act, run, new_system,
}
use coakka_runtime_swift.Swift.Session.Kept.{
  Keeps, pick-length, has_reader-done, harmless, begun-Keeps, ended-Keeps, settled-Keeps,
}

module _ (o : Owners) (host : Host) (handle : Ptr) (complete : Complete host handle) where
  await_picked-Keeps :
      (sys : System) (a : Wait) (picked : Option (ℕ × List ℕ)) (w : World)
      → IsSound o sys
      → IsOpen host handle o.library w
      → Runs (await_picked host sys a picked) w (λ sys' cs. Keeps o sys sys' cs)
  unfolding await_picked
  await_picked-Keeps sys a none w i op = pure-Runs sys w (harmless o sys sys [] i silent refl)
  await_picked-Keeps sys a (some r) w i op =
      bind-Runs host handle o.library op
        (await_result-Harmless host handle o.library complete i.held.library r.0 a w op)
        (λ _ cs w' op' c. pure-Runs sys w' (harmless o sys sys cs i c refl))

  destroy_picked-Keeps :
      (sys : System) (picked : Option (ℕ × List ℕ)) (w : World)
      → ((r : ℕ × List ℕ) → picked ≡ some r → length sys.waiting ≡ suc (length r.1))
      → IsSound o sys
      → IsOpen host handle o.library w
      → Runs (destroy_picked host sys picked) w (λ sys' cs. Keeps o sys sys' cs)
  unfolding destroy_picked
  destroy_picked-Keeps sys none w e i op = pure-Runs sys w (harmless o sys sys [] i silent refl)
  destroy_picked-Keeps sys (some r) w e i op =
      bind-Runs host handle o.library op
        (ask_ticket_destroy-Runs host handle o.library complete w op i.held.library r.0)
        (λ _ cs w' op' c.
          pure-Runs _ w' (harmless o sys _ cs (ground (arith, e r refl)) (single _ cs refl c) refl))

  end_one-Keeps :
      (sys : System) (n : ℕ) (w : World)
      → sys.ending ≡ n
      → IsSound o sys
      → IsOpen host handle o.library w
      → Runs (end_one host sys n) w (λ sys' cs. Keeps o sys sys' cs)
  unfolding end_one end_borrow
  end_one-Keeps sys zero w e i op = pure-Runs sys w (harmless o sys sys [] i silent refl)
  end_one-Keeps sys (suc n) w e i op =
      let s : Session = record sys.session { active_asks = sys.session.active_asks - 1 } in
      bind-Runs host handle o.library op
        (retire_locked-Runs host handle o.library complete s w op i.held.library)
        (λ s' cs w' op' r. pure-Runs _ w' (
          settled-Keeps o sys (record sys { session = s; ending = n }) cs
            (ground (arith, e, i.held.counted, i.retired)) refl r))

  round-Keeps :
      (sys : System) (r : Session × Runner) (cs : List Call)
      → has_reader sys.runner ≡ true
      → IsSound o sys
      → RoundOutcome sys.session r
      → IsHarmless cs
      → Keeps o sys (record sys { session = r.0; runner = r.1 }) cs
  unfolding fail_read
  round-Keeps sys _ cs reads i (went_on next more) h =
      harmless o sys _ cs
        (ground (arith, has_reader-done o next more, has_reader-done o sys.runner reads)) h
        (rw (more, reads) refl)
  round-Keeps sys _ cs reads i (broke e) h =
      harmless o sys _ cs (ground (arith, has_reader-done o sys.runner reads)) h (rw reads refl)

  run_phase-Keeps :
      (sys : System) (phase : Runner) (w : World)
      → sys.runner ≡ phase
      → IsSound o sys
      → IsOpen host handle o.library w
      → Runs (run_phase host sys phase) w (λ sys' cs. Keeps o sys sys' cs)
  unfolding run_phase retire_reader released
  run_phase-Keeps sys reading w e i op =
      bind-Runs host handle o.library op
        (read_request-Runs host handle o.library complete sys.session w op i.held.library)
        (λ r cs w' op' h. pure-Runs _ w' (round-Keeps sys r cs (rw e refl) i h.0 h.1))
  run_phase-Keeps sys (dispatching f) w e i op =
      bind-Runs host handle o.library op
        (release_frame-Runs host handle o.library complete sys.session (some f) w op i.held.library)
        (λ _ cs w' op' h.
          pure-Runs _ w' (round-Keeps sys _ cs (rw e refl) i (went_on reading refl) h))
  run_phase-Keeps sys leaving w e i op =
      bind-Runs host handle o.library op
        (reader_destroy-Runs host handle o.library complete w op i.held.library
          (some sys.session.reader))
        (λ _ cs w' op' c.
          pure-Runs _ w' (ground (arith, e, c, i.retired, i.held.runner_known, i.held.reader)))
  run_phase-Keeps sys joining w e i op =
      let s : Session = record sys.session { reader_retired = true; closing = true } in
      bind-Runs host handle o.library op
        (ended-Runs host handle o.library complete s w op i.held.library)
        (λ s' cs w' op' end. pure-Runs _ w' (
          ended-Keeps o sys (record sys { session = s; runner = done }) host cs
            (ground (arith, e, i.held.runner_known, i.retired)) (rw e refl) end))
  run_phase-Keeps sys done w e i op = pure-Runs sys w (harmless o sys sys [] i silent refl)

  join_close-Keeps :
      (sys : System) (w : World)
      → IsSound o sys
      → IsOpen host handle o.library w
      → Runs
          (do r ← close_locked host sys.session; pure (record sys { session = r.0 }))
          w
          (λ sys' cs. Keeps o sys sys' cs)
  unfolding close_locked
  join_close-Keeps sys w i op =
      bind-Runs host handle o.library {P = λ r cs. Keeps o sys (with_session sys r.0) cs} op
        (if-Runs sys.session.stopped (λ _. pure-Runs _ w (harmless o sys sys [] i silent refl))
          (λ _.
            bind-Runs host handle o.library op
              (ended-Runs host handle o.library complete sys.session w op i.held.library)
              (λ s' cs w' op' end. pure-Runs _ w' (ended-Keeps o sys sys host cs i.held refl end))))
        (λ r cs w' op' k. pure-Runs _ w' k)

  pub act-Keeps :
      (a : Action) (sys : System) (w : World)
      → IsSound o sys
      → IsOpen host handle o.library w
      → Runs (act host a sys) w (λ sys' cs. Keeps o sys sys' cs)
  unfolding act close_request request_retirement
  act-Keeps (begin_ask spec) sys w i op =
      bind-Runs host handle o.library op
        (begin_request-Runs host handle o.library complete spec sys.session w op i.held.library)
        (λ r cs w' op' h. pure-Runs _ w' (begun-Keeps o sys r cs i h.0 h.1))
  act-Keeps (await_ticket n a) sys w i op = await_picked-Keeps sys a (pick n sys.waiting) w i op
  act-Keeps (destroy_ticket n) sys w i op =
      destroy_picked-Keeps sys (pick n sys.waiting) w (λ r e. pick-length n sys.waiting r e) i op
  act-Keeps end_ask sys w i op = end_one-Keeps sys sys.ending w refl i op
  act-Keeps (name_deadletter reason) sys w i op =
      bind-Runs host handle o.library op
        (deadletter_reason_name-Runs host handle o.library complete w op i.held.library reason)
        (λ _ cs w' op' c. pure-Runs sys w' (harmless o sys sys cs i (single _ cs refl c) refl))
  act-Keeps run_reader sys w i op = run_phase-Keeps sys sys.runner w refl i op
  act-Keeps (submit_reply reply) sys w i op =
      bind-Runs host handle o.library op
        (submit-Runs host handle o.library complete reply sys.session w op i.held.library)
        (λ _ cs w' op' h. pure-Runs sys w' (harmless o sys sys cs i h refl))
  act-Keeps (call_close true busy) sys w i op = pure-Runs _ w (harmless o sys sys [] i silent refl)
  act-Keeps (call_close false true) sys w i op = pure-Runs _ w (harmless o sys sys [] i silent refl)
  act-Keeps (call_close false false) sys w i op =
      pure-Runs _ w (harmless o sys _ [] (ground arith) silent refl)
  act-Keeps join_close sys w i op =
      if-Runs sys.session.reader_retired (λ _. join_close-Keeps sys w i op)
        (λ _. pure-Runs sys w (harmless o sys sys [] i silent refl))
  act-Keeps drop_host sys w i op = pure-Runs _ w (harmless o sys _ [] (ground arith) silent refl)

  pub run-Keeps :
      (actions : List Action) (sys : System) (w : World)
      → IsSound o sys
      → IsOpen host handle o.library w
      → Runs (run host actions sys) w (λ sys' cs. Keeps o sys sys' cs)
  unfolding run
  run-Keeps [] sys w i op = pure-Runs sys w (harmless o sys sys [] i silent refl)
  run-Keeps (a ∷ rest) sys w i op =
      bind-Runs host handle o.library op (act-Keeps a sys w i op) (λ sys₁ cs w₁ op₁ k.
        weaken-Runs (run-Keeps rest sys₁ w₁ k.0 op₁) (λ sys₂ ds l. (
          l.0,
          rw (l.1, k.1, released-append ds cs)
              (append_assoc (released ds) (released cs) (given_back o sys)),
        )))

-- A session of a new runtime, over a library that an open published for a module with every name of
-- the load order. Whatever the request runner, the askers and the callers of close do, in any order
-- and with any replies of the Core library, no step faults and nothing but the log changes. At the
-- end the active asks are those of the live tickets and of the askers about to end, and at most 64;
-- the session is retired exactly if its reader is gone, a stop succeeded and no ask is active; and
-- the calls that gave an owner back are those of the owners that are gone, each made once, the
-- reader first, then the client, the handles and the runtime.
pub schedule-Sound :
    (o : Owners) (host : Host) (handle : Ptr) (actions : List Action) (w : World)
    → Complete host handle
    → IsOpen host handle o.library w
    → Runs
        (run host actions
          (new_system (new_session (some o.library) o.runtime o.client o.handles o.reader)))
        w
        (λ sys cs. IsSound o sys × (released cs ≡ given_back o sys))
unfolding new_session
schedule-Sound o host handle actions w complete op =
    weaken-Runs (run-Keeps o host handle complete actions _ w (new_system-IsSound o) op)
      (λ sys cs k. (k.0, sym (k.1 ∙ append_nil (released cs))))
