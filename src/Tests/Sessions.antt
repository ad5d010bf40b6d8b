-- ===== src/Tests/Sessions.antt =====
-- Sessions of a runtime over the open library, at concrete states.
use coakka_runtime_swift.Prelude.{AllOf}
use coakka_runtime_swift.Prelude.{true, false, none, some, List, [], ◌∷◌, ◌≡◌, refl, arith}
use coakka_runtime_swift.Bridge.Lifecycle.{empty_handles}
use coakka_runtime_swift.Swift.Calls.{Runs}
use coakka_runtime_swift.Swift.Session.{Session, new_session, close_locked}
use coakka_runtime_swift.Swift.Session.Ask.{Wait}
use coakka_runtime_swift.Swift.Session.Reader.{reading, dispatching, done}
use coakka_runtime_swift.Swift.Session.System.{
  System, new_system, Action, begin_ask, await_ticket, destroy_ticket, end_ask, name_deadletter,
  run_reader, submit_reply, call_close, join_close, drop_host, run,
}
use coakka_runtime_swift.Swift.Session.Traffic.{released}
use coakka_runtime_swift.Swift.Session.Sound.{Owners, IsSound, given_back, is_done}
use coakka_runtime_swift.Swift.Session.Drained.{StopSucceeds}
use coakka_runtime_swift.Swift.Session.Schedules.{schedule-Sound}
use coakka_runtime_swift.Swift.Session.Retired.{IsOwnerless, retired-Untouched}
use coakka_runtime_swift.Swift.Session.Retires.{retirement, retirement-Retires}
use coakka_runtime_swift.Swift.Session.Closing.{Reported, close_locked-Reports}
use coakka_runtime_swift.Swift.Session.Ends.{runner-Ends}
use coakka_runtime_swift.Tests.{demo, open_world, open_world-IsOpen, demo-Complete}

abbrev owners : Owners
owners = record { library = 16; runtime = 64; client = 72; handles = empty_handles 0; reader = 80 }

abbrev session : Session
session = record {
  library_handle = some 16;
  handle = some 16;
  runtime = some 64;
  client = 72;
  handles = empty_handles 0;
  reader = 80;
  closing = false;
  reader_retired = false;
  stopped = false;
  active_asks = 0;
  stop_failure = none;
  read_failure = none;
  keeps_itself = false;
}

-- An ask is under way.
abbrev asking : System
asking = record {
  session = record session { active_asks = 1 };
  runner = reading;
  waiting = 88 ∷ [];
  ending = 0;
}

-- The runner is done, and the stop is still to be tried.
abbrev unstopped : System
unstopped = record {
  session = record session { closing = true; reader_retired = true };
  runner = done;
  waiting = [];
  ending = 0;
}

-- Everything is over.
abbrev over : System
over = record {
  session = record session {
    runtime = none;
    closing = true;
    reader_retired = true;
    stopped = true;
    library_handle = none;
  };
  runner = done;
  waiting = [];
  ending = 0;
}

asking-IsSound : IsSound owners asking
asking-IsSound = record {
  held = record {
    library = refl;
    client = refl;
    reader = refl;
    owned = λ r e. ground arith;
    bounded = omega arith;
    counted = refl;
    runner_known = refl;
    admission_closed = λ e. cc;
    only_over = λ e. cc;
    stop_known = λ e. refl;
  };
  retired = refl;
}

unstopped-IsSound : IsSound owners unstopped
unstopped-IsSound = record {
  held = record {
    library = refl;
    client = refl;
    reader = refl;
    owned = λ r e. ground arith;
    bounded = omega arith;
    counted = refl;
    runner_known = refl;
    admission_closed = λ e. refl;
    only_over = λ e. cc;
    stop_known = λ e. refl;
  };
  retired = refl;
}

over-IsSound : IsSound owners over
over-IsSound = record {
  held = record {
    library = refl;
    client = refl;
    reader = refl;
    owned = λ r e. absurd (cc);
    bounded = omega arith;
    counted = refl;
    runner_known = refl;
    admission_closed = λ e. refl;
    only_over = λ e. refl;
    stop_known = λ e. refl;
  };
  retired = refl;
}

abbrev patient : Wait
patient = record {
  timeout_ms = 100;
  message_id = "message";
  payload_only = true;
  cancelled_before = false;
  cancelled_after = false;
}

-- Two asks, a request, a close from another thread and the end of all of them.
abbrev schedule : List Action
schedule =
    begin_ask 96
    ∷ begin_ask 104
    ∷ run_reader
    ∷ submit_reply 96
    ∷ call_close false false
    ∷ await_ticket 1 patient
    ∷ destroy_ticket 1
    ∷ run_reader
    ∷ run_reader
    ∷ run_reader
    ∷ end_ask
    ∷ destroy_ticket 0
    ∷ join_close
    ∷ end_ask
    ∷ name_deadletter 3
    ∷ drop_host
    ∷ []

schedule-Sound_example :
    Runs
      (run demo schedule (new_system (new_session (some 16) 64 72 (empty_handles 0) 80)))
      open_world
      (λ sys cs. IsSound owners sys × (released cs ≡ given_back owners sys))
schedule-Sound_example =
    schedule-Sound owners demo (some 7) schedule open_world demo-Complete open_world-IsOpen

retired-Untouched_example :
    Runs
      (run demo schedule over)
      open_world
      (λ sys cs. AllOf IsOwnerless cs × (sys.session.runtime ≡ none))
retired-Untouched_example =
    retired-Untouched owners demo (some 7) schedule over open_world demo-Complete open_world-IsOpen
      over-IsSound refl

demo-StopSucceeds : StopSucceeds demo 64
demo-StopSucceeds a log = refl

retirement-Retires_example :
    Runs (run demo (retirement asking) asking) open_world (λ sys cs. sys.session.runtime ≡ none)
retirement-Retires_example =
    retirement-Retires owners demo (some 7) asking open_world demo-Complete open_world-IsOpen
      demo-StopSucceeds asking-IsSound

close_locked-Reports_example :
    Runs
      (close_locked demo unstopped.session)
      open_world
      (λ r cs. Reported demo open_world.log unstopped.session r.0 r.1 cs)
close_locked-Reports_example =
    close_locked-Reports owners demo (some 7) unstopped open_world demo-Complete open_world-IsOpen
      unstopped-IsSound refl

-- A close was called while a handler runs.
abbrev closing : System
closing = record {
  session = record session { closing = true };
  runner = dispatching 96;
  waiting = [];
  ending = 0;
}

closing-IsSound : IsSound owners closing
closing-IsSound = record {
  held = record {
    library = refl;
    client = refl;
    reader = refl;
    owned = λ r e. ground arith;
    bounded = omega arith;
    counted = refl;
    runner_known = refl;
    admission_closed = λ e. cc;
    only_over = λ e. cc;
    stop_known = λ e. refl;
  };
  retired = refl;
}

abbrev four_turns : List Action
four_turns =
    run_reader ∷ begin_ask 96 ∷ run_reader ∷ run_reader ∷ call_close false false ∷ run_reader ∷ []

runner-Ends_example :
    Runs
      (run demo four_turns closing)
      open_world
      (λ sys cs. (is_done sys.runner ≡ true) × (sys.session.closing ≡ true))
runner-Ends_example =
    runner-Ends owners demo (some 7) four_turns closing open_world demo-Complete open_world-IsOpen
      closing-IsSound refl (omega arith)
