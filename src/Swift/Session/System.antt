-- ===== src/Swift/Session/System.antt =====
-- The threads of a session, interleaved: the request runner, the callers of ask with their tickets,
-- and the callers of close. A schedule is any list of actions: what an actor does while it holds the
-- lock, or, outside of it, with an owner that it alone has. An actor that cannot move does nothing.
use coakka_runtime_swift.Prelude.{
  ℕ, zero, suc, Bool, Option, none, some, List, [], ◌∷◌, if◌then◌else◌,
}
use coakka_runtime_swift.Machine.Heap.{Host}
use coakka_runtime_swift.Machine.Effects.{M, pure, ◌>>=◌, ◌>>◌}
use coakka_runtime_swift.Bridge.Client
use coakka_runtime_swift.Bridge.Inspect
use coakka_runtime_swift.Swift.Errors.{Result, value, thrown}
use coakka_runtime_swift.Swift.Session.{
  Session, request_retirement, begin_request, end_borrow, submit, release_frame, retire_reader,
  close_request, close_locked,
}
use coakka_runtime_swift.Swift.Session.Ask.{Wait, await_result}
use coakka_runtime_swift.Swift.Session.Reader.{
  Runner, reading, dispatching, leaving, joining, done, read_request,
}

-- `waiting` holds the tickets that began and are not destroyed (NativeAskTicket), and `ending` counts
-- the askers that destroyed their ticket and have not called endBorrow.
pub record System : Type 0 where
  pub session : Session
  pub runner : Runner
  pub waiting : List ℕ
  pub ending : ℕ

abbrev pub new_system : Session → System
new_system s = record { session = s; runner = reading; waiting = []; ending = 0 }

pub data Action : Type 0 where
  -- RuntimeHost.beginAsk, and awaitResult with its defer block: the ticket at a position
  begin_ask : ℕ → Action
  await_ticket : ℕ → Wait → Action
  destroy_ticket : ℕ → Action
  end_ask : Action
  -- accept of RuntimeHostClient.swift, for the reason of a deadletter
  name_deadletter : ℕ → Action
  -- the next step of the runner, and the reply of a handler
  run_reader : Action
  submit_reply : ℕ → Action
  -- close, before and after the runner joined, and the deinit of RuntimeHost
  call_close : Bool → Bool → Action
  join_close : Action
  drop_host : Action

-- The element at a position, and the others.
unfoldable pub pick : ℕ → List ℕ → Option (ℕ × List ℕ)
pick n [] = none
pick zero (t ∷ ts) = some (t, ts)
pick (suc n) (t ∷ ts) = elim (pick n ts) [ none ↦ none | some r ↦ some (r.0, t ∷ r.1) ]

unfoldable pub admit : System → Session × Result ℕ → System
admit sys (s, thrown e) = record sys { session = s }
admit sys (s, value t) = record sys { session = s; waiting = t ∷ sys.waiting }

module _ (host : Host) where
  unfoldable pub await_picked : System → Wait → Option (ℕ × List ℕ) → M System
  unfolding await_result
  await_picked sys a none = pure sys
  await_picked sys a (some r) = do _ ← await_result host sys.session.handle r.0 a; pure sys

  unfoldable pub destroy_picked : System → Option (ℕ × List ℕ) → M System
  destroy_picked sys none = pure sys
  destroy_picked sys (some r) = do
    Client.ask_ticket_destroy host sys.session.handle (some r.0)
    pure (record sys { waiting = r.1; ending = suc sys.ending })

  unfoldable pub end_one : System → ℕ → M System
  end_one sys zero = pure sys
  end_one sys (suc n) = do
    s ← end_borrow host sys.session
    pure (record sys { session = s; ending = n })

  unfoldable pub run_phase : System → Runner → M System
  run_phase sys reading = do
    r ← read_request host sys.session
    pure (record sys { session = r.0; runner = r.1 })
  run_phase sys (dispatching f) = do
    release_frame host sys.session (some f)
    pure (record sys { runner = reading })
  run_phase sys leaving = do
    Client.reader_destroy host sys.session.handle (some sys.session.reader)
    pure (record sys { runner = joining })
  run_phase sys joining = do
    s ← retire_reader host sys.session
    pure (record sys { session = s; runner = done })
  run_phase sys done = pure sys

  unfoldable pub act : Action → System → M System
  unfolding admit pick await_picked destroy_picked end_one run_phase
  act (begin_ask spec) sys = do r ← begin_request host spec sys.session; pure (admit sys r)
  act (await_ticket n a) sys = await_picked sys a (pick n sys.waiting)
  act (destroy_ticket n) sys = destroy_picked sys (pick n sys.waiting)
  act end_ask sys = end_one sys sys.ending
  act (name_deadletter reason) sys = do
    _ ← Inspect.deadletter_reason_name host sys.session.handle reason
    pure sys
  act run_reader sys = run_phase sys sys.runner
  act (submit_reply reply) sys = do _ ← submit host reply sys.session; pure sys
  act (call_close on_queue busy) sys =
      pure (record sys { session = (close_request on_queue busy sys.session).0 })
  act join_close sys =
      if sys.session.reader_retired
      then (do r ← close_locked host sys.session; pure (record sys { session = r.0 }))
      else pure sys
  act drop_host sys = pure (record sys { session = request_retirement sys.session })

  unfoldable pub run : List Action → System → M System
  unfolding act
  run [] sys = pure sys
  run (a ∷ rest) sys = do sys' ← act a sys; run rest sys'
