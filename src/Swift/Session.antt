-- ===== src/Swift/Session.antt =====
-- RuntimeSession.swift: the owner of one runtime, its ask client, its host handles and its request
-- reader. Each function here is what the source does while it holds the session's lock, or, for
-- the request runner, one round of its loop.
pub mod Reader
pub mod Ask
pub mod Answers
pub mod Outcomes
pub mod System
pub mod Traffic
pub mod Rounds
pub mod Sound
pub mod Settled
pub mod Kept
pub mod Schedules
pub mod Retired
pub mod Drained
pub mod Remaining
pub mod Retires
pub mod Closing
pub mod Ends
use coakka_runtime_swift.Prelude.{
  ℕ, suc, ◌-◌, Bool, true, false, ◌&&◌, not, Option, none, some, ltb, ◌==◌, if◌then◌else◌, int_eq,
  is_null,
}
use coakka_runtime_swift.Status.{Status, would_block as status_would_block, closed as status_closed}
use coakka_runtime_swift.Core.Records.{Ptr, HostHandles}
use coakka_runtime_swift.Machine.Heap.{Host}
use coakka_runtime_swift.Machine.Effects.{M, pure, ◌>>=◌, ◌>>◌}
use coakka_runtime_swift.Loader.Library.{is_ok}
use coakka_runtime_swift.Bridge.Lifecycle
use coakka_runtime_swift.Bridge.Client
use coakka_runtime_swift.Swift.Errors.{
  RuntimeError, closed, resource_limit, contract_violation, native_status, shutdown, Result, value,
  thrown, throw_if_native_error,
}

-- The fields. retirementDone has been left exactly if `runtime` is none, and readerDone exactly if
-- `reader_retired`. `library_handle` is the handle of the NativeRuntimeLibrary, nil once it closed.
pub record Session : Type 0 where
  pub library_handle : Ptr
  pub handle : Ptr
  pub runtime : Ptr
  pub client : ℕ
  pub handles : HostHandles
  pub reader : ℕ
  pub closing : Bool
  pub reader_retired : Bool
  pub stopped : Bool
  pub active_asks : ℕ
  pub stop_failure : Option Status
  pub read_failure : Option RuntimeError
  -- failedStopOwner is the session itself
  pub keeps_itself : Bool

-- init(library:handle:runtime:client:handles:reader:)
unfoldable pub new_session : Ptr → ℕ → ℕ → HostHandles → ℕ → Session
new_session handle runtime client handles reader = record {
  library_handle = handle;
  handle = handle;
  runtime = some runtime;
  client = client;
  handles = handles;
  reader = reader;
  closing = false;
  reader_retired = false;
  stopped = false;
  active_asks = 0;
  stop_failure = none;
  read_failure = none;
  keeps_itself = false;
}

abbrev pub max_active_asks : ℕ
max_active_asks = 64

-- requireOpenLocked
unfoldable pub require_open : Session → Result ℕ
require_open s =
    if s.closing then thrown closed else elim s.runtime [ none ↦ thrown closed | some r ↦ value r ]

unfoldable pub request_retirement : Session → Session
request_retirement s = record s { closing = true }

-- What is left to do with the status of a stop.
unfoldable pub after_stop : Session → Status → Session
after_stop s status = record s {
  stop_failure = if is_ok status then none else some status;
  stopped = is_ok status;
  keeps_itself = not (is_ok status);
}

-- &handles after a call
unfoldable pub handles_at : HostHandles → Option HostHandles → HostHandles
handles_at old none = old
handles_at old (some h) = h

-- The last lines of retireLocked.
unfoldable pub after_retire : Session → Option HostHandles → Session
unfolding handles_at
after_retire s handles = record s {
  runtime = none;
  handles = handles_at s.handles handles;
  library_handle = none;
}

-- An output parameter that was given: *out_frame, *out_ticket.
abbrev pub out_at : Option Ptr → Ptr
out_at none = none
out_at (some p) = p

-- `guard let ticket` of begin, after a call that succeeded
-- &length after a call
abbrev pub number_at : Option ℕ → ℕ
number_at none = 0
number_at (some n) = n

unfoldable pub take_ticket : Session → Ptr → Session × Result ℕ
take_ticket s none = (s, thrown (contract_violation "Core returned success without an ask ticket"))
take_ticket s (some t) = (record s { active_asks = suc s.active_asks }, value t)

unfoldable pub accept_ticket : Session → Status → Ptr → Session × Result ℕ
unfolding take_ticket
accept_ticket s status out =
    if is_ok status then take_ticket s out else (s, thrown (native_status status "begin ask"))

-- close up to the wait for the runner, given that it was called on the request queue, or that
-- another close holds closeLock.
unfoldable pub close_request : Bool → Bool → Session → Session × Result (Unit {0})
unfolding request_retirement
close_request on_queue busy s =
    if on_queue
    then (s, thrown (shutdown "close from a request handler is not permitted"))
    else if busy
    then (s, thrown (shutdown "close already in progress"))
    else (request_retirement s, value tt)

-- The end of close, with the state that its last wait ends in.
unfoldable pub close_result : Option Status → Session → Result (Unit {0})
close_result (some failure) s =
    thrown (native_status failure "stop runtime; native owners retained")
close_result none s =
    if is_null s.runtime
    then value tt
    else thrown (shutdown "ask borrowers did not retire within 1000 ms; native owners retained")

module _ (host : Host) where
  -- `guard …, let runtime`: what is done with the runtime, if there is one.
  unfoldable pub stop_runtime : Session → Ptr → M Session
  unfolding after_stop
  stop_runtime s none = pure s
  stop_runtime s (some r) = do
    status ← Lifecycle.stop host s.handle (some r)
    pure (after_stop s status)

  unfoldable pub stop_locked : Session → M Session
  unfolding stop_runtime
  stop_locked s = if s.reader_retired && not s.stopped then stop_runtime s s.runtime else pure s

  unfoldable pub retire_runtime : Session → Ptr → M Session
  unfolding after_retire
  retire_runtime s none = pure s
  retire_runtime s (some r) = do
    Client.ask_client_destroy host s.handle (some s.client)
    handles ← Lifecycle.host_handles_close host s.handle (some s.handles)
    Lifecycle.destroy host s.handle (some r)
    pure (after_retire s handles)

  unfoldable pub retire_locked : Session → M Session
  unfolding retire_runtime
  retire_locked s =
      if s.reader_retired && s.stopped && (s.active_asks == 0)
      then retire_runtime s s.runtime
      else pure s

  -- begin, with what requireOpenLocked gives
  unfoldable pub begin_open : Ptr → ℕ → Session → Result ℕ → M (Session × Result ℕ)
  unfolding accept_ticket
  begin_open frame count s (thrown e) = pure (s, thrown e)
  begin_open frame count s (value _) =
      if ltb s.active_asks max_active_asks
      then (do
        r ← Client.ask_client_begin host s.handle (some s.client) frame count (some none)
        pure (accept_ticket s r.0 (out_at r.1)))
      else pure (s, thrown (resource_limit "64 active asks exhausted"))

  unfoldable pub begin : Ptr → ℕ → Session → M (Session × Result ℕ)
  unfolding begin_open require_open
  begin frame count s = begin_open frame count s (require_open s)

  -- beginAsk of RuntimeHostClient.swift, past coakka_swift_build_raw_request; the defer block gives
  -- the bytes back.
  unfoldable pub begin_built : Session → Status → Ptr → ℕ → M (Session × Result ℕ)
  unfolding begin
  begin_built s built wire length =
      if is_ok built
      then (do r ← begin wire length s; Client.client_bytes_release host s.handle wire; pure r)
      else (do
        Client.client_bytes_release host s.handle wire
        pure (s, thrown (native_status built "build request")))

  -- beginAsk, past its checks of the arguments and of nextID, which throw before any call; `spec` is
  -- the address of the local variable of that name. The request is built whether or not the session
  -- is open.
  unfoldable pub begin_request : ℕ → Session → M (Session × Result ℕ)
  unfolding begin_built
  begin_request spec s = do
    b ← Client.build_raw_request host s.handle (some spec) (some none) (some 0)
    begin_built s b.0 (out_at b.1) (number_at b.2)

  unfoldable pub end_borrow : Session → M Session
  unfolding retire_locked
  end_borrow s = retire_locked (record s { active_asks = s.active_asks - 1 })

  -- dispatchRequest of RuntimeHost.swift, past coakka_swift_build_raw_reply; the defer block gives
  -- the bytes back.
  unfoldable pub send_built : Session → ℕ → Status → Ptr → ℕ → M (Result (Unit {0}))
  unfolding throw_if_native_error
  send_built s r built wire length =
      if is_ok built
      then (do
        status ← Lifecycle.submit_envelope host s.handle (some r) wire length
        Client.client_bytes_release host s.handle wire
        pure (throw_if_native_error status "submit reply"))
      else (do
        Client.client_bytes_release host s.handle wire
        pure (thrown (native_status built "build reply")))

  -- withOpen, for the operation that builds and submits a reply; `reply` is the address of the
  -- local variable of that name.
  unfoldable pub submit_open : ℕ → Session → Result ℕ → M (Result (Unit {0}))
  unfolding send_built
  submit_open reply s (thrown e) = pure (thrown e)
  submit_open reply s (value r) = do
    b ← Client.build_raw_reply host s.handle (some reply) (some none) (some 0)
    send_built s r b.0 (out_at b.1) (number_at b.2)

  unfoldable pub submit : ℕ → Session → M (Result (Unit {0}))
  unfolding submit_open require_open
  submit reply s = submit_open reply s (require_open s)

  -- defer { if let frame { coakka_swift_owned_frame_release(handle, frame) } }
  unfoldable pub release_frame : Session → Ptr → M (Unit {0})
  release_frame s none = pure tt
  release_frame s (some f) = Client.owned_frame_release host s.handle (some f)

  -- The part of the runner's defer block that holds the lock.
  unfoldable pub retire_reader : Session → M Session
  unfolding stop_locked retire_locked
  retire_reader s =
      stop_locked (record s { reader_retired = true; closing = true }) >>= retire_locked

  -- The part of close that holds the lock, after the runner has joined: the state and the failure
  -- that it read.
  unfoldable pub close_locked : Session → M (Session × Option Status)
  unfolding stop_locked retire_locked
  close_locked s =
      if s.stopped
      then pure (s, s.stop_failure)
      else do s' ← stop_locked s >>= retire_locked; pure (s', s'.stop_failure)
