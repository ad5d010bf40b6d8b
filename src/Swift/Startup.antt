-- ===== src/Swift/Startup.antt =====
-- RuntimeHost.start (RuntimeHost.swift) with createNative, applyNetwork and applyRoutes
-- (RuntimeStartup.swift) and the native part of applySecurity (RuntimeTransport.swift): a runtime
-- is created, configured and started, and its client and reader are made; an error on the way gives
-- back what there is. The preparation of the records that are passed by pointer is not modelled.
pub mod Attempts
pub mod Outcomes
pub mod Configured
pub mod Undone
pub mod Balanced
use coakka_runtime_swift.Prelude.{
  ℕ, ◌+◌, ◌-◌, ◌*◌, ◌^◌, Bool, true, false, Option, none, some, List, [], ◌∷◌, ◌==◌, int_eq, ltb, ℤ,
  pos, negsuc, String, take, drop, if◌then◌else◌,
}
use coakka_runtime_swift.Status.{Status}
use coakka_runtime_swift.Abi.Layout.{CType, members, place, offset_of}
use coakka_runtime_swift.Abi.Transport.{tcp_security_apply_result}
use coakka_runtime_swift.Core.Records.{Ptr, Output, HostHandles, cleared}
use coakka_runtime_swift.Machine.Heap.{Host}
use coakka_runtime_swift.Machine.Effects.{M, pure, ◌>>=◌, ◌>>◌}
use coakka_runtime_swift.Loader.Library.{is_ok}
use coakka_runtime_swift.Bridge.Lifecycle
use coakka_runtime_swift.Bridge.Inspect
use coakka_runtime_swift.Bridge.Client
use coakka_runtime_swift.Swift.Errors.{
  RuntimeError, native_status, unsupported_abi, contract_violation, native_creation_refused,
  tcp_security_apply, Result, value, thrown,
}
use coakka_runtime_swift.Swift.Session.{Session, new_session, out_at, handles_at}

-- What ConnectorStartSpec becomes at the bridge; `handles_address` is where the local variable
-- `handles` stands.
pub record StartSpec : Type 0 where
  pub system_name : Ptr
  pub node_id : Ptr
  pub strict_no_drop : Bool
  pub queue_capacity : ℤ
  pub options : Ptr
  pub network_mode : ℕ
  pub bind_host : Ptr
  pub bind_port : ℕ
  pub advertise_host : Ptr
  pub advertise_port : ℕ
  pub security : Option ℕ
  pub generation : ℕ
  pub routes : Ptr
  pub route_count : ℕ
  pub handles_address : ℕ

abbrev pub expected_abi : ℕ
expected_abi = 1

-- coakka_swift_host_handles_t()
abbrev pub zero_handles : HostHandles
zero_handles = record {
  struct_size = 0;
  flags = 0;
  request_write_fd = pos 0;
  response_read_fd = pos 0;
  deadletter_read_fd = pos 0;
  control_write_fd = pos 0;
  monitor_read_fd = pos 0;
  delivered_request_read_fd = pos 0;
}

abbrev pub number_of : List ℕ → ℕ
number_of [] = 0
number_of (b ∷ bs) = b + 256 * number_of bs

-- A member of type uint32_t of an output record, whose bytes from the eighth on are its body; all
-- platforms of the package are little-endian.
unfoldable pub uint32_member : CType → String → Output → ℕ
unfolding offset_of place
uint32_member t name out = elim (offset_of name (place 0 (members t))) [
  | none ↦ 0
  | some offset ↦ number_of (take 4 (drop (offset - 8) out.body))
]

-- A member of type int32_t.
unfoldable pub int32_member : CType → String → Output → ℤ
unfolding uint32_member
int32_member t name out =
    let n = uint32_member t name out in if ltb n (2 ^ 31) then pos n else negsuc (2 ^ 32 - n - 1)

-- The variables of start that its catch block reads, past the runtime itself.
pub record Acquired : Type 0 where
  pub handles : Option HostHandles
  pub started : Bool
  pub client : Ptr
  pub reader : Ptr

abbrev pub nothing_acquired : Acquired
nothing_acquired = record { handles = none; started = false; client = none; reader = none }

-- `guard let reader` and the session
unfoldable pub finish_reader :
    Ptr → ℕ → ℕ → HostHandles → Acquired → Status → Ptr → Acquired × Result Session
finish_reader handle rt client handles acquired status none = (
  acquired,
  if is_ok status
      then thrown (contract_violation "Core returned success without a reader")
      else thrown (native_status status "create request reader"),
)
finish_reader handle rt client handles acquired status (some reader) = (
  record acquired { reader = some reader },
  if is_ok status
      then value (new_session handle rt client handles reader)
      else thrown (native_status status "create request reader"),
)

module _ (host : Host) (handle : Ptr) (spec : StartSpec) (rt : ℕ) where
  unfoldable pub with_client : HostHandles → Acquired → Ptr → M (Acquired × Result Session)
  unfolding finish_reader
  with_client handles acquired none = pure (
    acquired,
    thrown (native_creation_refused "Core refused ask-client construction without a causal status"),
  )
  with_client handles acquired (some client) = do
    r ← Client.reader_create host handle (some rt) (some spec.handles_address) (some none)
    pure (
        finish_reader handle rt client handles (record acquired { client = some client }) r.0
          (out_at r.1))

  unfoldable pub after_start : HostHandles → Acquired → Status → M (Acquired × Result Session)
  unfolding with_client
  after_start handles acquired status =
      if is_ok status
      then (do
        client ← Client.ask_client_create host handle (some rt) (some spec.handles_address)
        with_client handles (record acquired { started = true }) client)
      else pure (acquired, thrown (native_status status "start runtime"))

  unfoldable pub after_handles : Status → Option HostHandles → M (Acquired × Result Session)
  unfolding after_start
  after_handles status out =
      let handles = handles_at zero_handles out in
      if is_ok status
      then (do
        started ← Lifecycle.start host handle (some rt)
        after_start handles (record nothing_acquired { handles = some handles }) started)
      else pure (nothing_acquired, thrown (native_status status "get host handles"))

  unfoldable pub after_routes : Status → M (Acquired × Result Session)
  unfolding after_handles
  after_routes status =
      if is_ok status
      then (do
        r ← Lifecycle.get_host_handles host handle (some rt) 0 (some zero_handles)
        after_handles r.0 r.1)
      else pure (nothing_acquired, thrown (native_status status "apply route snapshot"))

  unfoldable pub apply_routes : M (Acquired × Result Session)
  unfolding after_routes
  apply_routes = do
    status ←
        Lifecycle.apply_snapshot host handle (some rt) spec.generation spec.routes spec.route_count
    after_routes status

  -- `guard result.applied`
  unfoldable pub after_result : ℤ → M (Acquired × Result Session)
  after_result applied =
      if is_ok applied then apply_routes else pure (nothing_acquired, thrown tcp_security_apply)

  -- The end of applySecurity, with securityResult, which asks for the name of the reason; the number
  -- in the message is left out.
  unfoldable pub after_security : Status → Output → M (Acquired × Result Session)
  unfolding int32_member uint32_member after_result
  after_security status out =
      let applied = int32_member tcp_security_apply_result "apply_status" out in
      if int_eq status applied
      then (do
        _ ←
            Inspect.transport_apply_reason_name host handle
              (uint32_member tcp_security_apply_result "reason" out)
        after_result applied)
      else pure (nothing_acquired, thrown (native_status status "security apply status mismatch"))

  -- *out_result
  abbrev pub output_at : Option Output → Output
  output_at none = cleared tcp_security_apply_result
  output_at (some o) = o

  unfoldable pub apply_security : Option ℕ → M (Acquired × Result Session)
  unfolding after_security
  apply_security none = apply_routes
  apply_security (some options) = do
    r ←
        Inspect.apply_tcp_security_options host handle (some rt) (some options)
          (some (cleared tcp_security_apply_result))
    after_security r.0 (output_at r.1)

  -- The do block of start.
  unfoldable pub attempt : M (Acquired × Result Session)
  unfolding apply_security
  attempt = do
    status ←
        Lifecycle.apply_network host handle (some rt) spec.network_mode spec.bind_host
          spec.bind_port spec.advertise_host spec.advertise_port
    if is_ok status
        then apply_security spec.security
        else pure (nothing_acquired, thrown (native_status status "apply runtime network policy"))

  unfoldable pub release_reader : Ptr → M (Unit {0})
  release_reader none = pure tt
  release_reader (some q) = Client.reader_destroy host handle (some q)

  unfoldable pub release_handles : Option HostHandles → M (Unit {0})
  release_handles none = pure tt
  release_handles (some h) = do _ ← Lifecycle.host_handles_close host handle (some h); pure tt

  unfoldable pub release_client : Ptr → M (Unit {0})
  release_client none = pure tt
  release_client (some c) = Client.ask_client_destroy host handle (some c)

  unfoldable pub stop_started : Bool → M (Unit {0})
  stop_started false = pure tt
  stop_started true = do _ ← Lifecycle.stop host handle (some rt); pure tt

  -- The catch block of start; library.close only forgets the handle of the NativeRuntimeLibrary.
  unfoldable pub undo : Acquired → M (Unit {0})
  unfolding release_reader stop_started release_client release_handles
  undo acquired = do
    release_reader acquired.reader
    stop_started acquired.started
    release_client acquired.client
    release_handles acquired.handles
    Lifecycle.destroy host handle (some rt)

  unfoldable pub finish : Acquired × Result Session → M (Result Session)
  unfolding undo
  finish (acquired, value s) = pure (value s)
  finish (acquired, thrown e) = do undo acquired; pure (thrown e)

module _ (host : Host) (handle : Ptr) (spec : StartSpec) where
  -- `guard let runtime` of createNative, and the rest of start
  unfoldable pub with_runtime : Ptr → M (Result Session)
  unfolding attempt finish
  with_runtime none = pure (thrown (contract_violation "Core returned success without a runtime"))
  with_runtime (some rt) = attempt host handle spec rt >>= finish host handle spec rt

  unfoldable pub create : M (Result Session)
  unfolding with_runtime
  create = do
    r ←
        Lifecycle.create_native host handle spec.system_name spec.node_id
          (if spec.strict_no_drop then pos 1 else pos 0) spec.queue_capacity spec.options
          (some none)
    if is_ok r.0
        then with_runtime (out_at r.1)
        else pure (thrown (native_status r.0 "create native runtime"))

  -- start, from the guard on the ABI on, for a handle of an open library.
  unfoldable pub start : M (Result Session)
  unfolding create
  start = do
    abi ← Inspect.get_abi_version host handle
    if abi == expected_abi then create else pure (thrown (unsupported_abi abi))
