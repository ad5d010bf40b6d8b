-- ===== src/Bridge/Inspect.antt =====
-- The queries and the startup options of the transport (coakka_runtime_bridge.c).
pub mod Ops
pub mod Refines
pub mod Bounded
pub mod Forwarded
pub mod Prepared
pub mod Copies
use coakka_runtime_swift.Prelude.{
  ℕ, zero, Bool, true, false, ◌||◌, ◌&&◌, String, Option, none, some, List, ℤ, pos, is_null, ◌==◌,
  ◌≡◌, refl, arith, not, take, if◌then◌else◌,
}
use coakka_runtime_swift.Status.{Status, ok, invalid_arg, err_symbol}
use coakka_runtime_swift.Abi.Layout.{size}
use coakka_runtime_swift.Abi.Runtime.{
  runtime_health, runtime_stats, runtime_capability_snapshot, runtime_info, runtime_config_view,
  swift_runtime_info, swift_runtime_config_view,
}
use coakka_runtime_swift.Abi.Transport.{tcp_connection_config_snapshot, tcp_security_info}
use coakka_runtime_swift.Core.Records.{
  Ptr, Output, cleared, RuntimeInfo, SwiftRuntimeInfo, ConfigView, SwiftConfigView,
}
use coakka_runtime_swift.Core.Slot.{Slot}
use coakka_runtime_swift.Core.Call.{Call, Reply, stored}
use coakka_runtime_swift.Machine.Heap.{Host}
use coakka_runtime_swift.Machine.Effects.{M, pure, ◌>>=◌, ◌>>◌, fault, invoke, load}
use coakka_runtime_swift.Loader.Library.{is_ok}
use coakka_runtime_swift.Bridge.Access.{
  call_slot, lookup, clear, clear_if, deref, CText, static_text, native_text,
}

-- native_runtime_info_t native = {0}; native.struct_size = sizeof(native);
unfoldable pub info_request : RuntimeInfo
info_request = record {
  struct_size = size runtime_info;
  abi_version = 0;
  feature_flags = 0;
  runtime_version = none;
  git_commit = none;
  southbound_backend = none;
  allocator_backend = none;
  docs_hint = none;
  remote_wire_profile = none;
  remote_wire_profile_version = 0;
  edition = 0;
  build_id = none;
}

-- The members that coakka_swift_runtime_get_info copies.
unfoldable pub swift_info : RuntimeInfo → SwiftRuntimeInfo
swift_info native = record {
  struct_size = size swift_runtime_info;
  abi_version = native.abi_version;
  feature_flags = native.feature_flags;
  runtime_version = native.runtime_version;
  git_commit = native.git_commit;
  backend = native.southbound_backend;
}

-- native_runtime_config_view_t native = {0}; native.struct_size = sizeof(native);
unfoldable pub config_request : ConfigView
config_request = record {
  struct_size = size runtime_config_view;
  system_name = none;
  node_id = none;
  strict_no_drop = pos 0;
  queue_capacity = pos 0;
  request_max_frame_size = 0;
  local_dispatch_batch_limit = 0;
  runtime_state = pos 0;
  snapshot_present = 0;
  applied_generation = 0;
  route_count = 0;
  southbound_bind_host = none;
  southbound_bind_port = 0;
  configured_ingress_overload_mode = 0;
  configured_local_delivery_overload_mode = 0;
  configured_remote_outbound_overload_mode = 0;
  configured_remote_outbound_reply_reserve_slots = 0;
  effective_ingress_overload_mode = 0;
  effective_local_delivery_overload_mode = 0;
  effective_remote_outbound_overload_mode = 0;
  effective_remote_outbound_reply_reserve_slots = 0;
}

-- The members that coakka_swift_runtime_get_config copies.
unfoldable pub swift_config : ConfigView → SwiftConfigView
swift_config native = record {
  struct_size = size swift_runtime_config_view;
  system_name = native.system_name;
  node_id = native.node_id;
  strict_no_drop = native.strict_no_drop;
  queue_capacity = native.queue_capacity;
  runtime_state = native.runtime_state;
  snapshot_present = native.snapshot_present;
  applied_generation = native.applied_generation;
  route_count = native.route_count;
}

module _ (host : Host) (library : Ptr) where
  unfoldable pub get_abi_version : M ℕ
  get_abi_version =
      if is_null library
      then pure 0
      else call_slot host library Slot.get_abi_version (Call.get_abi_version)

  unfoldable pub get_info : Option SwiftRuntimeInfo → M (Status × Option SwiftRuntimeInfo)
  unfolding info_request
  get_info out = if is_null library || is_null out then pure (invalid_arg, out) else do
    r ← call_slot host library Slot.get_info (Call.get_info info_request)
    pure (if is_ok r.0 then (ok, some (swift_info r.1)) else (r.0, out))

  unfoldable pub get_config : Ptr → Option SwiftConfigView → M (Status × Option SwiftConfigView)
  unfolding config_request
  get_config runtime out =
      if is_null library || is_null runtime || is_null out then pure (invalid_arg, out) else do
        r ← call_slot host library Slot.get_config (Call.get_config runtime config_request)
        pure (if is_ok r.0 then (ok, some (swift_config r.1)) else (r.0, out))

  unfoldable pub get_health : Ptr → Option Output → M (Status × Option Output)
  unfolding clear
  get_health runtime out =
      if is_null library || is_null runtime || is_null out then pure (invalid_arg, out) else do
        cleared_out ← clear runtime_health out
        r ← call_slot host library Slot.get_health (Call.get_health runtime cleared_out)
        pure (r.0, some r.1)

  unfoldable pub get_stats : Ptr → Option Output → M (Status × Option Output)
  unfolding clear
  get_stats runtime out =
      if is_null library || is_null runtime || is_null out then pure (invalid_arg, out) else do
        cleared_out ← clear runtime_stats out
        r ← call_slot host library Slot.get_stats (Call.get_stats runtime cleared_out)
        pure (r.0, some r.1)

  unfoldable pub get_capabilities : Option Output → M (Status × Option Output)
  unfolding clear
  get_capabilities out = if is_null library || is_null out then pure (invalid_arg, out) else do
    cleared_out ← clear runtime_capability_snapshot out
    r ← call_slot host library Slot.get_capabilities (Call.get_capabilities cleared_out)
    pure (r.0, some r.1)

  unfoldable pub apply_tcp_connection_options :
      Ptr → Ptr → Option Output → M (Status × Option Output)
  unfolding deref
  apply_tcp_connection_options runtime options out =
      if is_null library || is_null runtime || is_null options || is_null out
      then pure (invalid_arg, out)
      else do
        result ← deref out
        r ←
            call_slot host library Slot.apply_tcp_connection_options
              (Call.apply_tcp_connection_options runtime options result)
        pure (r.0, some r.1)

  unfoldable pub get_tcp_connection_config : Ptr → Option Output → M (Status × Option Output)
  unfolding clear
  get_tcp_connection_config runtime out =
      if is_null library || is_null runtime || is_null out then pure (invalid_arg, out) else do
        cleared_out ← clear tcp_connection_config_snapshot out
        r ←
            call_slot host library Slot.get_tcp_connection_config
              (Call.get_tcp_connection_config runtime cleared_out)
        pure (r.0, some r.1)

  unfoldable pub apply_tcp_security_options : Ptr → Ptr → Option Output → M (Status × Option Output)
  unfolding deref
  apply_tcp_security_options runtime options out =
      if is_null library || is_null runtime || is_null options || is_null out
      then pure (invalid_arg, out)
      else do
        result ← deref out
        r ←
            call_slot host library Slot.apply_tcp_security_options
              (Call.apply_tcp_security_options runtime options result)
        pure (r.0, some r.1)

  unfoldable pub get_tcp_security_info : Ptr → Option Output → M (Status × Option Output)
  unfolding clear
  get_tcp_security_info runtime out =
      if is_null library || is_null runtime || is_null out then pure (invalid_arg, out) else do
        cleared_out ← clear tcp_security_info out
        r ←
            call_slot host library Slot.get_tcp_security_info
              (Call.get_tcp_security_info runtime cleared_out)
        pure (r.0, some r.1)

  unfoldable pub get_startup_config : Ptr → Option Output → M (Status × Option Output)
  get_startup_config runtime out = if is_null library then pure (invalid_arg, out) else do
    r ← call_slot host library Slot.get_startup (Call.get_startup runtime out)
    pure (r.0, stored out r.1)

  unfoldable pub get_delivery_config : Ptr → Option Output → M (Status × Option Output)
  get_delivery_config runtime out = if is_null library then pure (invalid_arg, out) else do
    r ← call_slot host library Slot.get_delivery (Call.get_delivery runtime out)
    pure (r.0, stored out r.1)

  unfoldable pub transport_apply_reason_name : ℕ → M CText
  transport_apply_reason_name reason = if is_null library then pure (static_text "UNKNOWN") else do
    r ← call_slot host library Slot.transport_apply_reason_name (Call.core_reason_name reason)
    pure (native_text r)

  unfoldable pub deadletter_reason_name : ℕ → M Ptr
  deadletter_reason_name reason =
      if is_null library
      then pure none
      else call_slot host library Slot.deadletter_reason_name (Call.core_reason_name reason)
