-- ===== src/Abi/Runtime.antt =====
-- runtime.h, runtime_distribution.h, runtime_monitor.h and the two records that the bridge declares
-- itself.
use coakka_runtime_swift.Abi.Layout.{
  CType, int16, int32, int64, pointer, size_t, struct, end, ◌∶◌, ◌⨾◌,
}

unfoldable pub runtime_config : CType
runtime_config = struct (
    "system_name" ∶ pointer
    ⨾ "node_id" ∶ pointer
    ⨾ "strict_no_drop" ∶ int32
    ⨾ "queue_capacity" ∶ int32
    ⨾ end)

unfoldable pub overload_policy : CType
overload_policy = struct (
    "struct_size" ∶ size_t
    ⨾ "remote_outbound_reply_reserve_slots" ∶ size_t
    ⨾ "ingress_mode" ∶ int32
    ⨾ "local_delivery_mode" ∶ int32
    ⨾ "remote_outbound_mode" ∶ int32
    ⨾ end)

unfoldable pub runtime_stats : CType
runtime_stats = struct (
    "struct_size" ∶ size_t
    ⨾ "applied_generation" ∶ int64
    ⨾ "route_count" ∶ size_t
    ⨾ "runtime_state" ∶ int32
    ⨾ "ingress_queue_capacity" ∶ size_t
    ⨾ "ingress_queue_depth" ∶ size_t
    ⨾ "ingress_queue_high_watermark" ∶ size_t
    ⨾ "queue_rejected_count" ∶ int64
    ⨾ "route_miss_count" ∶ int64
    ⨾ "deadletter_count" ∶ int64
    ⨾ "delivery_failed_count" ∶ int64
    ⨾ "remote_transport_failed_count" ∶ int64
    ⨾ "southbound_submit_attempt_count" ∶ int64
    ⨾ "southbound_probe_connect_success_count" ∶ int64
    ⨾ "southbound_probe_connect_failure_count" ∶ int64
    ⨾ "request_max_frame_size" ∶ size_t
    ⨾ "local_dispatch_batch_limit" ∶ size_t
    ⨾ "delivered_request_outbound_queue_capacity" ∶ size_t
    ⨾ "delivered_request_outbound_queue_depth" ∶ size_t
    ⨾ "delivered_request_outbound_queue_high_watermark" ∶ size_t
    ⨾ "delivered_request_outbound_enqueue_block_count" ∶ int64
    ⨾ "response_outbound_queue_capacity" ∶ size_t
    ⨾ "response_outbound_queue_depth" ∶ size_t
    ⨾ "response_outbound_queue_high_watermark" ∶ size_t
    ⨾ "response_outbound_enqueue_block_count" ∶ int64
    ⨾ "deadletter_outbound_queue_capacity" ∶ size_t
    ⨾ "deadletter_outbound_queue_depth" ∶ size_t
    ⨾ "deadletter_outbound_queue_high_watermark" ∶ size_t
    ⨾ "deadletter_outbound_enqueue_block_count" ∶ int64
    ⨾ "remote_reply_timeout_count" ∶ int64
    ⨾ "late_remote_reply_drop_count" ∶ int64
    ⨾ "remote_outbound_queue_capacity" ∶ size_t
    ⨾ "remote_outbound_queue_depth" ∶ size_t
    ⨾ "remote_outbound_queue_high_watermark" ∶ size_t
    ⨾ "remote_outbound_queue_rejected_count" ∶ int64
    ⨾ "remote_outbound_expired_drop_count" ∶ int64
    ⨾ "endpoint_unavailable_count" ∶ int64
    ⨾ "remote_response_forwarded_count" ∶ int64
    ⨾ "remote_deadletter_forwarded_count" ∶ int64
    ⨾ "drained_route_count" ∶ size_t
    ⨾ "control_rejected_count" ∶ int64
    ⨾ "control_invalid_count" ∶ int64
    ⨾ "control_stale_generation_count" ∶ int64
    ⨾ "control_bad_state_count" ∶ int64
    ⨾ "control_io_count" ∶ int64
    ⨾ "remote_outbound_reply_reserve_slots" ∶ size_t
    ⨾ "remote_outbound_reply_reservation_reject_count" ∶ int64
    ⨾ "ingress_overload_mode" ∶ int32
    ⨾ "local_delivery_overload_mode" ∶ int32
    ⨾ "remote_outbound_overload_mode" ∶ int32
    ⨾ "monitor_event_emitted_count" ∶ int64
    ⨾ "monitor_event_dropped_count" ∶ int64
    ⨾ "monitor_event_emitted_lifetime_count" ∶ int64
    ⨾ "monitor_event_dropped_lifetime_count" ∶ int64
    ⨾ "local_work_queue_capacity" ∶ size_t
    ⨾ "local_work_queue_depth" ∶ size_t
    ⨾ "local_work_queue_high_watermark" ∶ size_t
    ⨾ "delivered_request_outbound_direct_write_count" ∶ int64
    ⨾ "response_outbound_direct_write_count" ∶ int64
    ⨾ "deadletter_outbound_direct_write_count" ∶ int64
    ⨾ "remote_outbound_one_way_drop_count" ∶ int64
    ⨾ "remote_failover_attempt_count" ∶ int64
    ⨾ "remote_failover_success_count" ∶ int64
    ⨾ "remote_failover_exhausted_count" ∶ int64
    ⨾ end)

unfoldable pub host_handles : CType
host_handles = struct (
    "struct_size" ∶ size_t
    ⨾ "flags" ∶ int32
    ⨾ "request_write_fd" ∶ int32
    ⨾ "response_read_fd" ∶ int32
    ⨾ "deadletter_read_fd" ∶ int32
    ⨾ "control_write_fd" ∶ int32
    ⨾ "monitor_read_fd" ∶ int32
    ⨾ "delivered_request_read_fd" ∶ int32
    ⨾ end)

unfoldable pub monitor_event : CType
monitor_event = struct (
    "struct_size" ∶ size_t
    ⨾ "kind" ∶ int32
    ⨾ "flags" ∶ int32
    ⨾ "monotonic_time_ns" ∶ int64
    ⨾ "generation" ∶ int64
    ⨾ "code" ∶ int64
    ⨾ "value" ∶ int64
    ⨾ end)

unfoldable pub runtime_health : CType
runtime_health = struct (
    "struct_size" ∶ size_t
    ⨾ "runtime_state" ∶ int32
    ⨾ "flags" ∶ int32
    ⨾ "applied_generation" ∶ int64
    ⨾ end)

unfoldable pub runtime_info : CType
runtime_info = struct (
    "struct_size" ∶ size_t
    ⨾ "abi_version" ∶ int32
    ⨾ "feature_flags" ∶ int32
    ⨾ "runtime_version" ∶ pointer
    ⨾ "git_commit" ∶ pointer
    ⨾ "southbound_backend" ∶ pointer
    ⨾ "allocator_backend" ∶ pointer
    ⨾ "docs_hint" ∶ pointer
    ⨾ "remote_wire_profile" ∶ pointer
    ⨾ "remote_wire_profile_version" ∶ int32
    ⨾ "edition" ∶ int32
    ⨾ "build_id" ∶ pointer
    ⨾ end)

unfoldable pub runtime_config_view : CType
runtime_config_view = struct (
    "struct_size" ∶ size_t
    ⨾ "system_name" ∶ pointer
    ⨾ "node_id" ∶ pointer
    ⨾ "strict_no_drop" ∶ int32
    ⨾ "queue_capacity" ∶ int32
    ⨾ "request_max_frame_size" ∶ size_t
    ⨾ "local_dispatch_batch_limit" ∶ size_t
    ⨾ "runtime_state" ∶ int32
    ⨾ "snapshot_present" ∶ int32
    ⨾ "applied_generation" ∶ int64
    ⨾ "route_count" ∶ size_t
    ⨾ "southbound_bind_host" ∶ pointer
    ⨾ "southbound_bind_port" ∶ int16
    ⨾ "configured_ingress_overload_mode" ∶ int32
    ⨾ "configured_local_delivery_overload_mode" ∶ int32
    ⨾ "configured_remote_outbound_overload_mode" ∶ int32
    ⨾ "configured_remote_outbound_reply_reserve_slots" ∶ size_t
    ⨾ "effective_ingress_overload_mode" ∶ int32
    ⨾ "effective_local_delivery_overload_mode" ∶ int32
    ⨾ "effective_remote_outbound_overload_mode" ∶ int32
    ⨾ "effective_remote_outbound_reply_reserve_slots" ∶ size_t
    ⨾ end)

unfoldable pub swift_runtime_info : CType
swift_runtime_info = struct (
    "struct_size" ∶ size_t
    ⨾ "abi_version" ∶ int32
    ⨾ "feature_flags" ∶ int32
    ⨾ "runtime_version" ∶ pointer
    ⨾ "git_commit" ∶ pointer
    ⨾ "backend" ∶ pointer
    ⨾ end)

unfoldable pub swift_runtime_config_view : CType
swift_runtime_config_view = struct (
    "struct_size" ∶ size_t
    ⨾ "system_name" ∶ pointer
    ⨾ "node_id" ∶ pointer
    ⨾ "strict_no_drop" ∶ int32
    ⨾ "queue_capacity" ∶ int32
    ⨾ "runtime_state" ∶ int32
    ⨾ "snapshot_present" ∶ int32
    ⨾ "applied_generation" ∶ int64
    ⨾ "route_count" ∶ size_t
    ⨾ end)

unfoldable pub runtime_capability_snapshot : CType
runtime_capability_snapshot = struct (
    "struct_size" ∶ size_t
    ⨾ "edition" ∶ int32
    ⨾ "license_status" ∶ int32
    ⨾ "compiled_capabilities" ∶ int64
    ⨾ "entitled_capabilities" ∶ int64
    ⨾ "effective_capabilities" ∶ int64
    ⨾ "tcp_connection_defaults_revision" ∶ int32
    ⨾ "reserved" ∶ int32
    ⨾ end)
