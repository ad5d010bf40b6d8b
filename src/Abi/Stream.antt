-- ===== src/Abi/Stream.antt =====
-- stream_lane.h: the records of the stream lane.
use coakka_runtime_swift.Abi.Layout.{
  CType, int8, int16, int32, int64, pointer, array, size_t, struct, end, ◌∶◌, ◌⨾◌,
}
use coakka_runtime_swift.Abi.Lanes.{lane_owner_config, lane_owner_endpoint}

unfoldable pub stream_frame : CType
stream_frame = struct (
    "struct_size" ∶ size_t
    ⨾ "sequence" ∶ int64
    ⨾ "captured_mono_ns" ∶ int64
    ⨾ "dropped_before" ∶ int64
    ⨾ "flags" ∶ int32
    ⨾ "size" ∶ size_t
    ⨾ end)

unfoldable pub stream_lane_security_config : CType
stream_lane_security_config = struct (
    "struct_size" ∶ size_t
    ⨾ "mode" ∶ int32
    ⨾ "reserved" ∶ int32
    ⨾ "credential_generation" ∶ int64
    ⨾ "credential_id" ∶ pointer
    ⨾ "ca_certificate_file" ∶ pointer
    ⨾ "identity_certificate_file" ∶ pointer
    ⨾ "private_key_file" ∶ pointer
    ⨾ end)

unfoldable pub stream_lane_config : CType
stream_lane_config = struct (
    "struct_size" ∶ size_t
    ⨾ "flags" ∶ int32
    ⨾ "bind_host" ∶ pointer
    ⨾ "bind_port" ∶ int16
    ⨾ "capacity" ∶ size_t
    ⨾ "max_frame_bytes" ∶ int32
    ⨾ "max_window_bytes" ∶ int32
    ⨾ "io_timeout_ms" ∶ int32
    ⨾ "source_retry_ms" ∶ int32
    ⨾ "progress_frames" ∶ int32
    ⨾ "progress_interval_ms" ∶ int32
    ⨾ "publisher_worker_count" ∶ int32
    ⨾ "subscriber_worker_count" ∶ int32
    ⨾ "security" ∶ pointer
    ⨾ "pressure_after_ms" ∶ int32
    ⨾ "stalled_after_ms" ∶ int32
    ⨾ "recovery_after_ms" ∶ int32
    ⨾ "pressure_observation_ms" ∶ int32
    ⨾ end)

unfoldable pub stream_lane_owned_config : CType
unfolding lane_owner_config stream_lane_config
stream_lane_owned_config =
    struct
      ("struct_size" ∶ size_t ⨾ "lane" ∶ stream_lane_config ⨾ "owner" ∶ lane_owner_config ⨾ end)

unfoldable pub stream_publish_spec : CType
stream_publish_spec = struct (
    "struct_size" ∶ size_t
    ⨾ "session_id" ∶ pointer
    ⨾ "authorization_token" ∶ pointer
    ⨾ "format_id" ∶ int64
    ⨾ "max_frame_bytes" ∶ int32
    ⨾ "source_next" ∶ pointer
    ⨾ "source_context" ∶ pointer
    ⨾ end)

unfoldable pub stream_subscribe_spec : CType
stream_subscribe_spec = struct (
    "struct_size" ∶ size_t
    ⨾ "session_id" ∶ pointer
    ⨾ "authorization_token" ∶ pointer
    ⨾ "remote_host" ∶ pointer
    ⨾ "remote_port" ∶ int16
    ⨾ "format_id" ∶ int64
    ⨾ "max_frame_bytes" ∶ int32
    ⨾ "initial_window_bytes" ∶ int32
    ⨾ "timeout_ms" ∶ int32
    ⨾ "consume" ∶ pointer
    ⨾ "consumer_context" ∶ pointer
    ⨾ end)

unfoldable pub stream_publish_grant : CType
unfolding lane_owner_endpoint
stream_publish_grant = struct (
    "struct_size" ∶ size_t
    ⨾ "owner" ∶ lane_owner_endpoint
    ⨾ "session_id" ∶ array int8 65
    ⨾ "authorization_token" ∶ array int8 129
    ⨾ "format_id" ∶ int64
    ⨾ "max_frame_bytes" ∶ int32
    ⨾ "reserved" ∶ int32
    ⨾ end)

unfoldable pub stream_session_snapshot : CType
stream_session_snapshot = struct (
    "struct_size" ∶ size_t
    ⨾ "direction" ∶ int32
    ⨾ "state" ∶ int32
    ⨾ "result" ∶ int32
    ⨾ "format_id" ∶ int64
    ⨾ "frames" ∶ int64
    ⨾ "bytes" ∶ int64
    ⨾ "dropped_frames" ∶ int64
    ⨾ "last_sequence" ∶ int64
    ⨾ "negotiated_max_frame_bytes" ∶ int32
    ⨾ "window_bytes" ∶ int32
    ⨾ "cancel_requested" ∶ int32
    ⨾ "update_sequence" ∶ int64
    ⨾ "submitted_mono_ns" ∶ int64
    ⨾ "started_mono_ns" ∶ int64
    ⨾ "updated_mono_ns" ∶ int64
    ⨾ "terminal_mono_ns" ∶ int64
    ⨾ "detail" ∶ array int8 160
    ⨾ end)

unfoldable pub stream_lane_stats : CType
stream_lane_stats = struct (
    "struct_size" ∶ size_t
    ⨾ "capacity" ∶ size_t
    ⨾ "queued_subscribers" ∶ size_t
    ⨾ "prepared_publishers" ∶ size_t
    ⨾ "active_publishers" ∶ size_t
    ⨾ "active_subscribers" ∶ size_t
    ⨾ "retained_records" ∶ size_t
    ⨾ "submitted_subscribers" ∶ int64
    ⨾ "prepared_publisher_count" ∶ int64
    ⨾ "ended_publishers" ∶ int64
    ⨾ "ended_subscribers" ∶ int64
    ⨾ "failed_publishers" ∶ int64
    ⨾ "failed_subscribers" ∶ int64
    ⨾ "canceled_sessions" ∶ int64
    ⨾ "published_frames" ∶ int64
    ⨾ "published_bytes" ∶ int64
    ⨾ "consumed_frames" ∶ int64
    ⨾ "consumed_bytes" ∶ int64
    ⨾ "source_reported_drops" ∶ int64
    ⨾ end)

unfoldable pub stream_pressure_snapshot : CType
stream_pressure_snapshot = struct (
    "struct_size" ∶ size_t
    ⨾ "direction" ∶ int32
    ⨾ "state" ∶ int32
    ⨾ "reason_bits" ∶ int32
    ⨾ "available_credit_bytes" ∶ int32
    ⨾ "window_capacity_bytes" ∶ int32
    ⨾ "update_sequence" ∶ int64
    ⨾ "transition_count" ∶ int64
    ⨾ "observed_mono_ns" ∶ int64
    ⨾ "state_started_mono_ns" ∶ int64
    ⨾ "pressure_started_mono_ns" ∶ int64
    ⨾ "last_progress_mono_ns" ∶ int64
    ⨾ "observed_delivery_bps" ∶ int64
    ⨾ "current_operation_ns" ∶ int64
    ⨾ "last_operation_ns" ∶ int64
    ⨾ "total_pressured_ns" ∶ int64
    ⨾ "max_pressured_ns" ∶ int64
    ⨾ end)
