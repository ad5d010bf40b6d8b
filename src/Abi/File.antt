-- ===== src/Abi/File.antt =====
-- file_lane.h: the records of the file lane.
use coakka_runtime_swift.Abi.Layout.{
  CType, int8, int16, int32, int64, pointer, array, size_t, struct, end, ◌∶◌, ◌⨾◌,
}
use coakka_runtime_swift.Abi.Lanes.{lane_owner_config, lane_owner_endpoint}

unfoldable pub file_lane_security_config : CType
file_lane_security_config = struct (
    "struct_size" ∶ size_t
    ⨾ "mode" ∶ int32
    ⨾ "reserved" ∶ int32
    ⨾ "credential_generation" ∶ int64
    ⨾ "credential_id" ∶ pointer
    ⨾ "ca_certificate_file" ∶ pointer
    ⨾ "identity_certificate_file" ∶ pointer
    ⨾ "private_key_file" ∶ pointer
    ⨾ end)

unfoldable pub file_lane_config : CType
file_lane_config = struct (
    "struct_size" ∶ size_t
    ⨾ "flags" ∶ int32
    ⨾ "bind_host" ∶ pointer
    ⨾ "bind_port" ∶ int16
    ⨾ "queue_capacity" ∶ size_t
    ⨾ "max_file_size" ∶ int64
    ⨾ "io_timeout_ms" ∶ int32
    ⨾ "checkpoint_bytes" ∶ int64
    ⨾ "progress_bytes" ∶ int64
    ⨾ "progress_interval_ms" ∶ int32
    ⨾ "sender_worker_count" ∶ int32
    ⨾ "receiver_worker_count" ∶ int32
    ⨾ "security" ∶ pointer
    ⨾ end)

unfoldable pub file_lane_owned_config : CType
unfolding file_lane_config lane_owner_config
file_lane_owned_config =
    struct ("struct_size" ∶ size_t ⨾ "lane" ∶ file_lane_config ⨾ "owner" ∶ lane_owner_config ⨾ end)

unfoldable pub file_receive_spec : CType
file_receive_spec = struct (
    "struct_size" ∶ size_t
    ⨾ "transfer_id" ∶ pointer
    ⨾ "authorization_token" ∶ pointer
    ⨾ "destination_path" ∶ pointer
    ⨾ "expected_size" ∶ int64
    ⨾ "expected_sha256" ∶ array int8 32
    ⨾ end)

unfoldable pub file_send_spec : CType
file_send_spec = struct (
    "struct_size" ∶ size_t
    ⨾ "transfer_id" ∶ pointer
    ⨾ "authorization_token" ∶ pointer
    ⨾ "remote_host" ∶ pointer
    ⨾ "remote_port" ∶ int16
    ⨾ "source_path" ∶ pointer
    ⨾ "expected_size" ∶ int64
    ⨾ "expected_sha256" ∶ array int8 32
    ⨾ "timeout_ms" ∶ int32
    ⨾ end)

unfoldable pub file_receive_grant : CType
unfolding lane_owner_endpoint
file_receive_grant = struct (
    "struct_size" ∶ size_t
    ⨾ "owner" ∶ lane_owner_endpoint
    ⨾ "transfer_id" ∶ array int8 65
    ⨾ "authorization_token" ∶ array int8 129
    ⨾ "expected_size" ∶ int64
    ⨾ "expected_sha256" ∶ array int8 32
    ⨾ end)

unfoldable pub file_transfer_snapshot : CType
file_transfer_snapshot = struct (
    "struct_size" ∶ size_t
    ⨾ "direction" ∶ int32
    ⨾ "state" ∶ int32
    ⨾ "result" ∶ int32
    ⨾ "expected_size" ∶ int64
    ⨾ "transferred_bytes" ∶ int64
    ⨾ "committed_offset" ∶ int64
    ⨾ "progress_milli" ∶ int32
    ⨾ "cancel_requested" ∶ int32
    ⨾ "update_sequence" ∶ int64
    ⨾ "submitted_mono_ns" ∶ int64
    ⨾ "started_mono_ns" ∶ int64
    ⨾ "updated_mono_ns" ∶ int64
    ⨾ "terminal_mono_ns" ∶ int64
    ⨾ "detail" ∶ array int8 160
    ⨾ end)

unfoldable pub file_lane_stats : CType
file_lane_stats = struct (
    "struct_size" ∶ size_t
    ⨾ "queue_capacity" ∶ size_t
    ⨾ "queued_sends" ∶ size_t
    ⨾ "prepared_receives" ∶ size_t
    ⨾ "active_sends" ∶ size_t
    ⨾ "active_receives" ∶ size_t
    ⨾ "retained_records" ∶ size_t
    ⨾ "submitted_sends" ∶ int64
    ⨾ "prepared_receive_count" ∶ int64
    ⨾ "completed_sends" ∶ int64
    ⨾ "completed_receives" ∶ int64
    ⨾ "failed_sends" ∶ int64
    ⨾ "failed_receives" ∶ int64
    ⨾ "canceled_transfers" ∶ int64
    ⨾ "completed_send_bytes" ∶ int64
    ⨾ "completed_receive_bytes" ∶ int64
    ⨾ end)
