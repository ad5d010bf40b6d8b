-- ===== src/Abi/Observe.antt =====
-- runtime_topology.h, runtime_event_log.h, runtime_monitor.h, runtime_distribution.h, dubbing.h and runtime.h:
-- snapshots that a host reads from the runtime.
use coakka_runtime_swift.Abi.Layout.{
  CType, int8, int16, int32, int64, pointer, array, size_t, struct, end, ◌∶◌, ◌⨾◌,
}
use coakka_runtime_swift.Abi.Runtime.{
  runtime_capability_snapshot, runtime_health, runtime_info, runtime_stats,
}

unfoldable pub dubbing_job_spec : CType
dubbing_job_spec = struct (
    "struct_size" ∶ size_t
    ⨾ "job_label" ∶ pointer
    ⨾ "source_media_path" ∶ pointer
    ⨾ "output_root" ∶ pointer
    ⨾ "requested_scope" ∶ pointer
    ⨾ end)

unfoldable pub dubbing_job_update : CType
dubbing_job_update = struct (
    "struct_size" ∶ size_t
    ⨾ "job_id" ∶ int64
    ⨾ "state" ∶ int32
    ⨾ "stage" ∶ int32
    ⨾ "progress_milli" ∶ int32
    ⨾ "status_reason" ∶ pointer
    ⨾ "active_artifact_path" ∶ pointer
    ⨾ "accepted_output_path" ∶ pointer
    ⨾ end)

unfoldable pub dubbing_job_snapshot : CType
dubbing_job_snapshot = struct (
    "struct_size" ∶ size_t
    ⨾ "job_id" ∶ int64
    ⨾ "state" ∶ int32
    ⨾ "stage" ∶ int32
    ⨾ "progress_milli" ∶ int32
    ⨾ "cancel_requested" ∶ int32
    ⨾ "update_sequence" ∶ int64
    ⨾ "submitted_mono_ns" ∶ int64
    ⨾ "updated_mono_ns" ∶ int64
    ⨾ "job_label" ∶ array int8 128
    ⨾ "source_media_path" ∶ array int8 512
    ⨾ "output_root" ∶ array int8 512
    ⨾ "requested_scope" ∶ array int8 64
    ⨾ "status_reason" ∶ array int8 192
    ⨾ "active_artifact_path" ∶ array int8 512
    ⨾ "accepted_output_path" ∶ array int8 512
    ⨾ end)

unfoldable pub runtime_event_log_entry : CType
runtime_event_log_entry = struct (
    "event_sequence" ∶ int64
    ⨾ "change_sequence" ∶ int64
    ⨾ "observed_mono_ns" ∶ int64
    ⨾ "applied_generation" ∶ int64
    ⨾ "kind" ∶ int32
    ⨾ "queue_scope" ∶ int32
    ⨾ "code" ∶ int64
    ⨾ "value" ∶ int64
    ⨾ end)

unfoldable pub runtime_event_log_snapshot : CType
runtime_event_log_snapshot = struct (
    "requested_after_event_sequence" ∶ int64
    ⨾ "latest_event_sequence" ∶ int64
    ⨾ "missed_event_count" ∶ int64
    ⨾ "remaining_event_count" ∶ size_t
    ⨾ "event_count" ∶ size_t
    ⨾ "events" ∶ pointer
    ⨾ end)

unfoldable pub runtime_distribution_info : CType
runtime_distribution_info = struct (
    "struct_size" ∶ size_t
    ⨾ "distribution_contract_version" ∶ int32
    ⨾ "reserved" ∶ int32
    ⨾ "edition_name" ∶ pointer
    ⨾ "build_profile" ∶ pointer
    ⨾ "release_channel" ∶ pointer
    ⨾ "tls_provider" ∶ pointer
    ⨾ "tls_provider_version" ∶ pointer
    ⨾ end)

unfoldable pub runtime_license_snapshot : CType
runtime_license_snapshot = struct (
    "struct_size" ∶ size_t
    ⨾ "status" ∶ int32
    ⨾ "edition" ∶ int32
    ⨾ "entitled_capabilities" ∶ int64
    ⨾ "not_before_unix_seconds" ∶ int64
    ⨾ "expires_at_unix_seconds" ∶ int64
    ⨾ "license_id" ∶ pointer
    ⨾ "signing_key_id" ∶ pointer
    ⨾ end)

unfoldable pub runtime_topology_snapshot : CType
runtime_topology_snapshot = struct (
    "snapshot_present" ∶ int32
    ⨾ "applied_generation" ∶ int64
    ⨾ "southbound_bind_host" ∶ pointer
    ⨾ "southbound_bind_port" ∶ int16
    ⨾ "route_count" ∶ size_t
    ⨾ "routes" ∶ pointer
    ⨾ end)

unfoldable pub runtime_route_catalog_entry : CType
runtime_route_catalog_entry = struct (
    "target" ∶ pointer
    ⨾ "strategy" ∶ int32
    ⨾ "route_key_hint" ∶ pointer
    ⨾ "flags" ∶ int32
    ⨾ "endpoint_count" ∶ size_t
    ⨾ "local_endpoint_count" ∶ size_t
    ⨾ "remote_endpoint_count" ∶ size_t
    ⨾ "unavailable_endpoint_count" ∶ size_t
    ⨾ "available_endpoint_count" ∶ size_t
    ⨾ end)

unfoldable pub runtime_route_catalog : CType
runtime_route_catalog = struct (
    "snapshot_present" ∶ int32
    ⨾ "applied_generation" ∶ int64
    ⨾ "route_count" ∶ size_t
    ⨾ "routes" ∶ pointer
    ⨾ end)

unfoldable pub runtime_monitor_snapshot : CType
unfolding runtime_health runtime_stats runtime_topology_snapshot
runtime_monitor_snapshot = struct (
    "change_sequence" ∶ int64
    ⨾ "observed_mono_ns" ∶ int64
    ⨾ "health" ∶ runtime_health
    ⨾ "stats" ∶ runtime_stats
    ⨾ "topology" ∶ runtime_topology_snapshot
    ⨾ end)

unfoldable pub runtime_core_info : CType
unfolding runtime_capability_snapshot runtime_distribution_info runtime_info
    runtime_license_snapshot
runtime_core_info = struct (
    "struct_size" ∶ size_t
    ⨾ "runtime" ∶ runtime_info
    ⨾ "distribution" ∶ runtime_distribution_info
    ⨾ "capabilities" ∶ runtime_capability_snapshot
    ⨾ "license" ∶ runtime_license_snapshot
    ⨾ end)
