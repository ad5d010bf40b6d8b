-- ===== src/Abi/EventAdmin.antt =====
-- event_service_admin_types.h, event_service_auth_types.h and event_service_operator_types.h: the records
-- of the event service for its administration, its authorization and its operators.
use coakka_runtime_swift.Abi.Layout.{CType, int32, int64, pointer, size_t, struct, end, ◌∶◌, ◌⨾◌}
use coakka_runtime_swift.Abi.Events.{
  event_cursor, event_selector, event_stream_id, event_string_view,
}

unfoldable pub event_stream_config : CType
unfolding event_stream_id event_string_view
event_stream_config = struct (
    "struct_size" ∶ size_t
    ⨾ "stream" ∶ event_stream_id
    ⨾ "retention_profile" ∶ event_string_view
    ⨾ "archive_profile" ∶ event_string_view
    ⨾ "deadletter_stream" ∶ event_string_view
    ⨾ "default_delivery_policy" ∶ int32
    ⨾ end)

unfoldable pub event_subscription_config : CType
unfolding event_selector event_string_view
event_subscription_config = struct (
    "struct_size" ∶ size_t
    ⨾ "selector" ∶ event_selector
    ⨾ "subscription_name" ∶ event_string_view
    ⨾ "retry_policy_name" ∶ event_string_view
    ⨾ "ack_policy" ∶ int32
    ⨾ "delivery_policy" ∶ int32
    ⨾ "subscription_mode" ∶ int32
    ⨾ "replay_policy" ∶ int32
    ⨾ "deadletter_enabled" ∶ int32
    ⨾ "paused" ∶ int32
    ⨾ "max_inflight" ∶ int32
    ⨾ end)

unfoldable pub event_checkpoint_snapshot : CType
unfolding event_string_view
event_checkpoint_snapshot = struct (
    "struct_size" ∶ size_t
    ⨾ "subscription_name" ∶ event_string_view
    ⨾ "acked_event_id" ∶ event_string_view
    ⨾ "acked_cursor_token" ∶ event_string_view
    ⨾ "acked_event_seq" ∶ int64
    ⨾ "updated_unix_ms" ∶ int64
    ⨾ end)

unfoldable pub event_checkpoint_replace_request : CType
unfolding event_cursor event_string_view
event_checkpoint_replace_request = struct (
    "struct_size" ∶ size_t
    ⨾ "subscription_name" ∶ event_string_view
    ⨾ "target_cursor" ∶ event_cursor
    ⨾ "requested_by" ∶ event_string_view
    ⨾ "reason_text" ∶ event_string_view
    ⨾ "expected_current_event_seq" ∶ int64
    ⨾ "dry_run" ∶ int32
    ⨾ "replace_mode" ∶ int32
    ⨾ end)

unfoldable pub event_admin_apply_result : CType
unfolding event_string_view
event_admin_apply_result = struct (
    "struct_size" ∶ size_t
    ⨾ "resource_kind" ∶ event_string_view
    ⨾ "resource_name" ∶ event_string_view
    ⨾ "reason_text" ∶ event_string_view
    ⨾ "action" ∶ int32
    ⨾ "disposition" ∶ int32
    ⨾ "applied_unix_ms" ∶ int64
    ⨾ end)

unfoldable pub event_subscription_lag_snapshot : CType
unfolding event_selector event_string_view
event_subscription_lag_snapshot = struct (
    "struct_size" ∶ size_t
    ⨾ "selector" ∶ event_selector
    ⨾ "subscription_name" ∶ event_string_view
    ⨾ "last_acked_event_id" ∶ event_string_view
    ⨾ "last_acked_cursor_token" ∶ event_string_view
    ⨾ "ack_policy" ∶ int32
    ⨾ "delivery_policy" ∶ int32
    ⨾ "subscription_mode" ∶ int32
    ⨾ "pending_event_count" ∶ int64
    ⨾ "retry_queue_count" ∶ int64
    ⨾ "deadletter_count" ∶ int64
    ⨾ "oldest_pending_age_ms" ∶ int64
    ⨾ "last_delivery_unix_ms" ∶ int64
    ⨾ end)

unfoldable pub event_replay_request : CType
unfolding event_cursor event_selector event_string_view
event_replay_request = struct (
    "struct_size" ∶ size_t
    ⨾ "selector" ∶ event_selector
    ⨾ "start_cursor" ∶ event_cursor
    ⨾ "end_cursor" ∶ event_cursor
    ⨾ "target_name" ∶ event_string_view
    ⨾ "requested_by" ∶ event_string_view
    ⨾ "target_kind" ∶ int32
    ⨾ "preserve_checkpoint" ∶ int32
    ⨾ "dry_run" ∶ int32
    ⨾ end)

unfoldable pub event_replay_job_snapshot : CType
unfolding event_string_view
event_replay_job_snapshot = struct (
    "struct_size" ∶ size_t
    ⨾ "replay_job_id" ∶ event_string_view
    ⨾ "target_name" ∶ event_string_view
    ⨾ "requested_by" ∶ event_string_view
    ⨾ "target_kind" ∶ int32
    ⨾ "job_state" ∶ int32
    ⨾ "matched_event_count" ∶ int64
    ⨾ "delivered_event_count" ∶ int64
    ⨾ "failed_event_count" ∶ int64
    ⨾ "deadlettered_event_count" ∶ int64
    ⨾ "created_unix_ms" ∶ int64
    ⨾ "updated_unix_ms" ∶ int64
    ⨾ end)

unfoldable pub event_operator_audit_record : CType
unfolding event_string_view
event_operator_audit_record = struct (
    "struct_size" ∶ size_t
    ⨾ "audit_id" ∶ event_string_view
    ⨾ "principal_name" ∶ event_string_view
    ⨾ "subject_name" ∶ event_string_view
    ⨾ "reason_text" ∶ event_string_view
    ⨾ "action" ∶ int32
    ⨾ "disposition" ∶ int32
    ⨾ "created_unix_ms" ∶ int64
    ⨾ end)

unfoldable pub event_scope_hint : CType
unfolding event_string_view
event_scope_hint = struct (
    "struct_size" ∶ size_t
    ⨾ "namespace_name" ∶ event_string_view
    ⨾ "stream_name" ∶ event_string_view
    ⨾ "subscription_name" ∶ event_string_view
    ⨾ end)

unfoldable pub event_principal : CType
unfolding event_scope_hint event_string_view
event_principal = struct (
    "struct_size" ∶ size_t
    ⨾ "principal_name" ∶ event_string_view
    ⨾ "scope_hint" ∶ event_scope_hint
    ⨾ "capabilities" ∶ pointer
    ⨾ "capability_count" ∶ size_t
    ⨾ "principal_kind" ∶ int32
    ⨾ end)

unfoldable pub event_authz_decision : CType
unfolding event_scope_hint event_string_view
event_authz_decision = struct (
    "struct_size" ∶ size_t
    ⨾ "principal_name" ∶ event_string_view
    ⨾ "reason_text" ∶ event_string_view
    ⨾ "scope_hint" ∶ event_scope_hint
    ⨾ "principal_kind" ∶ int32
    ⨾ "required_capability" ∶ int32
    ⨾ "disposition" ∶ int32
    ⨾ end)
