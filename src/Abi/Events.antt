-- ===== src/Abi/Events.antt =====
-- event_service_types.h: the records of the event service.
use coakka_runtime_swift.Abi.Layout.{CType, int32, int64, pointer, size_t, struct, end, ◌∶◌, ◌⨾◌}

unfoldable pub event_string_view : CType
event_string_view = struct ("data" ∶ pointer ⨾ "size" ∶ size_t ⨾ end)

unfoldable pub event_bytes : CType
event_bytes = struct ("data" ∶ pointer ⨾ "size" ∶ size_t ⨾ end)

unfoldable pub event_header : CType
unfolding event_bytes event_string_view
event_header = struct ("key" ∶ event_string_view ⨾ "value" ∶ event_bytes ⨾ end)

unfoldable pub event_stream_id : CType
unfolding event_string_view
event_stream_id = struct (
    "struct_size" ∶ size_t
    ⨾ "namespace_name" ∶ event_string_view
    ⨾ "stream_name" ∶ event_string_view
    ⨾ end)

unfoldable pub event_publish_spec : CType
unfolding event_bytes event_stream_id event_string_view
event_publish_spec = struct (
    "struct_size" ∶ size_t
    ⨾ "stream" ∶ event_stream_id
    ⨾ "event_type" ∶ event_string_view
    ⨾ "entity_key" ∶ event_string_view
    ⨾ "schema_name" ∶ event_string_view
    ⨾ "producer_name" ∶ event_string_view
    ⨾ "idempotency_key" ∶ event_string_view
    ⨾ "payload" ∶ event_bytes
    ⨾ "headers" ∶ pointer
    ⨾ "header_count" ∶ size_t
    ⨾ "delivery_policy" ∶ int32
    ⨾ "event_time_unix_ms" ∶ int64
    ⨾ end)

unfoldable pub event_selector : CType
unfolding event_stream_id event_string_view
event_selector = struct (
    "struct_size" ∶ size_t
    ⨾ "stream" ∶ event_stream_id
    ⨾ "event_type" ∶ event_string_view
    ⨾ "entity_key" ∶ event_string_view
    ⨾ "consumer_name" ∶ event_string_view
    ⨾ end)

unfoldable pub event_cursor : CType
unfolding event_string_view
event_cursor = struct (
    "struct_size" ∶ size_t
    ⨾ "kind" ∶ int32
    ⨾ "event_id" ∶ event_string_view
    ⨾ "logical_token" ∶ event_string_view
    ⨾ "range_start_unix_ms" ∶ int64
    ⨾ "range_end_unix_ms" ∶ int64
    ⨾ end)

unfoldable pub event_subscription_spec : CType
unfolding event_cursor event_selector
event_subscription_spec = struct (
    "struct_size" ∶ size_t
    ⨾ "selector" ∶ event_selector
    ⨾ "start_cursor" ∶ event_cursor
    ⨾ "ack_policy" ∶ int32
    ⨾ "batch_limit" ∶ int32
    ⨾ "delivery_policy" ∶ int32
    ⨾ "subscription_mode" ∶ int32
    ⨾ "replay_policy" ∶ int32
    ⨾ end)

unfoldable pub event_record : CType
unfolding event_bytes event_stream_id event_string_view
event_record = struct (
    "struct_size" ∶ size_t
    ⨾ "stream" ∶ event_stream_id
    ⨾ "event_id" ∶ event_string_view
    ⨾ "event_type" ∶ event_string_view
    ⨾ "entity_key" ∶ event_string_view
    ⨾ "schema_name" ∶ event_string_view
    ⨾ "producer_name" ∶ event_string_view
    ⨾ "idempotency_key" ∶ event_string_view
    ⨾ "cursor_token" ∶ event_string_view
    ⨾ "payload" ∶ event_bytes
    ⨾ "headers" ∶ pointer
    ⨾ "header_count" ∶ size_t
    ⨾ "committed_unix_ms" ∶ int64
    ⨾ "event_time_unix_ms" ∶ int64
    ⨾ end)

unfoldable pub event_delivery_report : CType
unfolding event_string_view
event_delivery_report = struct (
    "struct_size" ∶ size_t
    ⨾ "event_id" ∶ event_string_view
    ⨾ "cursor_token" ∶ event_string_view
    ⨾ "delivered_unix_ms" ∶ int64
    ⨾ "retry_count" ∶ int64
    ⨾ "delivery_policy" ∶ int32
    ⨾ end)

unfoldable pub event_service_open_options : CType
event_service_open_options = struct (
    "struct_size" ∶ size_t
    ⨾ "service_name" ∶ pointer
    ⨾ "node_id" ∶ pointer
    ⨾ "storage_profile" ∶ pointer
    ⨾ "operator_profile" ∶ pointer
    ⨾ end)
