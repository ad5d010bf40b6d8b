-- ===== src/Abi/Messages.antt =====
-- message_value.h: message, failure and deadletter values.
use coakka_runtime_swift.Abi.Layout.{CType, int32, int64, pointer, size_t, struct, end, ◌∶◌, ◌⨾◌}
use coakka_runtime_swift.Abi.Control.{message_span}

unfoldable pub message_property : CType
unfolding message_span
message_property = struct ("key" ∶ message_span ⨾ "value" ∶ message_span ⨾ end)

unfoldable pub message_address : CType
unfolding message_span
message_address = struct (
    "message_id" ∶ message_span
    ⨾ "correlation_id" ∶ message_span
    ⨾ "source" ∶ message_span
    ⨾ "target" ∶ message_span
    ⨾ "reply_to" ∶ message_span
    ⨾ end)

unfoldable pub message_delivery : CType
message_delivery =
    struct
      ("kind" ∶ int32 ⨾ "one_way" ∶ int32 ⨾ "timeout_ms" ∶ int32 ⨾ "delivery_hint" ∶ int32 ⨾ end)

unfoldable pub message_payload_identity : CType
unfolding message_span
message_payload_identity =
    struct ("message_type" ∶ message_span ⨾ "schema_version" ∶ int32 ⨾ "format" ∶ int32 ⨾ end)

unfoldable pub message_business_result : CType
unfolding message_span
message_business_result =
    struct ("status" ∶ int32 ⨾ "error_code" ∶ message_span ⨾ "error_message" ∶ message_span ⨾ end)

unfoldable pub message_value : CType
unfolding message_address message_delivery message_span
message_value = struct (
    "struct_size" ∶ size_t
    ⨾ "address" ∶ message_address
    ⨾ "delivery" ∶ message_delivery
    ⨾ "payload" ∶ message_span
    ⨾ "payload_identity" ∶ pointer
    ⨾ "business" ∶ pointer
    ⨾ "properties" ∶ pointer
    ⨾ "property_count" ∶ size_t
    ⨾ end)

unfoldable pub message_failure : CType
message_failure = struct (
    "domain" ∶ int32
    ⨾ "phase" ∶ int32
    ⨾ "code" ∶ int32
    ⨾ "certainty" ∶ int32
    ⨾ "scope" ∶ int32
    ⨾ end)

unfoldable pub deadletter_value : CType
unfolding message_span
deadletter_value = struct (
    "struct_size" ∶ size_t
    ⨾ "original" ∶ pointer
    ⨾ "reason" ∶ int32
    ⨾ "active_generation" ∶ int64
    ⨾ "detail" ∶ message_span
    ⨾ "resolved_host" ∶ message_span
    ⨾ "resolved_port" ∶ int32
    ⨾ "endpoint_attempt_count" ∶ int32
    ⨾ "failure" ∶ pointer
    ⨾ "failure_details" ∶ pointer
    ⨾ "failure_detail_count" ∶ size_t
    ⨾ end)
