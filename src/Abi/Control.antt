-- ===== src/Abi/Control.antt =====
-- control.h, message_value.h and client.h: routes, control values and the envelope specifications.
use coakka_runtime_swift.Abi.Layout.{
  CType, int16, int32, int64, pointer, size_t, struct, end, ◌∶◌, ◌⨾◌,
}

unfoldable pub endpoint : CType
endpoint = struct ("host" ∶ pointer ⨾ "port" ∶ int16 ⨾ "weight" ∶ int32 ⨾ "flags" ∶ int32 ⨾ end)

unfoldable pub route : CType
route = struct (
    "target" ∶ pointer
    ⨾ "strategy" ∶ int32
    ⨾ "route_key_hint" ∶ pointer
    ⨾ "flags" ∶ int32
    ⨾ "endpoints" ∶ pointer
    ⨾ "endpoint_count" ∶ size_t
    ⨾ end)

unfoldable pub control_snapshot : CType
control_snapshot = struct ("generation" ∶ int64 ⨾ "routes" ∶ pointer ⨾ "route_count" ∶ size_t ⨾ end)

unfoldable pub message_span : CType
message_span = struct ("data" ∶ pointer ⨾ "size" ∶ size_t ⨾ end)

unfoldable pub control_value_metadata : CType
unfolding message_span
control_value_metadata = struct ("seq" ∶ int64 ⨾ "source_connector" ∶ message_span ⨾ end)

unfoldable pub control_endpoint_value : CType
unfolding message_span
control_endpoint_value =
    struct ("host" ∶ message_span ⨾ "port" ∶ int32 ⨾ "weight" ∶ int32 ⨾ "flags" ∶ int32 ⨾ end)

unfoldable pub control_route_value : CType
unfolding message_span
control_route_value = struct (
    "target" ∶ message_span
    ⨾ "route_key_hint" ∶ message_span
    ⨾ "strategy" ∶ int32
    ⨾ "flags" ∶ int32
    ⨾ "endpoints" ∶ pointer
    ⨾ "endpoint_count" ∶ size_t
    ⨾ end)

unfoldable pub control_snapshot_value : CType
control_snapshot_value =
    struct ("generation" ∶ int64 ⨾ "routes" ∶ pointer ⨾ "route_count" ∶ size_t ⨾ end)

unfoldable pub control_overload_value : CType
control_overload_value = struct (
    "ingress_mode" ∶ int32
    ⨾ "local_delivery_mode" ∶ int32
    ⨾ "remote_outbound_mode" ∶ int32
    ⨾ "remote_outbound_reply_reserve_slots" ∶ int32
    ⨾ end)

unfoldable pub control_value : CType
control_value = struct (
    "struct_size" ∶ size_t ⨾ "snapshot" ∶ pointer ⨾ "policy" ∶ pointer ⨾ "metadata" ∶ pointer ⨾ end)

unfoldable pub client_raw_request_spec : CType
client_raw_request_spec = struct (
    "struct_size" ∶ size_t
    ⨾ "message_id" ∶ pointer
    ⨾ "source" ∶ pointer
    ⨾ "target" ∶ pointer
    ⨾ "reply_to" ∶ pointer
    ⨾ "payload" ∶ pointer
    ⨾ "payload_len" ∶ size_t
    ⨾ "timeout_ms" ∶ int32
    ⨾ "delivery_hint" ∶ int32
    ⨾ "one_way" ∶ int32
    ⨾ end)

unfoldable pub client_raw_reply_spec : CType
client_raw_reply_spec = struct (
    "struct_size" ∶ size_t
    ⨾ "request_buf" ∶ pointer
    ⨾ "request_len" ∶ size_t
    ⨾ "source" ∶ pointer
    ⨾ "payload" ∶ pointer
    ⨾ "payload_len" ∶ size_t
    ⨾ end)
