-- ===== src/Abi/Transport.antt =====
-- runtime_transport_config.h: network, connection and security records.
use coakka_runtime_swift.Abi.Layout.{
  CType, int8, int16, int32, int64, pointer, array, size_t, struct, end, ◌∶◌, ◌⨾◌,
}

unfoldable pub network_options : CType
network_options = struct (
    "struct_size" ∶ size_t
    ⨾ "fields" ∶ int64
    ⨾ "mode" ∶ int32
    ⨾ "reserved" ∶ int32
    ⨾ "bind_host" ∶ pointer
    ⨾ "advertise_host" ∶ pointer
    ⨾ "bind_port" ∶ int16
    ⨾ "advertise_port" ∶ int16
    ⨾ "reserved2" ∶ int32
    ⨾ end)

unfoldable pub network_validation : CType
network_validation =
    struct ("struct_size" ∶ size_t ⨾ "code" ∶ int32 ⨾ "reserved" ∶ int32 ⨾ "field" ∶ int64 ⨾ end)

unfoldable pub network_config_snapshot : CType
network_config_snapshot = struct (
    "struct_size" ∶ size_t
    ⨾ "mode" ∶ int32
    ⨾ "explicit_policy" ∶ int32
    ⨾ "bind_host" ∶ pointer
    ⨾ "advertise_host" ∶ pointer
    ⨾ "bind_port" ∶ int16
    ⨾ "advertise_port" ∶ int16
    ⨾ "reserved" ∶ int32
    ⨾ end)

unfoldable pub tcp_connection_options : CType
tcp_connection_options = struct (
    "struct_size" ∶ size_t
    ⨾ "fields" ∶ int64
    ⨾ "mode" ∶ int32
    ⨾ "reserved" ∶ int32
    ⨾ "max_connections" ∶ int32
    ⨾ "reserved2" ∶ int32
    ⨾ "max_requests_per_connection" ∶ int64
    ⨾ "idle_timeout_ms" ∶ int64
    ⨾ end)

unfoldable pub tcp_connection_validation : CType
tcp_connection_validation = struct (
    "struct_size" ∶ size_t
    ⨾ "code" ∶ int32
    ⨾ "reserved" ∶ int32
    ⨾ "field" ∶ int64
    ⨾ "minimum_value" ∶ int64
    ⨾ "maximum_value" ∶ int64
    ⨾ end)

unfoldable pub tcp_connection_config_snapshot : CType
tcp_connection_config_snapshot = struct (
    "struct_size" ∶ size_t
    ⨾ "defaults_revision" ∶ int32
    ⨾ "mode" ∶ int32
    ⨾ "applicable_fields" ∶ int64
    ⨾ "explicitly_configured_fields" ∶ int64
    ⨾ "defaulted_fields" ∶ int64
    ⨾ "configurable_fields" ∶ int64
    ⨾ "max_connections" ∶ int32
    ⨾ "reserved" ∶ int32
    ⨾ "max_requests_per_connection" ∶ int64
    ⨾ "idle_timeout_ms" ∶ int64
    ⨾ end)

unfoldable pub tcp_security_options : CType
tcp_security_options = struct (
    "struct_size" ∶ size_t
    ⨾ "fields" ∶ int64
    ⨾ "mode" ∶ int32
    ⨾ "credential_source_kind" ∶ int32
    ⨾ "reload_mode" ∶ int32
    ⨾ "reserved" ∶ int32
    ⨾ "credential_generation" ∶ int64
    ⨾ "credential_id" ∶ pointer
    ⨾ "ca_certificate_file" ∶ pointer
    ⨾ "identity_certificate_file" ∶ pointer
    ⨾ "private_key_file" ∶ pointer
    ⨾ end)

unfoldable pub tcp_security_validation : CType
tcp_security_validation =
    struct ("struct_size" ∶ size_t ⨾ "code" ∶ int32 ⨾ "reserved" ∶ int32 ⨾ "field" ∶ int64 ⨾ end)

unfoldable pub tcp_security_config_snapshot : CType
tcp_security_config_snapshot = struct (
    "struct_size" ∶ size_t
    ⨾ "mode" ∶ int32
    ⨾ "credential_source_kind" ∶ int32
    ⨾ "reload_mode" ∶ int32
    ⨾ "reload_status" ∶ int32
    ⨾ "credential_generation" ∶ int64
    ⨾ "credential_id" ∶ pointer
    ⨾ end)

unfoldable pub tcp_security_identity_info : CType
tcp_security_identity_info = struct (
    "struct_size" ∶ size_t
    ⨾ "minimum_protocol_version" ∶ int32
    ⨾ "maximum_protocol_version" ∶ int32
    ⨾ "inbound_verification_flags" ∶ int64
    ⨾ "outbound_verification_flags" ∶ int64
    ⨾ "identity_not_before_unix_seconds" ∶ int64
    ⨾ "identity_not_after_unix_seconds" ∶ int64
    ⨾ "credential_id_value" ∶ array int8 128
    ⨾ "identity_fingerprint_sha256" ∶ array int8 65
    ⨾ end)

unfoldable pub tcp_security_info : CType
unfolding tcp_security_config_snapshot tcp_security_identity_info
tcp_security_info = struct (
    "struct_size" ∶ size_t
    ⨾ "config" ∶ tcp_security_config_snapshot
    ⨾ "identity" ∶ tcp_security_identity_info
    ⨾ end)

unfoldable pub tcp_connection_apply_result : CType
unfolding tcp_connection_config_snapshot tcp_connection_validation
tcp_connection_apply_result = struct (
    "struct_size" ∶ size_t
    ⨾ "apply_status" ∶ int32
    ⨾ "changed" ∶ int32
    ⨾ "reason" ∶ int32
    ⨾ "runtime_state" ∶ int32
    ⨾ "validation" ∶ tcp_connection_validation
    ⨾ "effective_config" ∶ tcp_connection_config_snapshot
    ⨾ end)

unfoldable pub tcp_security_apply_result : CType
unfolding tcp_security_info tcp_security_validation
tcp_security_apply_result = struct (
    "struct_size" ∶ size_t
    ⨾ "apply_status" ∶ int32
    ⨾ "changed" ∶ int32
    ⨾ "reason" ∶ int32
    ⨾ "runtime_state" ∶ int32
    ⨾ "validation" ∶ tcp_security_validation
    ⨾ "active_security" ∶ tcp_security_info
    ⨾ end)
