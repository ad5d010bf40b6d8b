-- ===== src/Enums/Transport.antt =====
-- The enumerations of runtime_transport_config.h: the enumerators of each as a data type, and their values.
use coakka_runtime_swift.Prelude.{ℕ, ◌^◌}

pub data NetworkMode : Type 0 where
  legacy_route_derived embedded outbound_only node : NetworkMode

unfoldable pub network_mode : NetworkMode → ℕ
network_mode NetworkMode.legacy_route_derived = 0
network_mode NetworkMode.embedded = 1
network_mode NetworkMode.outbound_only = 2
network_mode NetworkMode.node = 3

pub data NetworkField : Type 0 where
  mode bind_host bind_port advertise_host advertise_port : NetworkField

unfoldable pub network_field : NetworkField → ℕ
network_field NetworkField.mode = 2 ^ 0
network_field NetworkField.bind_host = 2 ^ 1
network_field NetworkField.bind_port = 2 ^ 2
network_field NetworkField.advertise_host = 2 ^ 3
network_field NetworkField.advertise_port = 2 ^ 4

pub data NetworkValidationCode : Type 0 where
  valid invalid_struct_size unknown_field mode_required unknown_mode reserved_nonzero
        field_outside_struct field_not_applicable required_field_missing invalid_bind_host
        invalid_advertise_host value_without_field :
      NetworkValidationCode

unfoldable pub network_validation_code : NetworkValidationCode → ℕ
network_validation_code NetworkValidationCode.valid = 0
network_validation_code NetworkValidationCode.invalid_struct_size = 1
network_validation_code NetworkValidationCode.unknown_field = 2
network_validation_code NetworkValidationCode.mode_required = 3
network_validation_code NetworkValidationCode.unknown_mode = 4
network_validation_code NetworkValidationCode.reserved_nonzero = 5
network_validation_code NetworkValidationCode.field_outside_struct = 6
network_validation_code NetworkValidationCode.field_not_applicable = 7
network_validation_code NetworkValidationCode.required_field_missing = 8
network_validation_code NetworkValidationCode.invalid_bind_host = 9
network_validation_code NetworkValidationCode.invalid_advertise_host = 10
network_validation_code NetworkValidationCode.value_without_field = 11

pub data TcpConnectionMode : Type 0 where
  per_exchange bounded_pool persistent_single_flight multiplexed : TcpConnectionMode

unfoldable pub tcp_connection_mode : TcpConnectionMode → ℕ
tcp_connection_mode TcpConnectionMode.per_exchange = 0
tcp_connection_mode TcpConnectionMode.bounded_pool = 1
tcp_connection_mode TcpConnectionMode.persistent_single_flight = 2
tcp_connection_mode TcpConnectionMode.multiplexed = 3

pub data TcpConnectionField : Type 0 where
  mode max_connections max_requests_per_connection idle_timeout_ms : TcpConnectionField

unfoldable pub tcp_connection_field : TcpConnectionField → ℕ
tcp_connection_field TcpConnectionField.mode = 2 ^ 0
tcp_connection_field TcpConnectionField.max_connections = 2 ^ 1
tcp_connection_field TcpConnectionField.max_requests_per_connection = 2 ^ 2
tcp_connection_field TcpConnectionField.idle_timeout_ms = 2 ^ 3

pub data TcpConnectionValidationCode : Type 0 where
  valid invalid_struct_size unknown_field mode_required unknown_mode field_not_applicable
        value_out_of_range feature_unavailable feature_not_entitled reserved_nonzero
        field_outside_struct value_without_field :
      TcpConnectionValidationCode

unfoldable pub tcp_connection_validation_code : TcpConnectionValidationCode → ℕ
tcp_connection_validation_code TcpConnectionValidationCode.valid = 0
tcp_connection_validation_code TcpConnectionValidationCode.invalid_struct_size = 1
tcp_connection_validation_code TcpConnectionValidationCode.unknown_field = 2
tcp_connection_validation_code TcpConnectionValidationCode.mode_required = 3
tcp_connection_validation_code TcpConnectionValidationCode.unknown_mode = 4
tcp_connection_validation_code TcpConnectionValidationCode.field_not_applicable = 5
tcp_connection_validation_code TcpConnectionValidationCode.value_out_of_range = 6
tcp_connection_validation_code TcpConnectionValidationCode.feature_unavailable = 7
tcp_connection_validation_code TcpConnectionValidationCode.feature_not_entitled = 8
tcp_connection_validation_code TcpConnectionValidationCode.reserved_nonzero = 9
tcp_connection_validation_code TcpConnectionValidationCode.field_outside_struct = 10
tcp_connection_validation_code TcpConnectionValidationCode.value_without_field = 11

pub data TcpSecurityMode : Type 0 where
  plaintext tls mutual_tls : TcpSecurityMode

unfoldable pub tcp_security_mode : TcpSecurityMode → ℕ
tcp_security_mode TcpSecurityMode.plaintext = 0
tcp_security_mode TcpSecurityMode.tls = 1
tcp_security_mode TcpSecurityMode.mutual_tls = 2

pub data TlsCredentialSourceKind : Type 0 where
  none file memory provider : TlsCredentialSourceKind

unfoldable pub tls_credential_source_kind : TlsCredentialSourceKind → ℕ
tls_credential_source_kind TlsCredentialSourceKind.none = 0
tls_credential_source_kind TlsCredentialSourceKind.file = 1
tls_credential_source_kind TlsCredentialSourceKind.memory = 2
tls_credential_source_kind TlsCredentialSourceKind.provider = 3

pub data TlsReloadMode : Type 0 where
  graceful drain_existing_connections : TlsReloadMode

unfoldable pub tls_reload_mode : TlsReloadMode → ℕ
tls_reload_mode TlsReloadMode.graceful = 0
tls_reload_mode TlsReloadMode.drain_existing_connections = 1

pub data TlsReloadStatus : Type 0 where
  not_configured never_loaded active failed expired : TlsReloadStatus

unfoldable pub tls_reload_status : TlsReloadStatus → ℕ
tls_reload_status TlsReloadStatus.not_configured = 0
tls_reload_status TlsReloadStatus.never_loaded = 1
tls_reload_status TlsReloadStatus.active = 2
tls_reload_status TlsReloadStatus.failed = 3
tls_reload_status TlsReloadStatus.expired = 4

pub data TcpSecurityField : Type 0 where
  mode credential_source reload_mode credential_generation credential_id ca_certificate_file
        identity_certificate_file private_key_file :
      TcpSecurityField

unfoldable pub tcp_security_field : TcpSecurityField → ℕ
tcp_security_field TcpSecurityField.mode = 2 ^ 0
tcp_security_field TcpSecurityField.credential_source = 2 ^ 1
tcp_security_field TcpSecurityField.reload_mode = 2 ^ 2
tcp_security_field TcpSecurityField.credential_generation = 2 ^ 3
tcp_security_field TcpSecurityField.credential_id = 2 ^ 4
tcp_security_field TcpSecurityField.ca_certificate_file = 2 ^ 5
tcp_security_field TcpSecurityField.identity_certificate_file = 2 ^ 6
tcp_security_field TcpSecurityField.private_key_file = 2 ^ 7

pub data TlsProtocolVersion : Type 0 where
  provider_default version_1_2 version_1_3 : TlsProtocolVersion

unfoldable pub tls_protocol_version : TlsProtocolVersion → ℕ
tls_protocol_version TlsProtocolVersion.provider_default = 0
tls_protocol_version TlsProtocolVersion.version_1_2 = 771
tls_protocol_version TlsProtocolVersion.version_1_3 = 772

pub data TlsVerification : Type 0 where
  verify_peer verify_peer_identity require_client_certificate : TlsVerification

unfoldable pub tls_verification : TlsVerification → ℕ
tls_verification TlsVerification.verify_peer = 2 ^ 0
tls_verification TlsVerification.verify_peer_identity = 2 ^ 1
tls_verification TlsVerification.require_client_certificate = 2 ^ 2

pub data TcpSecurityValidationCode : Type 0 where
  valid invalid_struct_size unknown_field mode_required unknown_mode reserved_nonzero
        field_outside_struct field_not_applicable required_field_missing source_unavailable
        feature_unavailable invalid_generation credential_id_too_long value_without_field :
      TcpSecurityValidationCode

unfoldable pub tcp_security_validation_code : TcpSecurityValidationCode → ℕ
tcp_security_validation_code TcpSecurityValidationCode.valid = 0
tcp_security_validation_code TcpSecurityValidationCode.invalid_struct_size = 1
tcp_security_validation_code TcpSecurityValidationCode.unknown_field = 2
tcp_security_validation_code TcpSecurityValidationCode.mode_required = 3
tcp_security_validation_code TcpSecurityValidationCode.unknown_mode = 4
tcp_security_validation_code TcpSecurityValidationCode.reserved_nonzero = 5
tcp_security_validation_code TcpSecurityValidationCode.field_outside_struct = 6
tcp_security_validation_code TcpSecurityValidationCode.field_not_applicable = 7
tcp_security_validation_code TcpSecurityValidationCode.required_field_missing = 8
tcp_security_validation_code TcpSecurityValidationCode.source_unavailable = 9
tcp_security_validation_code TcpSecurityValidationCode.feature_unavailable = 10
tcp_security_validation_code TcpSecurityValidationCode.invalid_generation = 11
tcp_security_validation_code TcpSecurityValidationCode.credential_id_too_long = 12
tcp_security_validation_code TcpSecurityValidationCode.value_without_field = 13

pub data TransportApplyReason : Type 0 where
  none invalid_argument feature_unavailable feature_not_entitled runtime_not_configurable
        security_mode_change_requires_recreate stale_credential_generation credential_rejected
        resource_failure adapter_rejected :
      TransportApplyReason

unfoldable pub transport_apply_reason : TransportApplyReason → ℕ
transport_apply_reason TransportApplyReason.none = 0
transport_apply_reason TransportApplyReason.invalid_argument = 1
transport_apply_reason TransportApplyReason.feature_unavailable = 2
transport_apply_reason TransportApplyReason.feature_not_entitled = 3
transport_apply_reason TransportApplyReason.runtime_not_configurable = 4
transport_apply_reason TransportApplyReason.security_mode_change_requires_recreate = 5
transport_apply_reason TransportApplyReason.stale_credential_generation = 6
transport_apply_reason TransportApplyReason.credential_rejected = 7
transport_apply_reason TransportApplyReason.resource_failure = 8
transport_apply_reason TransportApplyReason.adapter_rejected = 9
