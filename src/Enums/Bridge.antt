-- ===== src/Enums/Bridge.antt =====
-- coakka_runtime_bridge.h, lines 27 to 125: the enumerations of the bridge.
use coakka_runtime_swift.Prelude.{ℕ, ◌^◌, ◌-◌, ℤ, pos, negsuc}
pub mod Mirrors

pub data OpenStatus : Type 0 where
  ok err_load err_symbol : OpenStatus

unfoldable pub open_status : OpenStatus → ℤ
open_status OpenStatus.ok = pos 0
open_status OpenStatus.err_load = negsuc 99
open_status OpenStatus.err_symbol = negsuc 100

pub data BridgeStatus : Type 0 where
  ok invalid_arg nomem bad_state stale_generation io would_block closed feature_unavailable
        feature_not_entitled :
      BridgeStatus

unfoldable pub bridge_status : BridgeStatus → ℤ
bridge_status BridgeStatus.ok = pos 0
bridge_status BridgeStatus.invalid_arg = negsuc 0
bridge_status BridgeStatus.nomem = negsuc 1
bridge_status BridgeStatus.bad_state = negsuc 2
bridge_status BridgeStatus.stale_generation = negsuc 3
bridge_status BridgeStatus.io = negsuc 4
bridge_status BridgeStatus.would_block = negsuc 5
bridge_status BridgeStatus.closed = negsuc 6
bridge_status BridgeStatus.feature_unavailable = negsuc 7
bridge_status BridgeStatus.feature_not_entitled = negsuc 8

pub data BridgeCapability : Type 0 where
  tcp_bounded_pool tcp_pool_tuning tcp_tls tcp_mutual_tls tls_credential_reload
        tls_external_provider tcp_persistent_single_flight tcp_multiplexing :
      BridgeCapability

unfoldable pub bridge_capability : BridgeCapability → ℕ
bridge_capability BridgeCapability.tcp_bounded_pool = 2 ^ 0
bridge_capability BridgeCapability.tcp_pool_tuning = 2 ^ 1
bridge_capability BridgeCapability.tcp_tls = 2 ^ 2
bridge_capability BridgeCapability.tcp_mutual_tls = 2 ^ 3
bridge_capability BridgeCapability.tls_credential_reload = 2 ^ 4
bridge_capability BridgeCapability.tls_external_provider = 2 ^ 5
bridge_capability BridgeCapability.tcp_persistent_single_flight = 2 ^ 6
bridge_capability BridgeCapability.tcp_multiplexing = 2 ^ 7

pub data BridgeConnectionMode : Type 0 where
  per_exchange bounded_pool persistent_single_flight multiplexing : BridgeConnectionMode

unfoldable pub bridge_connection_mode : BridgeConnectionMode → ℕ
bridge_connection_mode BridgeConnectionMode.per_exchange = 0
bridge_connection_mode BridgeConnectionMode.bounded_pool = 1
bridge_connection_mode BridgeConnectionMode.persistent_single_flight = 2
bridge_connection_mode BridgeConnectionMode.multiplexing = 3

pub data BridgeConnectionField : Type 0 where
  mode max_connections max_requests_per_connection idle_timeout_ms : BridgeConnectionField

unfoldable pub bridge_connection_field : BridgeConnectionField → ℕ
bridge_connection_field BridgeConnectionField.mode = 2 ^ 0
bridge_connection_field BridgeConnectionField.max_connections = 2 ^ 1
bridge_connection_field BridgeConnectionField.max_requests_per_connection = 2 ^ 2
bridge_connection_field BridgeConnectionField.idle_timeout_ms = 2 ^ 3

pub data BridgeSecurity : Type 0 where
  tcp_security_plaintext tcp_security_tls tcp_security_mutual_tls tls_credential_source_file
        tls_reload_graceful tls_reload_drain_existing_connections :
      BridgeSecurity

unfoldable pub bridge_security : BridgeSecurity → ℕ
bridge_security BridgeSecurity.tcp_security_plaintext = 0
bridge_security BridgeSecurity.tcp_security_tls = 1
bridge_security BridgeSecurity.tcp_security_mutual_tls = 2
bridge_security BridgeSecurity.tls_credential_source_file = 1
bridge_security BridgeSecurity.tls_reload_graceful = 0
bridge_security BridgeSecurity.tls_reload_drain_existing_connections = 1

pub data BridgeSecurityField : Type 0 where
  field_mode field_credential_source field_reload_mode field_credential_generation
        field_credential_id field_ca_certificate_file field_identity_certificate_file
        field_private_key_file all_fields :
      BridgeSecurityField

unfoldable pub bridge_security_field : BridgeSecurityField → ℕ
bridge_security_field BridgeSecurityField.field_mode = 2 ^ 0
bridge_security_field BridgeSecurityField.field_credential_source = 2 ^ 1
bridge_security_field BridgeSecurityField.field_reload_mode = 2 ^ 2
bridge_security_field BridgeSecurityField.field_credential_generation = 2 ^ 3
bridge_security_field BridgeSecurityField.field_credential_id = 2 ^ 4
bridge_security_field BridgeSecurityField.field_ca_certificate_file = 2 ^ 5
bridge_security_field BridgeSecurityField.field_identity_certificate_file = 2 ^ 6
bridge_security_field BridgeSecurityField.field_private_key_file = 2 ^ 7
bridge_security_field BridgeSecurityField.all_fields = 2 ^ 8 - 1

pub data BridgeState : Type 0 where
  created started stopped : BridgeState

unfoldable pub bridge_state : BridgeState → ℕ
bridge_state BridgeState.created = 0
bridge_state BridgeState.started = 1
bridge_state BridgeState.stopped = 2

pub data BridgeHostFlag : Type 0 where
  enable_monitor separate_delivered_request_lane : BridgeHostFlag

unfoldable pub bridge_host_flag : BridgeHostFlag → ℕ
bridge_host_flag BridgeHostFlag.enable_monitor = 2 ^ 0
bridge_host_flag BridgeHostFlag.separate_delivered_request_lane = 2 ^ 1

pub data BridgeEndpointFlag : Type 0 where
  local : BridgeEndpointFlag

unfoldable pub bridge_endpoint_flag : BridgeEndpointFlag → ℕ
bridge_endpoint_flag BridgeEndpointFlag.local = 2 ^ 0

pub data BridgeNetworkMode : Type 0 where
  embedded outbound_only node : BridgeNetworkMode

unfoldable pub bridge_network_mode : BridgeNetworkMode → ℕ
bridge_network_mode BridgeNetworkMode.embedded = 1
bridge_network_mode BridgeNetworkMode.outbound_only = 2
bridge_network_mode BridgeNetworkMode.node = 3

pub data BridgeRouteStrategy : Type 0 where
  single_owner : BridgeRouteStrategy

unfoldable pub bridge_route_strategy : BridgeRouteStrategy → ℕ
bridge_route_strategy BridgeRouteStrategy.single_owner = 1

pub data BridgeClientResult : Type 0 where
  response deadletter : BridgeClientResult

unfoldable pub bridge_client_result : BridgeClientResult → ℕ
bridge_client_result BridgeClientResult.response = 1
bridge_client_result BridgeClientResult.deadletter = 2

pub data BridgeDelivery : Type 0 where
  router_default require_local : BridgeDelivery

unfoldable pub bridge_delivery : BridgeDelivery → ℕ
bridge_delivery BridgeDelivery.router_default = 1
bridge_delivery BridgeDelivery.require_local = 3
