-- ===== src/Enums/Bridge/Mirrors.antt =====
-- The enumerations that coakka_runtime_bridge.h repeats from the Core headers.
use Prim.Native.Nat.{bit_or}
use coakka_runtime_swift.Prelude.{ℕ, ℤ, pos, List, [], ◌∷◌, AllOf, ◌≡◌, refl}
use coakka_runtime_swift.Enums.Bridge.{
  BridgeStatus, bridge_status, BridgeCapability, bridge_capability, BridgeConnectionMode,
  bridge_connection_mode, BridgeConnectionField, bridge_connection_field, BridgeSecurity,
  bridge_security, BridgeSecurityField, bridge_security_field, BridgeState, bridge_state,
  BridgeHostFlag, bridge_host_flag, BridgeEndpointFlag, bridge_endpoint_flag, BridgeNetworkMode,
  bridge_network_mode, BridgeRouteStrategy, bridge_route_strategy, BridgeClientResult,
  bridge_client_result, BridgeDelivery, bridge_delivery,
}
use coakka_runtime_swift.Enums.Runtime.{
  Capability, CoreStatus, HostHandlesFlag, RuntimeState, capability, core_status, host_handles_flag,
  runtime_state,
}
use coakka_runtime_swift.Enums.Transport.{
  NetworkMode, TcpConnectionField, TcpConnectionMode, TcpSecurityField, TcpSecurityMode,
  TlsCredentialSourceKind, TlsReloadMode, network_mode, tcp_connection_field, tcp_connection_mode,
  tcp_security_field, tcp_security_mode, tls_credential_source_kind, tls_reload_mode,
}
use coakka_runtime_swift.Enums.Client.{
  ClientDeliveryHint, ClientResultKind, EndpointFlag, RouteResolutionStrategy, client_delivery_hint,
  client_result_kind, endpoint_flag, route_resolution_strategy,
}

-- An enumeration of the bridge with the values of the Core's enumerators that it stands for.
pub record Mirror : Type 1 where
  pub Value : Type 0
  pub bridge : Value → ℤ
  pub core : Value → ℤ

abbrev pub Agrees : Mirror → Type 0
Agrees m = (v : m.Value) → m.bridge v ≡ m.core v

-- The Core's values for the enumerators of BridgeStatus.
abbrev core_of_status : BridgeStatus → ℤ
core_of_status BridgeStatus.ok = core_status CoreStatus.ok
core_of_status BridgeStatus.invalid_arg = core_status CoreStatus.err_invalid_arg
core_of_status BridgeStatus.nomem = core_status CoreStatus.err_nomem
core_of_status BridgeStatus.bad_state = core_status CoreStatus.err_bad_state
core_of_status BridgeStatus.stale_generation = core_status CoreStatus.err_stale_generation
core_of_status BridgeStatus.io = core_status CoreStatus.err_io
core_of_status BridgeStatus.would_block = core_status CoreStatus.err_would_block
core_of_status BridgeStatus.closed = core_status CoreStatus.err_closed
core_of_status BridgeStatus.feature_unavailable = core_status CoreStatus.err_feature_unavailable
core_of_status BridgeStatus.feature_not_entitled = core_status CoreStatus.err_feature_not_entitled

abbrev mirror_of_status : Mirror
mirror_of_status = record { Value = BridgeStatus; bridge = bridge_status; core = core_of_status }

mirror_of_status-Agrees : Agrees mirror_of_status
unfolding bridge_status core_status
mirror_of_status-Agrees BridgeStatus.ok = refl
mirror_of_status-Agrees _ = refl

-- The Core's values for the enumerators of BridgeCapability.
abbrev core_of_capability : BridgeCapability → ℕ
core_of_capability BridgeCapability.tcp_bounded_pool = capability Capability.tcp_bounded_pool
core_of_capability BridgeCapability.tcp_pool_tuning = capability Capability.tcp_pool_tuning
core_of_capability BridgeCapability.tcp_tls = capability Capability.tcp_tls
core_of_capability BridgeCapability.tcp_mutual_tls = capability Capability.tcp_mutual_tls
core_of_capability BridgeCapability.tls_credential_reload =
    capability Capability.tls_credential_reload
core_of_capability BridgeCapability.tls_external_provider =
    capability Capability.tls_external_provider
core_of_capability BridgeCapability.tcp_persistent_single_flight =
    capability Capability.tcp_persistent_single_flight
core_of_capability BridgeCapability.tcp_multiplexing = capability Capability.tcp_multiplexing

abbrev mirror_of_capability : Mirror
mirror_of_capability = record {
  Value = BridgeCapability;
  bridge = λ v. pos (bridge_capability v);
  core = λ v. pos (core_of_capability v);
}

mirror_of_capability-Agrees : Agrees mirror_of_capability
unfolding bridge_capability capability
mirror_of_capability-Agrees BridgeCapability.tcp_bounded_pool = refl
mirror_of_capability-Agrees _ = refl

-- The Core's values for the enumerators of BridgeConnectionMode.
abbrev core_of_connection_mode : BridgeConnectionMode → ℕ
core_of_connection_mode BridgeConnectionMode.per_exchange =
    tcp_connection_mode TcpConnectionMode.per_exchange
core_of_connection_mode BridgeConnectionMode.bounded_pool =
    tcp_connection_mode TcpConnectionMode.bounded_pool
core_of_connection_mode BridgeConnectionMode.persistent_single_flight =
    tcp_connection_mode TcpConnectionMode.persistent_single_flight
core_of_connection_mode BridgeConnectionMode.multiplexing =
    tcp_connection_mode TcpConnectionMode.multiplexed

abbrev mirror_of_connection_mode : Mirror
mirror_of_connection_mode = record {
  Value = BridgeConnectionMode;
  bridge = λ v. pos (bridge_connection_mode v);
  core = λ v. pos (core_of_connection_mode v);
}

mirror_of_connection_mode-Agrees : Agrees mirror_of_connection_mode
unfolding bridge_connection_mode tcp_connection_mode
mirror_of_connection_mode-Agrees BridgeConnectionMode.per_exchange = refl
mirror_of_connection_mode-Agrees _ = refl

-- The Core's values for the enumerators of BridgeConnectionField.
abbrev core_of_connection_field : BridgeConnectionField → ℕ
core_of_connection_field BridgeConnectionField.mode = tcp_connection_field TcpConnectionField.mode
core_of_connection_field BridgeConnectionField.max_connections =
    tcp_connection_field TcpConnectionField.max_connections
core_of_connection_field BridgeConnectionField.max_requests_per_connection =
    tcp_connection_field TcpConnectionField.max_requests_per_connection
core_of_connection_field BridgeConnectionField.idle_timeout_ms =
    tcp_connection_field TcpConnectionField.idle_timeout_ms

abbrev mirror_of_connection_field : Mirror
mirror_of_connection_field = record {
  Value = BridgeConnectionField;
  bridge = λ v. pos (bridge_connection_field v);
  core = λ v. pos (core_of_connection_field v);
}

mirror_of_connection_field-Agrees : Agrees mirror_of_connection_field
unfolding bridge_connection_field tcp_connection_field
mirror_of_connection_field-Agrees BridgeConnectionField.mode = refl
mirror_of_connection_field-Agrees _ = refl

-- The Core's values for the enumerators of BridgeSecurity.
abbrev core_of_security : BridgeSecurity → ℕ
core_of_security BridgeSecurity.tcp_security_plaintext = tcp_security_mode TcpSecurityMode.plaintext
core_of_security BridgeSecurity.tcp_security_tls = tcp_security_mode TcpSecurityMode.tls
core_of_security BridgeSecurity.tcp_security_mutual_tls =
    tcp_security_mode TcpSecurityMode.mutual_tls
core_of_security BridgeSecurity.tls_credential_source_file =
    tls_credential_source_kind TlsCredentialSourceKind.file
core_of_security BridgeSecurity.tls_reload_graceful = tls_reload_mode TlsReloadMode.graceful
core_of_security BridgeSecurity.tls_reload_drain_existing_connections =
    tls_reload_mode TlsReloadMode.drain_existing_connections

abbrev mirror_of_security : Mirror
mirror_of_security = record {
  Value = BridgeSecurity;
  bridge = λ v. pos (bridge_security v);
  core = λ v. pos (core_of_security v);
}

mirror_of_security-Agrees : Agrees mirror_of_security
unfolding bridge_security tcp_security_mode tls_credential_source_kind tls_reload_mode
mirror_of_security-Agrees BridgeSecurity.tcp_security_plaintext = refl
mirror_of_security-Agrees _ = refl

-- The Core's values for the enumerators of BridgeSecurityField.
abbrev core_of_security_field : BridgeSecurityField → ℕ
core_of_security_field BridgeSecurityField.field_mode = tcp_security_field TcpSecurityField.mode
core_of_security_field BridgeSecurityField.field_credential_source =
    tcp_security_field TcpSecurityField.credential_source
core_of_security_field BridgeSecurityField.field_reload_mode =
    tcp_security_field TcpSecurityField.reload_mode
core_of_security_field BridgeSecurityField.field_credential_generation =
    tcp_security_field TcpSecurityField.credential_generation
core_of_security_field BridgeSecurityField.field_credential_id =
    tcp_security_field TcpSecurityField.credential_id
core_of_security_field BridgeSecurityField.field_ca_certificate_file =
    tcp_security_field TcpSecurityField.ca_certificate_file
core_of_security_field BridgeSecurityField.field_identity_certificate_file =
    tcp_security_field TcpSecurityField.identity_certificate_file
core_of_security_field BridgeSecurityField.field_private_key_file =
    tcp_security_field TcpSecurityField.private_key_file
core_of_security_field BridgeSecurityField.all_fields =
    bit_or (tcp_security_field TcpSecurityField.mode) (
      bit_or (tcp_security_field TcpSecurityField.credential_source) (
        bit_or (tcp_security_field TcpSecurityField.reload_mode) (
          bit_or (tcp_security_field TcpSecurityField.credential_generation) (
            bit_or (tcp_security_field TcpSecurityField.credential_id) (
              bit_or (tcp_security_field TcpSecurityField.ca_certificate_file) (
                bit_or (tcp_security_field TcpSecurityField.identity_certificate_file)
                  (tcp_security_field TcpSecurityField.private_key_file)))))))

abbrev mirror_of_security_field : Mirror
mirror_of_security_field = record {
  Value = BridgeSecurityField;
  bridge = λ v. pos (bridge_security_field v);
  core = λ v. pos (core_of_security_field v);
}

mirror_of_security_field-Agrees : Agrees mirror_of_security_field
unfolding bridge_security_field tcp_security_field
mirror_of_security_field-Agrees BridgeSecurityField.field_mode = refl
mirror_of_security_field-Agrees _ = refl

-- The Core's values for the enumerators of BridgeState.
abbrev core_of_state : BridgeState → ℕ
core_of_state BridgeState.created = runtime_state RuntimeState.created
core_of_state BridgeState.started = runtime_state RuntimeState.started
core_of_state BridgeState.stopped = runtime_state RuntimeState.stopped

abbrev mirror_of_state : Mirror
mirror_of_state = record {
  Value = BridgeState;
  bridge = λ v. pos (bridge_state v);
  core = λ v. pos (core_of_state v);
}

mirror_of_state-Agrees : Agrees mirror_of_state
unfolding bridge_state runtime_state
mirror_of_state-Agrees BridgeState.created = refl
mirror_of_state-Agrees _ = refl

-- The Core's values for the enumerators of BridgeHostFlag.
abbrev core_of_host_flag : BridgeHostFlag → ℕ
core_of_host_flag BridgeHostFlag.enable_monitor = host_handles_flag HostHandlesFlag.enable_monitor
core_of_host_flag BridgeHostFlag.separate_delivered_request_lane =
    host_handles_flag HostHandlesFlag.separate_delivered_request_lane

abbrev mirror_of_host_flag : Mirror
mirror_of_host_flag = record {
  Value = BridgeHostFlag;
  bridge = λ v. pos (bridge_host_flag v);
  core = λ v. pos (core_of_host_flag v);
}

mirror_of_host_flag-Agrees : Agrees mirror_of_host_flag
unfolding bridge_host_flag host_handles_flag
mirror_of_host_flag-Agrees BridgeHostFlag.enable_monitor = refl
mirror_of_host_flag-Agrees _ = refl

-- The Core's values for the enumerators of BridgeEndpointFlag.
abbrev core_of_endpoint_flag : BridgeEndpointFlag → ℕ
core_of_endpoint_flag BridgeEndpointFlag.local = endpoint_flag EndpointFlag.local

abbrev mirror_of_endpoint_flag : Mirror
mirror_of_endpoint_flag = record {
  Value = BridgeEndpointFlag;
  bridge = λ v. pos (bridge_endpoint_flag v);
  core = λ v. pos (core_of_endpoint_flag v);
}

mirror_of_endpoint_flag-Agrees : Agrees mirror_of_endpoint_flag
unfolding bridge_endpoint_flag endpoint_flag
mirror_of_endpoint_flag-Agrees BridgeEndpointFlag.local = refl

-- The Core's values for the enumerators of BridgeNetworkMode.
abbrev core_of_network_mode : BridgeNetworkMode → ℕ
core_of_network_mode BridgeNetworkMode.embedded = network_mode NetworkMode.embedded
core_of_network_mode BridgeNetworkMode.outbound_only = network_mode NetworkMode.outbound_only
core_of_network_mode BridgeNetworkMode.node = network_mode NetworkMode.node

abbrev mirror_of_network_mode : Mirror
mirror_of_network_mode = record {
  Value = BridgeNetworkMode;
  bridge = λ v. pos (bridge_network_mode v);
  core = λ v. pos (core_of_network_mode v);
}

mirror_of_network_mode-Agrees : Agrees mirror_of_network_mode
unfolding bridge_network_mode network_mode
mirror_of_network_mode-Agrees BridgeNetworkMode.embedded = refl
mirror_of_network_mode-Agrees _ = refl

-- The Core's values for the enumerators of BridgeRouteStrategy.
abbrev core_of_route_strategy : BridgeRouteStrategy → ℕ
core_of_route_strategy BridgeRouteStrategy.single_owner =
    route_resolution_strategy RouteResolutionStrategy.single_owner

abbrev mirror_of_route_strategy : Mirror
mirror_of_route_strategy = record {
  Value = BridgeRouteStrategy;
  bridge = λ v. pos (bridge_route_strategy v);
  core = λ v. pos (core_of_route_strategy v);
}

mirror_of_route_strategy-Agrees : Agrees mirror_of_route_strategy
unfolding bridge_route_strategy route_resolution_strategy
mirror_of_route_strategy-Agrees BridgeRouteStrategy.single_owner = refl

-- The Core's values for the enumerators of BridgeClientResult.
abbrev core_of_client_result : BridgeClientResult → ℕ
core_of_client_result BridgeClientResult.response = client_result_kind ClientResultKind.response
core_of_client_result BridgeClientResult.deadletter = client_result_kind ClientResultKind.deadletter

abbrev mirror_of_client_result : Mirror
mirror_of_client_result = record {
  Value = BridgeClientResult;
  bridge = λ v. pos (bridge_client_result v);
  core = λ v. pos (core_of_client_result v);
}

mirror_of_client_result-Agrees : Agrees mirror_of_client_result
unfolding bridge_client_result client_result_kind
mirror_of_client_result-Agrees BridgeClientResult.response = refl
mirror_of_client_result-Agrees _ = refl

-- The Core's values for the enumerators of BridgeDelivery.
abbrev core_of_delivery : BridgeDelivery → ℕ
core_of_delivery BridgeDelivery.router_default =
    client_delivery_hint ClientDeliveryHint.router_default
core_of_delivery BridgeDelivery.require_local =
    client_delivery_hint ClientDeliveryHint.require_local

abbrev mirror_of_delivery : Mirror
mirror_of_delivery = record {
  Value = BridgeDelivery;
  bridge = λ v. pos (bridge_delivery v);
  core = λ v. pos (core_of_delivery v);
}

mirror_of_delivery-Agrees : Agrees mirror_of_delivery
unfolding bridge_delivery client_delivery_hint
mirror_of_delivery-Agrees BridgeDelivery.router_default = refl
mirror_of_delivery-Agrees _ = refl

abbrev mirrors : List Mirror
mirrors =
    mirror_of_status ∷ mirror_of_capability ∷ mirror_of_connection_mode ∷ mirror_of_connection_field
    ∷ mirror_of_security ∷ mirror_of_security_field ∷ mirror_of_state ∷ mirror_of_host_flag
    ∷ mirror_of_endpoint_flag ∷ mirror_of_network_mode ∷ mirror_of_route_strategy
    ∷ mirror_of_client_result ∷ mirror_of_delivery ∷ []

-- Every enumerator that the bridge header repeats from the Core headers has the value that the Core
-- headers give to it, under the Core's name for it, and its mask of all security fields is the
-- union of the Core's.
mirrors-Agree : AllOf Agrees mirrors
mirrors-Agree = (
  mirror_of_status-Agrees,
  (
    mirror_of_capability-Agrees,
    (
      mirror_of_connection_mode-Agrees,
      (
        mirror_of_connection_field-Agrees,
        (
          mirror_of_security-Agrees,
          (
            mirror_of_security_field-Agrees,
            (
              mirror_of_state-Agrees,
              (
                mirror_of_host_flag-Agrees,
                (
                  mirror_of_endpoint_flag-Agrees,
                  (
                    mirror_of_network_mode-Agrees,
                    (
                      mirror_of_route_strategy-Agrees,
                      (mirror_of_client_result-Agrees, (mirror_of_delivery-Agrees, tt)),
                    ),
                  ),
                ),
              ),
            ),
          ),
        ),
      ),
    ),
  ),
)
