-- ===== src/Enums/Client.antt =====
-- The enumerations of client.h, control.h and transport.h: the enumerators of each as a data type, and their values.
use coakka_runtime_swift.Prelude.{ℕ, ◌^◌}

pub data DeadletterReason : Type 0 where
  unspecified no_active_snapshot route_miss no_responsible_host queue_rejected local_handoff_failed
        delivery_failed remote_transport_failed runtime_stopped invalid_envelope
        endpoint_unavailable remote_reply_timeout locality_mismatch expired_before_delivery
        one_way_dropped_by_policy remote_transport_security_failed :
      DeadletterReason

unfoldable pub deadletter_reason : DeadletterReason → ℕ
deadletter_reason DeadletterReason.unspecified = 0
deadletter_reason DeadletterReason.no_active_snapshot = 1
deadletter_reason DeadletterReason.route_miss = 2
deadletter_reason DeadletterReason.no_responsible_host = 3
deadletter_reason DeadletterReason.queue_rejected = 4
deadletter_reason DeadletterReason.local_handoff_failed = 5
deadletter_reason DeadletterReason.delivery_failed = 6
deadletter_reason DeadletterReason.remote_transport_failed = 7
deadletter_reason DeadletterReason.runtime_stopped = 8
deadletter_reason DeadletterReason.invalid_envelope = 9
deadletter_reason DeadletterReason.endpoint_unavailable = 10
deadletter_reason DeadletterReason.remote_reply_timeout = 11
deadletter_reason DeadletterReason.locality_mismatch = 12
deadletter_reason DeadletterReason.expired_before_delivery = 13
deadletter_reason DeadletterReason.one_way_dropped_by_policy = 14
deadletter_reason DeadletterReason.remote_transport_security_failed = 15

pub data RouteResolutionStrategy : Type 0 where
  unspecified single_owner weighted_round_robin rendezvous_hash : RouteResolutionStrategy

unfoldable pub route_resolution_strategy : RouteResolutionStrategy → ℕ
route_resolution_strategy RouteResolutionStrategy.unspecified = 0
route_resolution_strategy RouteResolutionStrategy.single_owner = 1
route_resolution_strategy RouteResolutionStrategy.weighted_round_robin = 2
route_resolution_strategy RouteResolutionStrategy.rendezvous_hash = 3

pub data RouteFlag : Type 0 where
  none prefer_local : RouteFlag

unfoldable pub route_flag : RouteFlag → ℕ
route_flag RouteFlag.none = 0
route_flag RouteFlag.prefer_local = 2 ^ 0

pub data EndpointFlag : Type 0 where
  none local unavailable : EndpointFlag

unfoldable pub endpoint_flag : EndpointFlag → ℕ
endpoint_flag EndpointFlag.none = 0
endpoint_flag EndpointFlag.local = 2 ^ 0
endpoint_flag EndpointFlag.unavailable = 2 ^ 1

pub data ClientResultKind : Type 0 where
  none response deadletter : ClientResultKind

unfoldable pub client_result_kind : ClientResultKind → ℕ
client_result_kind ClientResultKind.none = 0
client_result_kind ClientResultKind.response = 1
client_result_kind ClientResultKind.deadletter = 2

pub data ClientDeliveryHint : Type 0 where
  unspecified router_default prefer_local require_local require_remote : ClientDeliveryHint

unfoldable pub client_delivery_hint : ClientDeliveryHint → ℕ
client_delivery_hint ClientDeliveryHint.unspecified = 0
client_delivery_hint ClientDeliveryHint.router_default = 1
client_delivery_hint ClientDeliveryHint.prefer_local = 2
client_delivery_hint ClientDeliveryHint.require_local = 3
client_delivery_hint ClientDeliveryHint.require_remote = 4

pub data ClientEnvelopeKind : Type 0 where
  request response : ClientEnvelopeKind

unfoldable pub client_envelope_kind : ClientEnvelopeKind → ℕ
client_envelope_kind ClientEnvelopeKind.request = 1
client_envelope_kind ClientEnvelopeKind.response = 2
