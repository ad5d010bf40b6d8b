-- ===== src/Enums/Messages.antt =====
-- The enumerations of message_value.h and runtime_event_log.h: the enumerators of each as a data type, and their values.
use coakka_runtime_swift.Prelude.{ℕ, ◌^◌}

pub data FailureDomain : Type 0 where
  domain_unknown connectivity security protocol pressure lifecycle resource : FailureDomain

unfoldable pub failure_domain : FailureDomain → ℕ
failure_domain FailureDomain.domain_unknown = 0
failure_domain FailureDomain.connectivity = 1
failure_domain FailureDomain.security = 2
failure_domain FailureDomain.protocol = 3
failure_domain FailureDomain.pressure = 4
failure_domain FailureDomain.lifecycle = 5
failure_domain FailureDomain.resource = 6

pub data FailurePhase : Type 0 where
  phase_unknown config acquire connect handshake write read shutdown : FailurePhase

unfoldable pub failure_phase : FailurePhase → ℕ
failure_phase FailurePhase.phase_unknown = 0
failure_phase FailurePhase.config = 1
failure_phase FailurePhase.acquire = 2
failure_phase FailurePhase.connect = 3
failure_phase FailurePhase.handshake = 4
failure_phase FailurePhase.write = 5
failure_phase FailurePhase.read = 6
failure_phase FailurePhase.shutdown = 7

pub data FailureCode : Type 0 where
  code_unknown connect_failed adapter_unavailable pool_busy negotiation_failed exchange_failed
        response_timeout response_malformed response_missing allocation_failed peer_cert_expired
        frame_budget_exhausted frame_too_large tls_config_invalid tls_handshake_failed
        peer_cert_untrusted peer_identity_mismatch client_cert_required credential_retired :
      FailureCode

unfoldable pub failure_code : FailureCode → ℕ
failure_code FailureCode.code_unknown = 0
failure_code FailureCode.connect_failed = 1
failure_code FailureCode.adapter_unavailable = 2
failure_code FailureCode.pool_busy = 3
failure_code FailureCode.negotiation_failed = 4
failure_code FailureCode.exchange_failed = 5
failure_code FailureCode.response_timeout = 6
failure_code FailureCode.response_malformed = 7
failure_code FailureCode.response_missing = 8
failure_code FailureCode.allocation_failed = 9
failure_code FailureCode.peer_cert_expired = 10
failure_code FailureCode.frame_budget_exhausted = 11
failure_code FailureCode.frame_too_large = 12
failure_code FailureCode.tls_config_invalid = 13
failure_code FailureCode.tls_handshake_failed = 14
failure_code FailureCode.peer_cert_untrusted = 15
failure_code FailureCode.peer_identity_mismatch = 16
failure_code FailureCode.client_cert_required = 17
failure_code FailureCode.credential_retired = 18

pub data FailureDelivery : Type 0 where
  delivery_unknown not_delivered delivery_ambiguous : FailureDelivery

unfoldable pub failure_delivery : FailureDelivery → ℕ
failure_delivery FailureDelivery.delivery_unknown = 0
failure_delivery FailureDelivery.not_delivered = 1
failure_delivery FailureDelivery.delivery_ambiguous = 2

pub data FailureScope : Type 0 where
  scope_unknown local_profile endpoint connection : FailureScope

unfoldable pub failure_scope : FailureScope → ℕ
failure_scope FailureScope.scope_unknown = 0
failure_scope FailureScope.local_profile = 1
failure_scope FailureScope.endpoint = 2
failure_scope FailureScope.connection = 3

pub data EventLogFlag : Type 0 where
  has_events missed_events has_more cursor_advanced : EventLogFlag

unfoldable pub event_log_flag : EventLogFlag → ℕ
event_log_flag EventLogFlag.has_events = 2 ^ 0
event_log_flag EventLogFlag.missed_events = 2 ^ 1
event_log_flag EventLogFlag.has_more = 2 ^ 2
event_log_flag EventLogFlag.cursor_advanced = 2 ^ 3
