-- ===== src/Enums/Runtime.antt =====
-- The enumerations of runtime.h, runtime_startup.h and runtime_distribution.h: the enumerators of each as a data type, and their values.
use coakka_runtime_swift.Prelude.{ℕ, ◌^◌, ℤ, pos, negsuc}

pub data RuntimeEdition : Type 0 where
  unknown community pro enterprise pro_max : RuntimeEdition

unfoldable pub runtime_edition : RuntimeEdition → ℕ
runtime_edition RuntimeEdition.unknown = 0
runtime_edition RuntimeEdition.community = 1
runtime_edition RuntimeEdition.pro = 2
runtime_edition RuntimeEdition.enterprise = 3
runtime_edition RuntimeEdition.pro_max = 4

pub data Capability : Type 0 where
  tcp_bounded_pool tcp_pool_tuning tcp_tls tcp_mutual_tls tls_credential_reload
        tls_external_provider tcp_persistent_single_flight tcp_multiplexing :
      Capability

unfoldable pub capability : Capability → ℕ
capability Capability.tcp_bounded_pool = 2 ^ 0
capability Capability.tcp_pool_tuning = 2 ^ 1
capability Capability.tcp_tls = 2 ^ 2
capability Capability.tcp_mutual_tls = 2 ^ 3
capability Capability.tls_credential_reload = 2 ^ 4
capability Capability.tls_external_provider = 2 ^ 5
capability Capability.tcp_persistent_single_flight = 2 ^ 6
capability Capability.tcp_multiplexing = 2 ^ 7

pub data RuntimeLicenseStatus : Type 0 where
  not_required active grace expired invalid time_untrusted : RuntimeLicenseStatus

unfoldable pub runtime_license_status : RuntimeLicenseStatus → ℕ
runtime_license_status RuntimeLicenseStatus.not_required = 0
runtime_license_status RuntimeLicenseStatus.active = 1
runtime_license_status RuntimeLicenseStatus.grace = 2
runtime_license_status RuntimeLicenseStatus.expired = 3
runtime_license_status RuntimeLicenseStatus.invalid = 4
runtime_license_status RuntimeLicenseStatus.time_untrusted = 5

pub data StartupDefault : Type 0 where
  execution connection io monitor : StartupDefault

unfoldable pub startup_default : StartupDefault → ℕ
startup_default StartupDefault.execution = 2 ^ 0
startup_default StartupDefault.connection = 2 ^ 1
startup_default StartupDefault.io = 2 ^ 2
startup_default StartupDefault.monitor = 2 ^ 3

pub data StartupDeliveryMode : Type 0 where
  framed owned_queue : StartupDeliveryMode

unfoldable pub startup_delivery_mode : StartupDeliveryMode → ℕ
startup_delivery_mode StartupDeliveryMode.framed = 1
startup_delivery_mode StartupDeliveryMode.owned_queue = 2

pub data CoreStatus : Type 0 where
  ok err_invalid_arg err_nomem err_bad_state err_stale_generation err_io err_would_block err_closed
        err_feature_unavailable err_feature_not_entitled :
      CoreStatus

unfoldable pub core_status : CoreStatus → ℤ
core_status CoreStatus.ok = pos 0
core_status CoreStatus.err_invalid_arg = negsuc 0
core_status CoreStatus.err_nomem = negsuc 1
core_status CoreStatus.err_bad_state = negsuc 2
core_status CoreStatus.err_stale_generation = negsuc 3
core_status CoreStatus.err_io = negsuc 4
core_status CoreStatus.err_would_block = negsuc 5
core_status CoreStatus.err_closed = negsuc 6
core_status CoreStatus.err_feature_unavailable = negsuc 7
core_status CoreStatus.err_feature_not_entitled = negsuc 8

pub data RuntimeState : Type 0 where
  created started stopped : RuntimeState

unfoldable pub runtime_state : RuntimeState → ℕ
runtime_state RuntimeState.created = 0
runtime_state RuntimeState.started = 1
runtime_state RuntimeState.stopped = 2

pub data HealthFlag : Type 0 where
  process_alive runtime_started control_snapshot_present dataplane_ready southbound_probe_only
        remote_outbound_saturated drained_route_present :
      HealthFlag

unfoldable pub health_flag : HealthFlag → ℕ
health_flag HealthFlag.process_alive = 2 ^ 0
health_flag HealthFlag.runtime_started = 2 ^ 1
health_flag HealthFlag.control_snapshot_present = 2 ^ 2
health_flag HealthFlag.dataplane_ready = 2 ^ 3
health_flag HealthFlag.southbound_probe_only = 2 ^ 4
health_flag HealthFlag.remote_outbound_saturated = 2 ^ 5
health_flag HealthFlag.drained_route_present = 2 ^ 6

pub data OverloadMode : Type 0 where
  reject drop_expired_first drop_one_way_first : OverloadMode

unfoldable pub overload_mode : OverloadMode → ℕ
overload_mode OverloadMode.reject = 0
overload_mode OverloadMode.drop_expired_first = 1
overload_mode OverloadMode.drop_one_way_first = 2

pub data HostHandlesFlag : Type 0 where
  enable_monitor separate_delivered_request_lane : HostHandlesFlag

unfoldable pub host_handles_flag : HostHandlesFlag → ℕ
host_handles_flag HostHandlesFlag.enable_monitor = 2 ^ 0
host_handles_flag HostHandlesFlag.separate_delivered_request_lane = 2 ^ 1

pub data MonitorEventKind : Type 0 where
  started stopped control_applied control_rejected queue_rejected endpoint_unavailable
        remote_response_forwarded remote_deadletter_forwarded remote_reply_timeout
        late_remote_reply_dropped remote_transport_failed auth_config_applied
        authentication_accepted authentication_denied authorization_accepted authorization_denied
        auth_policy_applied remote_failover_attempt remote_failover_succeeded
        remote_failover_exhausted :
      MonitorEventKind

unfoldable pub monitor_event_kind : MonitorEventKind → ℕ
monitor_event_kind MonitorEventKind.started = 1
monitor_event_kind MonitorEventKind.stopped = 2
monitor_event_kind MonitorEventKind.control_applied = 3
monitor_event_kind MonitorEventKind.control_rejected = 4
monitor_event_kind MonitorEventKind.queue_rejected = 5
monitor_event_kind MonitorEventKind.endpoint_unavailable = 6
monitor_event_kind MonitorEventKind.remote_response_forwarded = 7
monitor_event_kind MonitorEventKind.remote_deadletter_forwarded = 8
monitor_event_kind MonitorEventKind.remote_reply_timeout = 9
monitor_event_kind MonitorEventKind.late_remote_reply_dropped = 10
monitor_event_kind MonitorEventKind.remote_transport_failed = 11
monitor_event_kind MonitorEventKind.auth_config_applied = 12
monitor_event_kind MonitorEventKind.authentication_accepted = 13
monitor_event_kind MonitorEventKind.authentication_denied = 14
monitor_event_kind MonitorEventKind.authorization_accepted = 15
monitor_event_kind MonitorEventKind.authorization_denied = 16
monitor_event_kind MonitorEventKind.auth_policy_applied = 17
monitor_event_kind MonitorEventKind.remote_failover_attempt = 18
monitor_event_kind MonitorEventKind.remote_failover_succeeded = 19
monitor_event_kind MonitorEventKind.remote_failover_exhausted = 20

pub data MonitorQueueScope : Type 0 where
  ingress local_delivery remote_outbound : MonitorQueueScope

unfoldable pub monitor_queue_scope : MonitorQueueScope → ℕ
monitor_queue_scope MonitorQueueScope.ingress = 1
monitor_queue_scope MonitorQueueScope.local_delivery = 2
monitor_queue_scope MonitorQueueScope.remote_outbound = 3

pub data MonitorQueueRejectDetail : Type 0 where
  none queue_full remote_reply_reserve : MonitorQueueRejectDetail

unfoldable pub monitor_queue_reject_detail : MonitorQueueRejectDetail → ℕ
monitor_queue_reject_detail MonitorQueueRejectDetail.none = 0
monitor_queue_reject_detail MonitorQueueRejectDetail.queue_full = 1
monitor_queue_reject_detail MonitorQueueRejectDetail.remote_reply_reserve = 2

pub data RuntimeFeature : Type 0 where
  request_pipe control_pipe monitor native_submit control_json remote_transport custom_allocator
        delivered_request_pipe dubbing_jobs topology_snapshot monitor_snapshot event_log auth_types
        auth_config auth_gate auth_policy auth_context route_catalog auth_control_apply
        auth_observe_read auth_discovery_read auth_status_read auth_security_read file_lane
        stream_lane lane_owner_grants :
      RuntimeFeature

unfoldable pub runtime_feature : RuntimeFeature → ℕ
runtime_feature RuntimeFeature.request_pipe = 2 ^ 0
runtime_feature RuntimeFeature.control_pipe = 2 ^ 1
runtime_feature RuntimeFeature.monitor = 2 ^ 2
runtime_feature RuntimeFeature.native_submit = 2 ^ 3
runtime_feature RuntimeFeature.control_json = 2 ^ 4
runtime_feature RuntimeFeature.remote_transport = 2 ^ 5
runtime_feature RuntimeFeature.custom_allocator = 2 ^ 6
runtime_feature RuntimeFeature.delivered_request_pipe = 2 ^ 7
runtime_feature RuntimeFeature.dubbing_jobs = 2 ^ 8
runtime_feature RuntimeFeature.topology_snapshot = 2 ^ 9
runtime_feature RuntimeFeature.monitor_snapshot = 2 ^ 10
runtime_feature RuntimeFeature.event_log = 2 ^ 11
runtime_feature RuntimeFeature.auth_types = 2 ^ 12
runtime_feature RuntimeFeature.auth_config = 2 ^ 13
runtime_feature RuntimeFeature.auth_gate = 2 ^ 14
runtime_feature RuntimeFeature.auth_policy = 2 ^ 15
runtime_feature RuntimeFeature.auth_context = 2 ^ 16
runtime_feature RuntimeFeature.route_catalog = 2 ^ 17
runtime_feature RuntimeFeature.auth_control_apply = 2 ^ 18
runtime_feature RuntimeFeature.auth_observe_read = 2 ^ 19
runtime_feature RuntimeFeature.auth_discovery_read = 2 ^ 20
runtime_feature RuntimeFeature.auth_status_read = 2 ^ 21
runtime_feature RuntimeFeature.auth_security_read = 2 ^ 22
runtime_feature RuntimeFeature.file_lane = 2 ^ 23
runtime_feature RuntimeFeature.stream_lane = 2 ^ 24
runtime_feature RuntimeFeature.lane_owner_grants = 2 ^ 25

pub data RuntimeSurfaceProfile : Type 0 where
  discovery observe event_log control request_driver : RuntimeSurfaceProfile

unfoldable pub runtime_surface_profile : RuntimeSurfaceProfile → ℕ
runtime_surface_profile RuntimeSurfaceProfile.discovery = 1
runtime_surface_profile RuntimeSurfaceProfile.observe = 2
runtime_surface_profile RuntimeSurfaceProfile.event_log = 3
runtime_surface_profile RuntimeSurfaceProfile.control = 4
runtime_surface_profile RuntimeSurfaceProfile.request_driver = 5
