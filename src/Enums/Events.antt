-- ===== src/Enums/Events.antt =====
-- The enumerations of the event service headers: the enumerators of each as a data type, and their values.
use coakka_runtime_swift.Prelude.{ℕ, ℤ, pos, negsuc}

pub data EventAdminApplyAction : Type 0 where
  upsert delete : EventAdminApplyAction

unfoldable pub event_admin_apply_action : EventAdminApplyAction → ℕ
event_admin_apply_action EventAdminApplyAction.upsert = 0
event_admin_apply_action EventAdminApplyAction.delete = 1

pub data EventAdminApplyDisposition : Type 0 where
  accepted rejected applied failed : EventAdminApplyDisposition

unfoldable pub event_admin_apply_disposition : EventAdminApplyDisposition → ℕ
event_admin_apply_disposition EventAdminApplyDisposition.accepted = 0
event_admin_apply_disposition EventAdminApplyDisposition.rejected = 1
event_admin_apply_disposition EventAdminApplyDisposition.applied = 2
event_admin_apply_disposition EventAdminApplyDisposition.failed = 3

pub data EventCheckpointReplaceMode : Type 0 where
  dry_run_only require_forward_contiguous require_forward_explicit allow_non_monotonic_rewind :
      EventCheckpointReplaceMode

unfoldable pub event_checkpoint_replace_mode : EventCheckpointReplaceMode → ℕ
event_checkpoint_replace_mode EventCheckpointReplaceMode.dry_run_only = 0
event_checkpoint_replace_mode EventCheckpointReplaceMode.require_forward_contiguous = 1
event_checkpoint_replace_mode EventCheckpointReplaceMode.require_forward_explicit = 2
event_checkpoint_replace_mode EventCheckpointReplaceMode.allow_non_monotonic_rewind = 3

pub data EventOperatorJobState : Type 0 where
  created running succeeded failed cancelled : EventOperatorJobState

unfoldable pub event_operator_job_state : EventOperatorJobState → ℕ
event_operator_job_state EventOperatorJobState.created = 0
event_operator_job_state EventOperatorJobState.running = 1
event_operator_job_state EventOperatorJobState.succeeded = 2
event_operator_job_state EventOperatorJobState.failed = 3
event_operator_job_state EventOperatorJobState.cancelled = 4

pub data EventReplayTargetKind : Type 0 where
  durable_subscription ephemeral_subscription projection_handler deadletter_export :
      EventReplayTargetKind

unfoldable pub event_replay_target_kind : EventReplayTargetKind → ℕ
event_replay_target_kind EventReplayTargetKind.durable_subscription = 0
event_replay_target_kind EventReplayTargetKind.ephemeral_subscription = 1
event_replay_target_kind EventReplayTargetKind.projection_handler = 2
event_replay_target_kind EventReplayTargetKind.deadletter_export = 3

pub data EventOperatorAuditAction : Type 0 where
  replay_begin replay_cancel subscription_pause subscription_resume checkpoint_replace
        deadletter_export :
      EventOperatorAuditAction

unfoldable pub event_operator_audit_action : EventOperatorAuditAction → ℕ
event_operator_audit_action EventOperatorAuditAction.replay_begin = 0
event_operator_audit_action EventOperatorAuditAction.replay_cancel = 1
event_operator_audit_action EventOperatorAuditAction.subscription_pause = 2
event_operator_audit_action EventOperatorAuditAction.subscription_resume = 3
event_operator_audit_action EventOperatorAuditAction.checkpoint_replace = 4
event_operator_audit_action EventOperatorAuditAction.deadletter_export = 5

pub data EventOperatorAuditDisposition : Type 0 where
  allowed rejected applied failed : EventOperatorAuditDisposition

unfoldable pub event_operator_audit_disposition : EventOperatorAuditDisposition → ℕ
event_operator_audit_disposition EventOperatorAuditDisposition.allowed = 0
event_operator_audit_disposition EventOperatorAuditDisposition.rejected = 1
event_operator_audit_disposition EventOperatorAuditDisposition.applied = 2
event_operator_audit_disposition EventOperatorAuditDisposition.failed = 3

pub data EventServiceStatus : Type 0 where
  ok err_invalid_arg err_nomem err_bad_state err_not_implemented err_io err_would_block err_closed :
      EventServiceStatus

unfoldable pub event_service_status : EventServiceStatus → ℤ
event_service_status EventServiceStatus.ok = pos 0
event_service_status EventServiceStatus.err_invalid_arg = negsuc 0
event_service_status EventServiceStatus.err_nomem = negsuc 1
event_service_status EventServiceStatus.err_bad_state = negsuc 2
event_service_status EventServiceStatus.err_not_implemented = negsuc 3
event_service_status EventServiceStatus.err_io = negsuc 4
event_service_status EventServiceStatus.err_would_block = negsuc 5
event_service_status EventServiceStatus.err_closed = negsuc 6

pub data EventCursorKind : Type 0 where
  latest beginning event_id time_range logical_token : EventCursorKind

unfoldable pub event_cursor_kind : EventCursorKind → ℕ
event_cursor_kind EventCursorKind.latest = 0
event_cursor_kind EventCursorKind.beginning = 1
event_cursor_kind EventCursorKind.event_id = 2
event_cursor_kind EventCursorKind.time_range = 3
event_cursor_kind EventCursorKind.logical_token = 4

pub data EventDeliveryPolicy : Type 0 where
  at_least_once serial_per_key best_effort_notify : EventDeliveryPolicy

unfoldable pub event_delivery_policy : EventDeliveryPolicy → ℕ
event_delivery_policy EventDeliveryPolicy.at_least_once = 0
event_delivery_policy EventDeliveryPolicy.serial_per_key = 1
event_delivery_policy EventDeliveryPolicy.best_effort_notify = 2

pub data EventAckPolicy : Type 0 where
  explicit on_handler_success on_delivery_accept : EventAckPolicy

unfoldable pub event_ack_policy : EventAckPolicy → ℕ
event_ack_policy EventAckPolicy.explicit = 0
event_ack_policy EventAckPolicy.on_handler_success = 1
event_ack_policy EventAckPolicy.on_delivery_accept = 2

pub data EventSubscriptionMode : Type 0 where
  ephemeral durable : EventSubscriptionMode

unfoldable pub event_subscription_mode : EventSubscriptionMode → ℕ
event_subscription_mode EventSubscriptionMode.ephemeral = 0
event_subscription_mode EventSubscriptionMode.durable = 1

pub data EventReplayPolicy : Type 0 where
  never if_cursor_present always : EventReplayPolicy

unfoldable pub event_replay_policy : EventReplayPolicy → ℕ
event_replay_policy EventReplayPolicy.never = 0
event_replay_policy EventReplayPolicy.if_cursor_present = 1
event_replay_policy EventReplayPolicy.always = 2

pub data EventPrincipalKind : Type 0 where
  anonymous application_service human_operator automation_agent platform_admin : EventPrincipalKind

unfoldable pub event_principal_kind : EventPrincipalKind → ℕ
event_principal_kind EventPrincipalKind.anonymous = 0
event_principal_kind EventPrincipalKind.application_service = 1
event_principal_kind EventPrincipalKind.human_operator = 2
event_principal_kind EventPrincipalKind.automation_agent = 3
event_principal_kind EventPrincipalKind.platform_admin = 4

pub data EventCapability : Type 0 where
  publish_event read_stream consume_ephemeral consume_durable inspect_lag inspect_deadletter
        inspect_audit begin_replay cancel_replay manage_stream_config manage_subscription_config
        pause_subscription resume_subscription replace_checkpoint :
      EventCapability

unfoldable pub event_capability : EventCapability → ℕ
event_capability EventCapability.publish_event = 0
event_capability EventCapability.read_stream = 1
event_capability EventCapability.consume_ephemeral = 2
event_capability EventCapability.consume_durable = 3
event_capability EventCapability.inspect_lag = 4
event_capability EventCapability.inspect_deadletter = 5
event_capability EventCapability.inspect_audit = 6
event_capability EventCapability.begin_replay = 7
event_capability EventCapability.cancel_replay = 8
event_capability EventCapability.manage_stream_config = 9
event_capability EventCapability.manage_subscription_config = 10
event_capability EventCapability.pause_subscription = 11
event_capability EventCapability.resume_subscription = 12
event_capability EventCapability.replace_checkpoint = 13

pub data EventAuthzDisposition : Type 0 where
  allowed denied_missing_principal denied_insufficient_capability denied_scope_mismatch
        denied_resource_disabled denied_unsafe_raw_auth_material :
      EventAuthzDisposition

unfoldable pub event_authz_disposition : EventAuthzDisposition → ℕ
event_authz_disposition EventAuthzDisposition.allowed = 0
event_authz_disposition EventAuthzDisposition.denied_missing_principal = 1
event_authz_disposition EventAuthzDisposition.denied_insufficient_capability = 2
event_authz_disposition EventAuthzDisposition.denied_scope_mismatch = 3
event_authz_disposition EventAuthzDisposition.denied_resource_disabled = 4
event_authz_disposition EventAuthzDisposition.denied_unsafe_raw_auth_material = 5
