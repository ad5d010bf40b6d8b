-- ===== src/Enums/Auth.antt =====
-- The enumerations of runtime_auth.h and dubbing.h: the enumerators of each as a data type, and their values.
use coakka_runtime_swift.Prelude.{ℕ}

pub data DubbingJobState : Type 0 where
  none queued running succeeded failed cancelled : DubbingJobState

unfoldable pub dubbing_job_state : DubbingJobState → ℕ
dubbing_job_state DubbingJobState.none = 0
dubbing_job_state DubbingJobState.queued = 1
dubbing_job_state DubbingJobState.running = 2
dubbing_job_state DubbingJobState.succeeded = 3
dubbing_job_state DubbingJobState.failed = 4
dubbing_job_state DubbingJobState.cancelled = 5

pub data DubbingJobStage : Type 0 where
  none preflight asr translation tts mux publish : DubbingJobStage

unfoldable pub dubbing_job_stage : DubbingJobStage → ℕ
dubbing_job_stage DubbingJobStage.none = 0
dubbing_job_stage DubbingJobStage.preflight = 1
dubbing_job_stage DubbingJobStage.asr = 2
dubbing_job_stage DubbingJobStage.translation = 3
dubbing_job_stage DubbingJobStage.tts = 4
dubbing_job_stage DubbingJobStage.mux = 5
dubbing_job_stage DubbingJobStage.publish = 6

pub data RuntimeAuthRole : Type 0 where
  none viewer operator admin : RuntimeAuthRole

unfoldable pub runtime_auth_role : RuntimeAuthRole → ℕ
runtime_auth_role RuntimeAuthRole.none = 0
runtime_auth_role RuntimeAuthRole.viewer = 1
runtime_auth_role RuntimeAuthRole.operator = 2
runtime_auth_role RuntimeAuthRole.admin = 3

pub data RuntimeAuthResultCode : Type 0 where
  ok unauthorized forbidden bad_request bad_state : RuntimeAuthResultCode

unfoldable pub runtime_auth_result_code : RuntimeAuthResultCode → ℕ
runtime_auth_result_code RuntimeAuthResultCode.ok = 0
runtime_auth_result_code RuntimeAuthResultCode.unauthorized = 1
runtime_auth_result_code RuntimeAuthResultCode.forbidden = 2
runtime_auth_result_code RuntimeAuthResultCode.bad_request = 3
runtime_auth_result_code RuntimeAuthResultCode.bad_state = 4

pub data RuntimeAuthScope : Type 0 where
  observe control admin : RuntimeAuthScope

unfoldable pub runtime_auth_scope : RuntimeAuthScope → ℕ
runtime_auth_scope RuntimeAuthScope.observe = 1
runtime_auth_scope RuntimeAuthScope.control = 2
runtime_auth_scope RuntimeAuthScope.admin = 3

pub data RuntimeAuthAccessKind : Type 0 where
  observe control : RuntimeAuthAccessKind

unfoldable pub runtime_auth_access_kind : RuntimeAuthAccessKind → ℕ
runtime_auth_access_kind RuntimeAuthAccessKind.observe = 1
runtime_auth_access_kind RuntimeAuthAccessKind.control = 2
