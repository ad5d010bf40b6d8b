-- ===== src/Swift/Errors.antt =====
-- RuntimeModels.swift: what the package throws; NativeRuntimeLibrary.swift: throwIfNativeError.
use coakka_runtime_swift.Prelude.{ℕ, String, if◌then◌else◌}
use coakka_runtime_swift.Status.{Status}
use coakka_runtime_swift.Loader.Library.{is_ok}

-- RuntimeError. The descriptions of a deadletter and of a refused configuration are not modelled.
pub data RuntimeError : Type 0 where
  invalid_argument load_failed timeout : String → RuntimeError
  native_status : Status → String → RuntimeError
  unsupported_abi : ℕ → RuntimeError
  already_started closed : RuntimeError
  deadletter tcp_connection_apply tcp_security_apply : RuntimeError
  resource_limit shutdown contract_violation native_creation_refused : String → RuntimeError
  -- CancellationError of the language
  cancelled : RuntimeError

-- What a throwing function returns.
pub data Result {ℓ} (A : Type ℓ) : Type ℓ where
  value : A → Result A
  thrown : RuntimeError → Result A

-- throwIfNativeError
unfoldable pub throw_if_native_error : Status → String → Result (Unit {0})
throw_if_native_error status operation =
    if is_ok status then value tt else thrown (native_status status operation)
