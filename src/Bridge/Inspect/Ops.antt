-- ===== src/Bridge/Inspect/Ops.antt =====
-- The functions of Bridge/Inspect.antt as requests, so that a statement can range over all of them.
use coakka_runtime_swift.Prelude.{ℕ, Option, none}
use coakka_runtime_swift.Status.{Status, invalid_arg}
use coakka_runtime_swift.Core.Records.{Ptr, Output, SwiftRuntimeInfo, SwiftConfigView}
use coakka_runtime_swift.Machine.Heap.{Host}
use coakka_runtime_swift.Machine.Effects.{M}
use coakka_runtime_swift.Bridge.Access.{CText, static_text}
use coakka_runtime_swift.Bridge.Inspect

pub data Op : Type 0 where
  get_abi_version : Op
  get_info : Option SwiftRuntimeInfo → Op
  get_config : Ptr → Option SwiftConfigView → Op
  get_health : Ptr → Option Output → Op
  get_stats : Ptr → Option Output → Op
  get_capabilities : Option Output → Op
  apply_tcp_connection_options : Ptr → Ptr → Option Output → Op
  get_tcp_connection_config : Ptr → Option Output → Op
  apply_tcp_security_options : Ptr → Ptr → Option Output → Op
  get_tcp_security_info : Ptr → Option Output → Op
  get_startup_config : Ptr → Option Output → Op
  get_delivery_config : Ptr → Option Output → Op
  transport_apply_reason_name : ℕ → Op
  deadletter_reason_name : ℕ → Op

abbrev pub Result : Op → Type 0
Result get_abi_version = ℕ
Result (get_info _) = Status × Option SwiftRuntimeInfo
Result (get_config _ _) = Status × Option SwiftConfigView
Result (get_health _ _) = Status × Option Output
Result (get_stats _ _) = Status × Option Output
Result (get_capabilities _) = Status × Option Output
Result (apply_tcp_connection_options _ _ _) = Status × Option Output
Result (get_tcp_connection_config _ _) = Status × Option Output
Result (apply_tcp_security_options _ _ _) = Status × Option Output
Result (get_tcp_security_info _ _) = Status × Option Output
Result (get_startup_config _ _) = Status × Option Output
Result (get_delivery_config _ _) = Status × Option Output
Result (transport_apply_reason_name _) = CText
Result (deadletter_reason_name _) = Ptr

unfoldable pub run : Host → Ptr → (o : Op) → M (Result o)
run host library get_abi_version = Inspect.get_abi_version host library
run host library (get_info out) = Inspect.get_info host library out
run host library (get_config runtime out) = Inspect.get_config host library runtime out
run host library (get_health runtime out) = Inspect.get_health host library runtime out
run host library (get_stats runtime out) = Inspect.get_stats host library runtime out
run host library (get_capabilities out) = Inspect.get_capabilities host library out
run host library (apply_tcp_connection_options runtime options out) =
    Inspect.apply_tcp_connection_options host library runtime options out
run host library (get_tcp_connection_config runtime out) =
    Inspect.get_tcp_connection_config host library runtime out
run host library (apply_tcp_security_options runtime options out) =
    Inspect.apply_tcp_security_options host library runtime options out
run host library (get_tcp_security_info runtime out) =
    Inspect.get_tcp_security_info host library runtime out
run host library (get_startup_config runtime out) =
    Inspect.get_startup_config host library runtime out
run host library (get_delivery_config runtime out) =
    Inspect.get_delivery_config host library runtime out
run host library (transport_apply_reason_name reason) =
    Inspect.transport_apply_reason_name host library reason
run host library (deadletter_reason_name reason) =
    Inspect.deadletter_reason_name host library reason

-- The result for a NULL library.
abbrev pub absent : (o : Op) → Result o
absent get_abi_version = 0
absent (get_info out) = (invalid_arg, out)
absent (get_config _ out) = (invalid_arg, out)
absent (get_health _ out) = (invalid_arg, out)
absent (get_stats _ out) = (invalid_arg, out)
absent (get_capabilities out) = (invalid_arg, out)
absent (apply_tcp_connection_options _ _ out) = (invalid_arg, out)
absent (get_tcp_connection_config _ out) = (invalid_arg, out)
absent (apply_tcp_security_options _ _ out) = (invalid_arg, out)
absent (get_tcp_security_info _ out) = (invalid_arg, out)
absent (get_startup_config _ out) = (invalid_arg, out)
absent (get_delivery_config _ out) = (invalid_arg, out)
absent (transport_apply_reason_name _) = static_text "UNKNOWN"
absent (deadletter_reason_name _) = none
