-- ===== src/Bridge/Inspect/Bounded.antt =====
-- Safety of the functions of Bridge/Inspect.antt: the names of their direct calls.
use coakka_runtime_swift.Prelude.{ℕ, refl, none, some}
use coakka_runtime_swift.Core.Records.{Ptr}
use coakka_runtime_swift.Core.Slot.{Slot, symbol_name}
use coakka_runtime_swift.Machine.Heap.{World, Host}
use coakka_runtime_swift.Bridge.Spec.{IsOpen, perform}
use coakka_runtime_swift.Bridge.Safety.{Bound, Safe, Complete, perform-Safe, same-Safe}
use coakka_runtime_swift.Bridge.Inspect.Ops.{
  Op, run, get_abi_version, get_info, get_config, get_health, get_stats, get_capabilities,
  apply_tcp_connection_options, get_tcp_connection_config, apply_tcp_security_options,
  get_tcp_security_info, get_startup_config, get_delivery_config, transport_apply_reason_name,
  deadletter_reason_name,
}
use coakka_runtime_swift.Bridge.Inspect.Refines.{spec, inspect-perform}

module _ (host : Host) (handle : Ptr) where
  pub inspect-Bound : (o : Op) → Bound host handle (spec o)
  unfolding symbol_name
  inspect-Bound get_abi_version = (Slot.get_abi_version, refl)
  inspect-Bound (get_info none) = tt
  inspect-Bound (get_info (some out)) = (Slot.get_info, refl)
  inspect-Bound (get_config (some runtime) (some out)) = (Slot.get_config, refl)
  inspect-Bound (get_config _ out) = tt
  inspect-Bound (get_health (some runtime) (some _)) = (Slot.get_health, refl)
  inspect-Bound (get_health _ out) = tt
  inspect-Bound (get_stats (some runtime) (some _)) = (Slot.get_stats, refl)
  inspect-Bound (get_stats _ out) = tt
  inspect-Bound (get_capabilities (some _)) = (Slot.get_capabilities, refl)
  inspect-Bound (get_capabilities none) = tt
  inspect-Bound (apply_tcp_connection_options (some runtime) (some options) (some out)) =
      (Slot.apply_tcp_connection_options, refl)
  inspect-Bound (apply_tcp_connection_options _ _ out) = tt
  inspect-Bound (get_tcp_connection_config (some runtime) (some _)) =
      (Slot.get_tcp_connection_config, refl)
  inspect-Bound (get_tcp_connection_config _ out) = tt
  inspect-Bound (apply_tcp_security_options (some runtime) (some options) (some out)) =
      (Slot.apply_tcp_security_options, refl)
  inspect-Bound (apply_tcp_security_options _ _ out) = tt
  inspect-Bound (get_tcp_security_info (some runtime) (some _)) = (Slot.get_tcp_security_info, refl)
  inspect-Bound (get_tcp_security_info _ out) = tt
  inspect-Bound (get_startup_config runtime out) = (Slot.get_startup, refl)
  inspect-Bound (get_delivery_config runtime out) = (Slot.get_delivery, refl)
  inspect-Bound (transport_apply_reason_name reason) = (Slot.transport_apply_reason_name, refl)
  inspect-Bound (deadletter_reason_name reason) = (Slot.deadletter_reason_name, refl)

  pub inspect-Safe :
      (p : ℕ) (w : World) (o : Op)
      → IsOpen host handle p w
      → Complete host handle
      → Safe host handle (run host (some p) o) w
  inspect-Safe p w o open_p complete =
      same-Safe host handle (run host (some p) o) (perform host handle (spec o)) w
        (inspect-perform host handle p w open_p o)
        (perform-Safe host handle (spec o) w complete (inspect-Bound o))
