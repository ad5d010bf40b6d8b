-- ===== src/Bridge/Lifecycle/Bounded.antt =====
-- Safety of the functions of Bridge/Lifecycle.antt: the names of their direct calls.
use coakka_runtime_swift.Prelude.{ℕ, refl, none, some}
use coakka_runtime_swift.Core.Records.{Ptr}
use coakka_runtime_swift.Core.Slot.{Slot, symbol_name}
use coakka_runtime_swift.Machine.Heap.{World, Host}
use coakka_runtime_swift.Bridge.Spec.{IsOpen, perform}
use coakka_runtime_swift.Bridge.Safety.{Bound, Safe, Complete, perform-Safe, same-Safe}
use coakka_runtime_swift.Bridge.Lifecycle.Ops.{
  Op, run, create_native, create, destroy, apply_network, get_host_handles, host_handles_close,
  start, stop, apply_snapshot, submit_envelope,
}
use coakka_runtime_swift.Bridge.Lifecycle.Refines.{spec, lifecycle-perform}

module _ (host : Host) (handle : Ptr) where
  pub lifecycle-Bound : (o : Op) → Bound host handle (spec o)
  unfolding symbol_name
  lifecycle-Bound (create_native system node_id strict capacity options none) = tt
  lifecycle-Bound (create_native system node_id strict capacity options (some _)) =
      (Slot.create_native, refl)
  lifecycle-Bound (create system_name node_id strict_no_drop queue_capacity) =
      (Slot.runtime_create, refl)
  lifecycle-Bound (destroy none) = tt
  lifecycle-Bound (destroy (some runtime)) = (Slot.runtime_destroy, refl)
  lifecycle-Bound (apply_network none mode bind_host bind_port advertise_host advertise_port) = tt
  lifecycle-Bound
        (apply_network (some runtime) mode bind_host bind_port advertise_host advertise_port) =
      (Slot.apply_network_options, refl)
  lifecycle-Bound (get_host_handles (some runtime) flags (some _)) = (Slot.get_host_handles, refl)
  lifecycle-Bound (get_host_handles _ flags out) = tt
  lifecycle-Bound (host_handles_close none) = tt
  lifecycle-Bound (host_handles_close (some handles)) = (Slot.close_handles, refl)
  lifecycle-Bound (start none) = tt
  lifecycle-Bound (start (some runtime)) = (Slot.runtime_start, refl)
  lifecycle-Bound (stop none) = tt
  lifecycle-Bound (stop (some runtime)) = (Slot.runtime_stop, refl)
  lifecycle-Bound (apply_snapshot runtime generation routes count) = (Slot.apply_snapshot, refl)
  lifecycle-Bound (submit_envelope none buf len) = tt
  lifecycle-Bound (submit_envelope (some runtime) buf len) = (Slot.submit_envelope, refl)

  pub lifecycle-Safe :
      (p : ℕ) (w : World) (o : Op)
      → IsOpen host handle p w
      → Complete host handle
      → Safe host handle (run host (some p) o) w
  lifecycle-Safe p w o open_p complete =
      same-Safe host handle (run host (some p) o) (perform host handle (spec o)) w
        (lifecycle-perform host handle p w open_p o)
        (perform-Safe host handle (spec o) w complete (lifecycle-Bound o))
