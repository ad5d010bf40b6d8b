-- ===== src/Bridge/Lifecycle/Prepared.antt =====
-- The records that the functions of Bridge/Lifecycle.antt prepare.
use coakka_runtime_swift.Prelude.{ℕ, none, some, refl}
use coakka_runtime_swift.Core.Records.{Ptr}
use coakka_runtime_swift.Machine.Heap.{World, Host}
use coakka_runtime_swift.Bridge.Spec.{IsOpen, perform}
use coakka_runtime_swift.Bridge.Safety.{Complete}
use coakka_runtime_swift.Bridge.Lifecycle.{network}
use coakka_runtime_swift.Bridge.Lifecycle.{empty_handles}
use coakka_runtime_swift.Bridge.Prepared.{Prepares, Preparing, perform-Preparing, same-Preparing}
use coakka_runtime_swift.Bridge.Lifecycle.Ops.{
  Op, run, create_native, create, destroy, apply_network, get_host_handles, host_handles_close,
  start, stop, apply_snapshot, submit_envelope,
}
use coakka_runtime_swift.Bridge.Lifecycle.Refines.{spec, lifecycle-perform}
use coakka_runtime_swift.Bridge.Lifecycle.Bounded.{lifecycle-Bound}

lifecycle-Prepares : (o : Op) → Prepares (spec o)
unfolding network empty_handles
lifecycle-Prepares (create_native system node_id strict capacity options none) = tt
lifecycle-Prepares (create_native system node_id strict capacity options (some _)) = tt
lifecycle-Prepares (create system_name node_id strict_no_drop queue_capacity) = tt
lifecycle-Prepares (destroy none) = tt
lifecycle-Prepares (destroy (some runtime)) = tt
lifecycle-Prepares (apply_network none mode bind_host bind_port advertise_host advertise_port) = tt
lifecycle-Prepares
      (apply_network (some runtime) mode bind_host bind_port advertise_host advertise_port) =
    (refl, refl, refl)
lifecycle-Prepares (get_host_handles (some runtime) flags (some _)) =
    (refl, (refl, refl, refl, refl, refl, refl))
lifecycle-Prepares (get_host_handles _ flags out) = tt
lifecycle-Prepares (host_handles_close none) = tt
lifecycle-Prepares (host_handles_close (some handles)) = tt
lifecycle-Prepares (start none) = tt
lifecycle-Prepares (start (some runtime)) = tt
lifecycle-Prepares (stop none) = tt
lifecycle-Prepares (stop (some runtime)) = tt
lifecycle-Prepares (apply_snapshot runtime generation routes count) = tt
lifecycle-Prepares (submit_envelope none buf len) = tt
lifecycle-Prepares (submit_envelope (some runtime) buf len) = tt

module _ (host : Host) (handle : Ptr) where
  pub lifecycle-Preparing :
      (p : ℕ) (w : World) (o : Op)
      → IsOpen host handle p w
      → Complete host handle
      → Preparing (run host (some p) o) w
  lifecycle-Preparing p w o open_p complete =
      same-Preparing (run host (some p) o) (perform host handle (spec o)) w
        (lifecycle-perform host handle p w open_p o)
        (perform-Preparing host handle w (spec o) complete (lifecycle-Bound host handle o)
          (lifecycle-Prepares o))
