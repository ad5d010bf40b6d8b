-- ===== src/Bridge/Lifecycle/Forwarded.antt =====
-- The status of each function of Bridge/Lifecycle.antt.
use coakka_runtime_swift.Prelude.{ℕ, Option, none, some, refl, inl, inr}
use coakka_runtime_swift.Status.{Status}
use coakka_runtime_swift.Core.Records.{Ptr}
use coakka_runtime_swift.Machine.Heap.{World, Host}
use coakka_runtime_swift.Bridge.Spec.{IsOpen, perform}
use coakka_runtime_swift.Bridge.Safety.{Complete}
use coakka_runtime_swift.Bridge.Forwarded.{
  Forwards, Forwarding, perform-Forwarding, same-Forwarding,
}
use coakka_runtime_swift.Bridge.Lifecycle.Ops.{
  Op, Result, run, create_native, create, destroy, apply_network, get_host_handles,
  host_handles_close, start, stop, apply_snapshot, submit_envelope,
}
use coakka_runtime_swift.Bridge.Lifecycle.Refines.{spec, lifecycle-perform}
use coakka_runtime_swift.Bridge.Lifecycle.Bounded.{lifecycle-Bound}

-- The status in a result, where it has one.
abbrev pub status_of : (o : Op) → Result o → Option Status
status_of (create_native _ _ _ _ _ _) r = some r.0
status_of (create _ _ _ _) _ = none
status_of (destroy _) _ = none
status_of (apply_network _ _ _ _ _ _) r = some r
status_of (get_host_handles _ _ _) r = some r.0
status_of (host_handles_close _) _ = none
status_of (start _) r = some r
status_of (stop _) r = some r
status_of (apply_snapshot _ _ _ _) r = some r
status_of (submit_envelope _ _ _) r = some r

lifecycle-Forwards : (o : Op) → Forwards (status_of o) (spec o)
lifecycle-Forwards (create_native system node_id strict capacity options none) = inr (inl refl)
lifecycle-Forwards (create_native system node_id strict capacity options (some _)) = λ r. refl
lifecycle-Forwards (create system_name node_id strict_no_drop queue_capacity) = λ r. refl
lifecycle-Forwards (destroy none) = inl refl
lifecycle-Forwards (destroy (some runtime)) = λ r. refl
lifecycle-Forwards (apply_network none mode bind_host bind_port advertise_host advertise_port) =
    inr (inl refl)
lifecycle-Forwards
      (apply_network (some runtime) mode bind_host bind_port advertise_host advertise_port) =
    λ r. refl
lifecycle-Forwards (get_host_handles (some runtime) flags (some _)) = λ r. refl
lifecycle-Forwards (get_host_handles _ flags out) = inr (inl refl)
lifecycle-Forwards (host_handles_close none) = inl refl
lifecycle-Forwards (host_handles_close (some handles)) = λ r. refl
lifecycle-Forwards (start none) = inr (inl refl)
lifecycle-Forwards (start (some runtime)) = λ r. refl
lifecycle-Forwards (stop none) = inr (inl refl)
lifecycle-Forwards (stop (some runtime)) = λ r. refl
lifecycle-Forwards (apply_snapshot runtime generation routes count) = λ r. refl
lifecycle-Forwards (submit_envelope none buf len) = inr (inl refl)
lifecycle-Forwards (submit_envelope (some runtime) buf len) = λ r. refl

module _ (host : Host) (handle : Ptr) where
  pub lifecycle-Forwarding :
      (p : ℕ) (w : World) (o : Op)
      → IsOpen host handle p w
      → Complete host handle
      → Forwarding host (status_of o) (run host (some p) o) w
  lifecycle-Forwarding p w o open_p complete =
      same-Forwarding host (status_of o) (run host (some p) o) (perform host handle (spec o)) w
        (lifecycle-perform host handle p w open_p o)
        (perform-Forwarding host handle (status_of o) w (spec o) complete
          (lifecycle-Bound host handle o) (lifecycle-Forwards o))
