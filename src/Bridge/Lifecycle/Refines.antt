-- ===== src/Bridge/Lifecycle/Refines.antt =====
-- The lifecycle functions against their promise: which exported function each one calls, with what,
-- and when it refuses.
use coakka_runtime_swift.Prelude.{ℕ, none, some, ◌≡◌, refl}
use coakka_runtime_swift.Status.{invalid_arg}
use coakka_runtime_swift.Core.Records.{Ptr}
use coakka_runtime_swift.Core.Slot.{Slot, symbol_name}
use coakka_runtime_swift.Core.Call.{Call}
use coakka_runtime_swift.Machine.Heap.{World, Host}
use coakka_runtime_swift.Machine.Effects.{pure, returns, ◌>>=◌, invoke}
use coakka_runtime_swift.Bridge.Access.{call_slot}
use coakka_runtime_swift.Bridge.Spec.{
  Spec, refuse, forward, perform, IsOpen, call_slot_lem, call_slot_tail,
}
use coakka_runtime_swift.Bridge.Lifecycle
use coakka_runtime_swift.Bridge.Lifecycle.{runtime_config, network, empty_handles}
use coakka_runtime_swift.Bridge.Lifecycle.Ops.{
  Op, create_native, create, destroy, apply_network, get_host_handles, host_handles_close, start,
  stop, apply_snapshot, submit_envelope, Result, run, absent,
}

-- The promise for a library pointer that is not NULL.
abbrev pub spec : (o : Op) → Spec (Result o)
spec (create_native system node_id strict capacity options none) = refuse (invalid_arg, none)
spec (create_native system node_id strict capacity options (some _)) =
    forward "coakka_v2_runtime_create_native"
      (Call.create_native (runtime_config system node_id strict capacity) options (some none))
      (λ r. (r.0, some r.1))
spec (create system_name node_id strict_no_drop queue_capacity) =
    forward "coakka_v2_runtime_create"
      (Call.runtime_create (runtime_config system_name node_id strict_no_drop queue_capacity))
      (λ r. r)
spec (destroy none) = refuse tt
spec (destroy (some runtime)) =
    forward "coakka_v2_runtime_destroy" (Call.runtime_destroy (some runtime)) (λ r. r)
spec (apply_network none mode bind_host bind_port advertise_host advertise_port) =
    refuse invalid_arg
spec (apply_network (some runtime) mode bind_host bind_port advertise_host advertise_port) =
    forward "coakka_v2_runtime_apply_network_options"
      (Call.apply_network_options (some runtime)
        (network mode bind_host bind_port advertise_host advertise_port))
      (λ r. r)
spec (get_host_handles (some runtime) flags (some _)) =
    forward "coakka_v2_runtime_get_host_handles"
      (Call.get_host_handles (some runtime) (empty_handles flags)) (λ r. (r.0, some r.1))
spec (get_host_handles _ flags out) = refuse (invalid_arg, out)
spec (host_handles_close none) = refuse none
spec (host_handles_close (some handles)) =
    forward "coakka_v2_host_handles_close" (Call.close_handles handles) (λ r. some r)
spec (start none) = refuse invalid_arg
spec (start (some runtime)) =
    forward "coakka_v2_runtime_start" (Call.runtime_start (some runtime)) (λ r. r)
spec (stop none) = refuse invalid_arg
spec (stop (some runtime)) =
    forward "coakka_v2_runtime_stop" (Call.runtime_stop (some runtime)) (λ r. r)
spec (apply_snapshot runtime generation routes count) =
    forward "coakka_v2_runtime_apply_control_snapshot"
      (Call.apply_snapshot runtime
        (record { generation = generation; routes = routes; route_count = count }))
      (λ r. r)
spec (submit_envelope none buf len) = refuse invalid_arg
spec (submit_envelope (some runtime) buf len) =
    forward "coakka_v2_runtime_submit_envelope" (Call.submit_envelope (some runtime) buf len)
      (λ r. r)

module _ (host : Host) (handle : Ptr) (p : ℕ) (w : World) (open_p : IsOpen host handle p w) where
  call :
      (s : Slot) (c : Call)
      → call_slot host (some p) s c w ≡ invoke host (host.find_symbol handle (symbol_name s)) c w
  call = call_slot_lem host handle p w open_p

  called :
      (s : Slot) (c : Call)
      → call_slot host (some p) s c w
        ≡ (invoke host (host.find_symbol handle (symbol_name s)) c >>= λ r. pure r) w
  called = call_slot_tail host handle p w open_p

  pub lifecycle-perform : (o : Op) → run host (some p) o w ≡ perform host handle (spec o) w
  unfolding run symbol_name Lifecycle.create_native Lifecycle.create Lifecycle.destroy
      Lifecycle.apply_network Lifecycle.get_host_handles Lifecycle.host_handles_close
      Lifecycle.start Lifecycle.stop Lifecycle.apply_snapshot Lifecycle.submit_envelope
  lifecycle-perform (create_native system node_id strict capacity options none) = refl
  lifecycle-perform (create_native system node_id strict capacity options (some _)) = rw call
  lifecycle-perform (create system_name node_id strict_no_drop queue_capacity) = rw called
  lifecycle-perform (destroy none) = refl
  lifecycle-perform (destroy (some runtime)) = rw called
  lifecycle-perform (apply_network none mode bind_host bind_port advertise_host advertise_port) =
      refl
  lifecycle-perform
        (apply_network (some runtime) mode bind_host bind_port advertise_host advertise_port) =
      rw called
  lifecycle-perform (get_host_handles (some runtime) flags (some _)) = rw call
  lifecycle-perform (get_host_handles _ flags out) = refl
  lifecycle-perform (host_handles_close none) = refl
  lifecycle-perform (host_handles_close (some handles)) = rw call
  lifecycle-perform (start none) = refl
  lifecycle-perform (start (some runtime)) = rw called
  lifecycle-perform (stop none) = refl
  lifecycle-perform (stop (some runtime)) = rw called
  lifecycle-perform (apply_snapshot runtime generation routes count) = rw called
  lifecycle-perform (submit_envelope none buf len) = refl
  lifecycle-perform (submit_envelope (some runtime) buf len) = rw called

-- Every function of the lifecycle takes a NULL library without a call; the one that creates a native
-- runtime still clears its output.
pub lifecycle-absent : (host : Host) (o : Op) (w : World) → run host none o w ≡ returns (absent o) w
unfolding run Lifecycle.create_native Lifecycle.create Lifecycle.destroy Lifecycle.apply_network
    Lifecycle.get_host_handles Lifecycle.host_handles_close Lifecycle.start Lifecycle.stop
    Lifecycle.apply_snapshot Lifecycle.submit_envelope
lifecycle-absent host (create_native system node_id strict capacity options out) w = refl
lifecycle-absent host (create system_name node_id strict_no_drop queue_capacity) w = refl
lifecycle-absent host (destroy runtime) w = refl
lifecycle-absent host (apply_network runtime mode bind_host bind_port advertise_host advertise_port)
      w =
    refl
lifecycle-absent host (get_host_handles runtime flags out) w = refl
lifecycle-absent host (host_handles_close handles) w = refl
lifecycle-absent host (start runtime) w = refl
lifecycle-absent host (stop runtime) w = refl
lifecycle-absent host (apply_snapshot runtime generation routes count) w = refl
lifecycle-absent host (submit_envelope runtime buf len) w = refl
