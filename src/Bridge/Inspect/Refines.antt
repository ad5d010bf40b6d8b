-- ===== src/Bridge/Inspect/Refines.antt =====
-- The functions of Bridge/Inspect.antt against their promise: which exported function each one
-- calls, with what, and when it refuses.
use coakka_runtime_swift.Prelude.{ℕ, none, some, ◌≡◌, refl, if◌then◌else◌}
use coakka_runtime_swift.Status.{ok, invalid_arg}
use coakka_runtime_swift.Abi.Runtime.{runtime_health, runtime_stats, runtime_capability_snapshot}
use coakka_runtime_swift.Abi.Transport.{tcp_connection_config_snapshot, tcp_security_info}
use coakka_runtime_swift.Core.Records.{Ptr, cleared}
use coakka_runtime_swift.Bridge.Inspect.{info_request, swift_info, config_request, swift_config}
use coakka_runtime_swift.Core.Slot.{Slot, symbol_name}
use coakka_runtime_swift.Core.Call.{Call, stored}
use coakka_runtime_swift.Machine.Heap.{World, Host}
use coakka_runtime_swift.Machine.Effects.{pure, ◌>>=◌, invoke, returns}
use coakka_runtime_swift.Loader.Library.{is_ok}
use coakka_runtime_swift.Bridge.Access.{call_slot, lookup, native_text}
use coakka_runtime_swift.Bridge.Spec.{
  Spec, refuse, forward, perform, IsOpen, call_slot_lem, call_slot_tail,
}
use coakka_runtime_swift.Bridge.Inspect
use coakka_runtime_swift.Bridge.Inspect.Ops.{
  Op, get_abi_version, get_info, get_config, get_health, get_stats, get_capabilities,
  apply_tcp_connection_options, get_tcp_connection_config, apply_tcp_security_options,
  get_tcp_security_info, get_startup_config, get_delivery_config, transport_apply_reason_name,
  deadletter_reason_name, Result, run, absent,
}

-- The promise for a library pointer that is not NULL.
abbrev pub spec : (o : Op) → Spec (Result o)
spec get_abi_version = forward "coakka_v2_runtime_get_abi_version" Call.get_abi_version (λ r. r)
spec (get_info none) = refuse (invalid_arg, none)
spec (get_info (some out)) =
    forward "coakka_v2_runtime_get_info" (Call.get_info info_request)
      (λ r. if is_ok r.0 then (ok, some (swift_info r.1)) else (r.0, some out))
spec (get_config (some runtime) (some out)) =
    forward "coakka_v2_runtime_get_config" (Call.get_config (some runtime) config_request)
      (λ r. if is_ok r.0 then (ok, some (swift_config r.1)) else (r.0, some out))
spec (get_config _ out) = refuse (invalid_arg, out)
spec (get_health (some runtime) (some _)) =
    forward "coakka_v2_runtime_get_health" (Call.get_health (some runtime) (cleared runtime_health))
      (λ r. (r.0, some r.1))
spec (get_health _ out) = refuse (invalid_arg, out)
spec (get_stats (some runtime) (some _)) =
    forward "coakka_v2_runtime_get_stats" (Call.get_stats (some runtime) (cleared runtime_stats))
      (λ r. (r.0, some r.1))
spec (get_stats _ out) = refuse (invalid_arg, out)
spec (get_capabilities (some _)) =
    forward "coakka_v2_runtime_get_capabilities"
      (Call.get_capabilities (cleared runtime_capability_snapshot)) (λ r. (r.0, some r.1))
spec (get_capabilities none) = refuse (invalid_arg, none)
spec (apply_tcp_connection_options (some runtime) (some options) (some out)) =
    forward "coakka_v2_runtime_apply_tcp_connection_options_ex"
      (Call.apply_tcp_connection_options (some runtime) (some options) out) (λ r. (r.0, some r.1))
spec (apply_tcp_connection_options _ _ out) = refuse (invalid_arg, out)
spec (get_tcp_connection_config (some runtime) (some _)) =
    forward "coakka_v2_runtime_get_tcp_connection_config"
      (Call.get_tcp_connection_config (some runtime) (cleared tcp_connection_config_snapshot))
      (λ r. (r.0, some r.1))
spec (get_tcp_connection_config _ out) = refuse (invalid_arg, out)
spec (apply_tcp_security_options (some runtime) (some options) (some out)) =
    forward "coakka_v2_runtime_apply_tcp_security_options_ex"
      (Call.apply_tcp_security_options (some runtime) (some options) out) (λ r. (r.0, some r.1))
spec (apply_tcp_security_options _ _ out) = refuse (invalid_arg, out)
spec (get_tcp_security_info (some runtime) (some _)) =
    forward "coakka_v2_runtime_get_tcp_security_info"
      (Call.get_tcp_security_info (some runtime) (cleared tcp_security_info)) (λ r. (r.0, some r.1))
spec (get_tcp_security_info _ out) = refuse (invalid_arg, out)
spec (get_startup_config runtime out) =
    forward "coakka_v2_runtime_get_startup_config" (Call.get_startup runtime out)
      (λ r. (r.0, stored out r.1))
spec (get_delivery_config runtime out) =
    forward "coakka_v2_runtime_get_delivery_config" (Call.get_delivery runtime out)
      (λ r. (r.0, stored out r.1))
spec (transport_apply_reason_name reason) =
    forward "coakka_v2_transport_apply_reason_name" (Call.core_reason_name reason)
      (λ r. native_text r)
spec (deadletter_reason_name reason) =
    forward "coakka_v2_deadletter_reason_name" (Call.core_reason_name reason) (λ r. r)

module _ (host : Host) (handle : Ptr) (p : ℕ) (w : World) (open_p : IsOpen host handle p w) where
  call :
      (s : Slot) (c : Call)
      → call_slot host (some p) s c w ≡ invoke host (host.find_symbol handle (symbol_name s)) c w
  call = call_slot_lem host handle p w open_p

  called :
      (s : Slot) (c : Call)
      → call_slot host (some p) s c w
        ≡ (invoke host (host.find_symbol handle (symbol_name s)) c >>= λ r. pure r) w
  called = call_slot_tail host handle p w open_p

  -- On a library that an open published, every function does what it promises: it refuses without
  -- a call, or makes one call of the named exported function and returns what that leaves.
  pub inspect-perform : (o : Op) → run host (some p) o w ≡ perform host handle (spec o) w
  unfolding run symbol_name Inspect.get_abi_version Inspect.get_info Inspect.get_config
      Inspect.get_health Inspect.get_stats Inspect.get_capabilities
      Inspect.apply_tcp_connection_options Inspect.get_tcp_connection_config
      Inspect.apply_tcp_security_options Inspect.get_tcp_security_info Inspect.get_startup_config
      Inspect.get_delivery_config Inspect.transport_apply_reason_name Inspect.deadletter_reason_name
  inspect-perform get_abi_version = rw called
  inspect-perform (get_info none) = refl
  inspect-perform (get_info (some out)) = rw call
  inspect-perform (get_config (some runtime) (some out)) = rw call
  inspect-perform (get_config _ out) = refl
  inspect-perform (get_health (some runtime) (some _)) = rw call
  inspect-perform (get_health _ out) = refl
  inspect-perform (get_stats (some runtime) (some _)) = rw call
  inspect-perform (get_stats _ out) = refl
  inspect-perform (get_capabilities (some _)) = rw call
  inspect-perform (get_capabilities none) = refl
  inspect-perform (apply_tcp_connection_options (some runtime) (some options) (some out)) = rw call
  inspect-perform (apply_tcp_connection_options _ _ out) = refl
  inspect-perform (get_tcp_connection_config (some runtime) (some _)) = rw call
  inspect-perform (get_tcp_connection_config _ out) = refl
  inspect-perform (apply_tcp_security_options (some runtime) (some options) (some out)) = rw call
  inspect-perform (apply_tcp_security_options _ _ out) = refl
  inspect-perform (get_tcp_security_info (some runtime) (some _)) = rw call
  inspect-perform (get_tcp_security_info _ out) = refl
  inspect-perform (get_startup_config runtime out) = rw call
  inspect-perform (get_delivery_config runtime out) = rw call
  inspect-perform (transport_apply_reason_name reason) = rw call
  inspect-perform (deadletter_reason_name reason) = rw called

-- Every function takes a NULL library without a call.
pub inspect-absent : (host : Host) (o : Op) (w : World) → run host none o w ≡ returns (absent o) w
unfolding run Inspect.get_abi_version Inspect.get_info Inspect.get_config Inspect.get_health
    Inspect.get_stats Inspect.get_capabilities Inspect.apply_tcp_connection_options
    Inspect.get_tcp_connection_config Inspect.apply_tcp_security_options
    Inspect.get_tcp_security_info Inspect.get_startup_config Inspect.get_delivery_config
    Inspect.transport_apply_reason_name Inspect.deadletter_reason_name lookup
inspect-absent host get_abi_version w = refl
inspect-absent host (get_info out) w = refl
inspect-absent host (get_config runtime out) w = refl
inspect-absent host (get_health runtime out) w = refl
inspect-absent host (get_stats runtime out) w = refl
inspect-absent host (get_capabilities out) w = refl
inspect-absent host (apply_tcp_connection_options runtime options out) w = refl
inspect-absent host (get_tcp_connection_config runtime out) w = refl
inspect-absent host (apply_tcp_security_options runtime options out) w = refl
inspect-absent host (get_tcp_security_info runtime out) w = refl
inspect-absent host (get_startup_config runtime out) w = refl
inspect-absent host (get_delivery_config runtime out) w = refl
inspect-absent host (transport_apply_reason_name reason) w = refl
inspect-absent host (deadletter_reason_name reason) w = refl
