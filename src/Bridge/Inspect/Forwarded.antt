-- ===== src/Bridge/Inspect/Forwarded.antt =====
-- The status of each function of Bridge/Inspect.antt.
use coakka_runtime_swift.Prelude.{ℕ, Option, none, some, refl, inl, inr}
use coakka_runtime_swift.Status.{Status}
use coakka_runtime_swift.Core.Records.{Ptr}
use coakka_runtime_swift.Machine.Heap.{World, Host}
use coakka_runtime_swift.Bridge.Spec.{IsOpen, perform}
use coakka_runtime_swift.Bridge.Safety.{Complete}
use coakka_runtime_swift.Bridge.Forwarded.{
  Forwards, Forwarding, perform-Forwarding, same-Forwarding, copied-status,
}
use coakka_runtime_swift.Bridge.Inspect.Ops.{
  Op, Result, run, get_abi_version, get_info, get_config, get_health, get_stats, get_capabilities,
  apply_tcp_connection_options, get_tcp_connection_config, apply_tcp_security_options,
  get_tcp_security_info, get_startup_config, get_delivery_config, transport_apply_reason_name,
  deadletter_reason_name,
}
use coakka_runtime_swift.Bridge.Inspect.Refines.{spec, inspect-perform}
use coakka_runtime_swift.Bridge.Inspect.Bounded.{inspect-Bound}

-- The status in a result, where it has one.
abbrev pub status_of : (o : Op) → Result o → Option Status
status_of get_abi_version _ = none
status_of (get_info _) r = some r.0
status_of (get_config _ _) r = some r.0
status_of (get_health _ _) r = some r.0
status_of (get_stats _ _) r = some r.0
status_of (get_capabilities _) r = some r.0
status_of (apply_tcp_connection_options _ _ _) r = some r.0
status_of (get_tcp_connection_config _ _) r = some r.0
status_of (apply_tcp_security_options _ _ _) r = some r.0
status_of (get_tcp_security_info _ _) r = some r.0
status_of (get_startup_config _ _) r = some r.0
status_of (get_delivery_config _ _) r = some r.0
status_of (transport_apply_reason_name _) _ = none
status_of (deadletter_reason_name _) _ = none

inspect-Forwards : (o : Op) → Forwards (status_of o) (spec o)
inspect-Forwards get_abi_version = λ r. refl
inspect-Forwards (get_info none) = inr (inl refl)
inspect-Forwards (get_info (some out)) = λ r. copied-status r _ _
inspect-Forwards (get_config (some runtime) (some out)) = λ r. copied-status r _ _
inspect-Forwards (get_config _ out) = inr (inl refl)
inspect-Forwards (get_health (some runtime) (some _)) = λ r. refl
inspect-Forwards (get_health _ out) = inr (inl refl)
inspect-Forwards (get_stats (some runtime) (some _)) = λ r. refl
inspect-Forwards (get_stats _ out) = inr (inl refl)
inspect-Forwards (get_capabilities (some _)) = λ r. refl
inspect-Forwards (get_capabilities none) = inr (inl refl)
inspect-Forwards (apply_tcp_connection_options (some runtime) (some options) (some out)) = λ r. refl
inspect-Forwards (apply_tcp_connection_options _ _ out) = inr (inl refl)
inspect-Forwards (get_tcp_connection_config (some runtime) (some _)) = λ r. refl
inspect-Forwards (get_tcp_connection_config _ out) = inr (inl refl)
inspect-Forwards (apply_tcp_security_options (some runtime) (some options) (some out)) = λ r. refl
inspect-Forwards (apply_tcp_security_options _ _ out) = inr (inl refl)
inspect-Forwards (get_tcp_security_info (some runtime) (some _)) = λ r. refl
inspect-Forwards (get_tcp_security_info _ out) = inr (inl refl)
inspect-Forwards (get_startup_config runtime out) = λ r. refl
inspect-Forwards (get_delivery_config runtime out) = λ r. refl
inspect-Forwards (transport_apply_reason_name reason) = λ r. refl
inspect-Forwards (deadletter_reason_name reason) = λ r. refl

module _ (host : Host) (handle : Ptr) where
  pub inspect-Forwarding :
      (p : ℕ) (w : World) (o : Op)
      → IsOpen host handle p w
      → Complete host handle
      → Forwarding host (status_of o) (run host (some p) o) w
  inspect-Forwarding p w o open_p complete =
      same-Forwarding host (status_of o) (run host (some p) o) (perform host handle (spec o)) w
        (inspect-perform host handle p w open_p o)
        (perform-Forwarding host handle (status_of o) w (spec o) complete
          (inspect-Bound host handle o) (inspect-Forwards o))
