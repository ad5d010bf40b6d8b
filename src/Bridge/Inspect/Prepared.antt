-- ===== src/Bridge/Inspect/Prepared.antt =====
-- The records that the functions of Bridge/Inspect.antt prepare.
use coakka_runtime_swift.Prelude.{ℕ, none, some, refl}
use coakka_runtime_swift.Core.Records.{Ptr}
use coakka_runtime_swift.Machine.Heap.{World, Host}
use coakka_runtime_swift.Bridge.Spec.{IsOpen, perform}
use coakka_runtime_swift.Bridge.Safety.{Complete}
use coakka_runtime_swift.Bridge.Inspect.{info_request}
use coakka_runtime_swift.Bridge.Inspect.{config_request}
use coakka_runtime_swift.Bridge.Prepared.{
  IsClearedInfo, IsClearedConfig, Prepares, Preparing, perform-Preparing, same-Preparing,
}
use coakka_runtime_swift.Bridge.Inspect.Ops.{
  Op, run, get_abi_version, get_info, get_config, get_health, get_stats, get_capabilities,
  apply_tcp_connection_options, get_tcp_connection_config, apply_tcp_security_options,
  get_tcp_security_info, get_startup_config, get_delivery_config, transport_apply_reason_name,
  deadletter_reason_name,
}
use coakka_runtime_swift.Bridge.Inspect.Refines.{spec, inspect-perform}
use coakka_runtime_swift.Bridge.Inspect.Bounded.{inspect-Bound}

pub info_request-IsClearedInfo : IsClearedInfo info_request
unfolding info_request
info_request-IsClearedInfo = record {
  struct_size = refl;
  abi_version = refl;
  feature_flags = refl;
  runtime_version = refl;
  git_commit = refl;
  southbound_backend = refl;
  allocator_backend = refl;
  docs_hint = refl;
  remote_wire_profile = refl;
  remote_wire_profile_version = refl;
  edition = refl;
  build_id = refl;
}

pub config_request-IsClearedConfig : IsClearedConfig config_request
unfolding config_request
config_request-IsClearedConfig = record {
  struct_size = refl;
  system_name = refl;
  node_id = refl;
  strict_no_drop = refl;
  queue_capacity = refl;
  request_max_frame_size = refl;
  local_dispatch_batch_limit = refl;
  runtime_state = refl;
  snapshot_present = refl;
  applied_generation = refl;
  route_count = refl;
  southbound_bind_host = refl;
  southbound_bind_port = refl;
  configured_ingress_overload_mode = refl;
  configured_local_delivery_overload_mode = refl;
  configured_remote_outbound_overload_mode = refl;
  configured_remote_outbound_reply_reserve_slots = refl;
  effective_ingress_overload_mode = refl;
  effective_local_delivery_overload_mode = refl;
  effective_remote_outbound_overload_mode = refl;
  effective_remote_outbound_reply_reserve_slots = refl;
}

inspect-Prepares : (o : Op) → Prepares (spec o)
inspect-Prepares get_abi_version = tt
inspect-Prepares (get_info none) = tt
inspect-Prepares (get_info (some out)) = info_request-IsClearedInfo
inspect-Prepares (get_config (some runtime) (some out)) = config_request-IsClearedConfig
inspect-Prepares (get_config _ out) = tt
inspect-Prepares (get_health (some runtime) (some _)) = refl
inspect-Prepares (get_health _ out) = tt
inspect-Prepares (get_stats (some runtime) (some _)) = refl
inspect-Prepares (get_stats _ out) = tt
inspect-Prepares (get_capabilities (some _)) = refl
inspect-Prepares (get_capabilities none) = tt
inspect-Prepares (apply_tcp_connection_options (some runtime) (some options) (some out)) = tt
inspect-Prepares (apply_tcp_connection_options _ _ out) = tt
inspect-Prepares (get_tcp_connection_config (some runtime) (some _)) = refl
inspect-Prepares (get_tcp_connection_config _ out) = tt
inspect-Prepares (apply_tcp_security_options (some runtime) (some options) (some out)) = tt
inspect-Prepares (apply_tcp_security_options _ _ out) = tt
inspect-Prepares (get_tcp_security_info (some runtime) (some _)) = refl
inspect-Prepares (get_tcp_security_info _ out) = tt
inspect-Prepares (get_startup_config runtime out) = tt
inspect-Prepares (get_delivery_config runtime out) = tt
inspect-Prepares (transport_apply_reason_name reason) = tt
inspect-Prepares (deadletter_reason_name reason) = tt

module _ (host : Host) (handle : Ptr) where
  pub inspect-Preparing :
      (p : ℕ) (w : World) (o : Op)
      → IsOpen host handle p w
      → Complete host handle
      → Preparing (run host (some p) o) w
  inspect-Preparing p w o open_p complete =
      same-Preparing (run host (some p) o) (perform host handle (spec o)) w
        (inspect-perform host handle p w open_p o)
        (perform-Preparing host handle w (spec o) complete (inspect-Bound host handle o)
          (inspect-Prepares o))
