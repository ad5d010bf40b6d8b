-- ===== src/Bridge/Prepared.antt =====
-- The records that the bridge prepares for the Core library: the size they declare, and the cleared
-- output records.
use coakka_runtime_swift.Prelude.{ℕ, none, some, Option, ◌≡◌, ◌≢◌, refl, ◌⊎◌, inl, inr, ◌∙◌, pos}
use coakka_runtime_swift.Abi.Layout.{CType, size}
use coakka_runtime_swift.Abi.Runtime.{
  host_handles, runtime_info, runtime_config_view, runtime_health, runtime_stats,
  runtime_capability_snapshot,
}
use coakka_runtime_swift.Abi.Transport.{
  network_options, tcp_connection_config_snapshot, tcp_security_info,
}
use coakka_runtime_swift.Abi.File.{
  file_receive_spec, file_receive_grant, file_send_spec, file_transfer_snapshot, file_lane_stats,
}
use coakka_runtime_swift.Abi.Stream.{
  stream_publish_spec, stream_publish_grant, stream_subscribe_spec, stream_session_snapshot,
  stream_pressure_snapshot, stream_lane_stats,
}
use coakka_runtime_swift.Core.Records.{Ptr, Output, cleared, HostHandles, RuntimeInfo, ConfigView}
use coakka_runtime_swift.Core.Call.{Call, Reply}
use coakka_runtime_swift.Machine.Heap.{World, Host, logged}
use coakka_runtime_swift.Machine.Effects.{returns, M, pure, ◌>>=◌, invoke}
use coakka_runtime_swift.Bridge.Access.{clear_if}
use coakka_runtime_swift.Bridge.Lifecycle.{no_descriptor}
use coakka_runtime_swift.Bridge.Safety.{Complete, Bound}
use coakka_runtime_swift.Bridge.Spec.{Spec, refuse, forward, attempt, attempted, perform}

abbrev pub IsCleared : CType → Option Output → Type 0
IsCleared t o = (o ≡ none) ⊎ (o ≡ some (cleared t))

pub clear_if-IsCleared : (t : CType) (o : Option Output) → IsCleared t (clear_if t o)
unfolding clear_if
clear_if-IsCleared t none = inl refl
clear_if-IsCleared t (some o) = inr refl

abbrev pub HasNoDescriptor : HostHandles → Type 0
HasNoDescriptor h =
    (h.request_write_fd ≡ no_descriptor)
    × (h.response_read_fd ≡ no_descriptor)
    × (h.deadletter_read_fd ≡ no_descriptor)
    × (h.control_write_fd ≡ no_descriptor)
    × (h.monitor_read_fd ≡ no_descriptor)
    × (h.delivered_request_read_fd ≡ no_descriptor)

-- Zero but for its size.
pub record IsClearedInfo (r : RuntimeInfo) : Type 0 where
  pub struct_size : r.struct_size ≡ size runtime_info
  pub abi_version : r.abi_version ≡ 0
  pub feature_flags : r.feature_flags ≡ 0
  pub runtime_version : r.runtime_version ≡ none
  pub git_commit : r.git_commit ≡ none
  pub southbound_backend : r.southbound_backend ≡ none
  pub allocator_backend : r.allocator_backend ≡ none
  pub docs_hint : r.docs_hint ≡ none
  pub remote_wire_profile : r.remote_wire_profile ≡ none
  pub remote_wire_profile_version : r.remote_wire_profile_version ≡ 0
  pub edition : r.edition ≡ 0
  pub build_id : r.build_id ≡ none

-- Zero but for its size.
pub record IsClearedConfig (r : ConfigView) : Type 0 where
  pub struct_size : r.struct_size ≡ size runtime_config_view
  pub system_name : r.system_name ≡ none
  pub node_id : r.node_id ≡ none
  pub strict_no_drop : r.strict_no_drop ≡ pos 0
  pub queue_capacity : r.queue_capacity ≡ pos 0
  pub request_max_frame_size : r.request_max_frame_size ≡ 0
  pub local_dispatch_batch_limit : r.local_dispatch_batch_limit ≡ 0
  pub runtime_state : r.runtime_state ≡ pos 0
  pub snapshot_present : r.snapshot_present ≡ 0
  pub applied_generation : r.applied_generation ≡ 0
  pub route_count : r.route_count ≡ 0
  pub southbound_bind_host : r.southbound_bind_host ≡ none
  pub southbound_bind_port : r.southbound_bind_port ≡ 0
  pub configured_ingress_overload_mode : r.configured_ingress_overload_mode ≡ 0
  pub configured_local_delivery_overload_mode : r.configured_local_delivery_overload_mode ≡ 0
  pub configured_remote_outbound_overload_mode : r.configured_remote_outbound_overload_mode ≡ 0
  pub configured_remote_outbound_reply_reserve_slots :
      r.configured_remote_outbound_reply_reserve_slots ≡ 0
  pub effective_ingress_overload_mode : r.effective_ingress_overload_mode ≡ 0
  pub effective_local_delivery_overload_mode : r.effective_local_delivery_overload_mode ≡ 0
  pub effective_remote_outbound_overload_mode : r.effective_remote_outbound_overload_mode ≡ 0
  pub effective_remote_outbound_reply_reserve_slots :
      r.effective_remote_outbound_reply_reserve_slots ≡ 0

-- What the bridge itself puts into the records of a call: the size of each that it fills, 0 in the
-- reserved members and -1 in the descriptors, and nothing but the size in each that it clears. A
-- record that the bridge passes on as the caller gave it is not restricted.
abbrev pub IsPrepared : Call → Type 0
IsPrepared (Call.create_native _ _ _) = Unit
IsPrepared (Call.get_startup _ _) = Unit
IsPrepared (Call.get_delivery _ _) = Unit
IsPrepared (Call.close_handles _) = Unit
IsPrepared (Call.reader_create _ _ _) = Unit
IsPrepared (Call.reader_read _ _ _) = Unit
IsPrepared (Call.owned_data _) = Unit
IsPrepared (Call.owned_size _) = Unit
IsPrepared (Call.owned_release _) = Unit
IsPrepared (Call.reader_destroy _) = Unit
IsPrepared (Call.ticket_cancel _) = Unit
IsPrepared (Call.copy_payload _ _ _ _ _) = Unit
IsPrepared (Call.copy_dispatch _ _ _ _ _ _ _) = Unit
IsPrepared Call.get_abi_version = Unit
IsPrepared (Call.get_info r) = IsClearedInfo r
IsPrepared (Call.runtime_create _) = Unit
IsPrepared (Call.runtime_destroy _) = Unit
IsPrepared (Call.apply_network_options _ o) =
    (o.struct_size ≡ size network_options) × (o.reserved ≡ 0) × (o.reserved2 ≡ 0)
IsPrepared (Call.get_host_handles _ h) = (h.struct_size ≡ size host_handles) × HasNoDescriptor h
IsPrepared (Call.runtime_start _) = Unit
IsPrepared (Call.runtime_stop _) = Unit
IsPrepared (Call.apply_snapshot _ _) = Unit
IsPrepared (Call.submit_envelope _ _ _) = Unit
IsPrepared (Call.get_config _ r) = IsClearedConfig r
IsPrepared (Call.get_health _ o) = o ≡ cleared runtime_health
IsPrepared (Call.get_stats _ o) = o ≡ cleared runtime_stats
IsPrepared (Call.get_capabilities o) = o ≡ cleared runtime_capability_snapshot
IsPrepared (Call.apply_tcp_connection_options _ _ _) = Unit
IsPrepared (Call.get_tcp_connection_config _ o) = o ≡ cleared tcp_connection_config_snapshot
IsPrepared (Call.apply_tcp_security_options _ _ _) = Unit
IsPrepared (Call.get_tcp_security_info _ o) = o ≡ cleared tcp_security_info
IsPrepared (Call.core_reason_name _) = Unit
IsPrepared (Call.ask_client_create _ _) = Unit
IsPrepared (Call.ask_client_destroy _) = Unit
IsPrepared (Call.ask_client_begin _ _ _ ticket) = ticket ≡ none
IsPrepared (Call.ask_ticket_await _ _ _ _ _) = Unit
IsPrepared (Call.ask_ticket_message_id _) = Unit
IsPrepared (Call.ask_ticket_destroy _) = Unit
IsPrepared (Call.build_raw_request _ _ _) = Unit
IsPrepared (Call.build_raw_reply _ _ _) = Unit
IsPrepared (Call.client_bytes_release _) = Unit
IsPrepared (Call.file_create _ _) = Unit
IsPrepared (Call.file_create_owned _ _) = Unit
IsPrepared (Call.file_destroy _) = Unit
IsPrepared (Call.file_simple _) = Unit
IsPrepared (Call.file_port _ _) = Unit
IsPrepared (Call.file_prepare _ s) = s.struct_size ≡ size file_receive_spec
IsPrepared (Call.file_prepare_grant _ s o) =
    (s.struct_size ≡ size file_receive_spec) × (o ≡ cleared file_receive_grant)
IsPrepared (Call.file_submit _ s) = s.struct_size ≡ size file_send_spec
IsPrepared (Call.file_get _ _ _ o) = IsCleared file_transfer_snapshot o
IsPrepared (Call.file_wait _ _ _ _ _ o) = IsCleared file_transfer_snapshot o
IsPrepared (Call.file_control _ _ _) = Unit
IsPrepared (Call.file_stats _ o) = IsCleared file_lane_stats o
IsPrepared (Call.file_sha _ _ _) = Unit
IsPrepared (Call.stream_create _ _) = Unit
IsPrepared (Call.stream_create_owned _ _) = Unit
IsPrepared (Call.stream_destroy _) = Unit
IsPrepared (Call.stream_simple _) = Unit
IsPrepared (Call.stream_port _ _) = Unit
IsPrepared (Call.stream_publish _ s) = s.struct_size ≡ size stream_publish_spec
IsPrepared (Call.stream_publish_grant _ s o) =
    (s.struct_size ≡ size stream_publish_spec) × (o ≡ cleared stream_publish_grant)
IsPrepared (Call.stream_subscribe _ s) = s.struct_size ≡ size stream_subscribe_spec
IsPrepared (Call.stream_get _ _ _ o) = IsCleared stream_session_snapshot o
IsPrepared (Call.stream_wait _ _ _ _ _ o) = IsCleared stream_session_snapshot o
IsPrepared (Call.stream_pressure _ _ _ o) = IsCleared stream_pressure_snapshot o
IsPrepared (Call.stream_wait_pressure _ _ _ _ _ o) = IsCleared stream_pressure_snapshot o
IsPrepared (Call.stream_control _ _ _) = Unit
IsPrepared (Call.stream_stats _ o) = IsCleared stream_lane_stats o

abbrev pub Prepares : {A : Type 0} → Spec A → Type 0
Prepares (refuse a) = Unit
Prepares (forward name c result) = IsPrepared c
Prepares (attempt name absent c result) = IsPrepared c

-- The action returns, and the call that it makes, if any, is a prepared one.
abbrev pub Preparing : {A : Type 0} → M A → World → Type 0
Preparing {A = A} m w =
    (a : A) × (w' : World) × (m w ≡ returns a w')
    × ((w' ≡ w) ⊎ ((address : ℕ) × (c : Call) × (w' ≡ logged address c w) × IsPrepared c))

module _ (host : Host) (handle : Ptr) {A : Type 0} (w : World) where
  invoked :
      (f : Ptr) (c : Call) (result : Reply c → A)
      → f ≢ none
      → IsPrepared c
      → Preparing (do r ← invoke host f c; pure (result r)) w
  unfolding invoke
  invoked none c result found prepared = absurd (found refl)
  invoked (some address) c result found prepared = (_, _, refl, inr (address, c, refl, prepared))

  attempted_lem :
      (f : Ptr) (absent : A) (c : Call) (result : Reply c → A)
      → IsPrepared c
      → Preparing (attempted host handle f absent c result) w
  attempted_lem none absent c result prepared = (_, _, refl, inl refl)
  attempted_lem (some address) absent c result prepared =
      invoked (some address) c result (λ p. cc) prepared

  pub perform-Preparing :
      (s : Spec A)
      → Complete host handle
      → Bound host handle s
      → Prepares s
      → Preparing (perform host handle s) w
  perform-Preparing (refuse a) complete b p = (_, _, refl, inl refl)
  perform-Preparing (forward name c result) complete (s, e) prepared =
      invoked (host.find_symbol handle name) c result (λ p. complete s (rw e p)) prepared
  perform-Preparing (attempt name absent c result) complete b prepared =
      attempted_lem (host.find_symbol handle name) absent c result prepared

pub same-Preparing :
    {A : Type 0} (m n : M A) (w : World) → m w ≡ n w → Preparing n w → Preparing m w
same-Preparing m n w e (a, w', f, q) = (a, w', e ∙ f, q)
