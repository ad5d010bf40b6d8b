-- ===== src/Core/Records.antt =====
-- The records whose members the bridge reads or writes one by one (declared in the headers of
-- coakka/v2 and in coakka_runtime_bridge.h), and the output records that it only initialises.
use coakka_runtime_swift.Prelude.{ℕ, ◌-◌, ℤ, Option, List, replicate}
use coakka_runtime_swift.Abi.Layout.{CType, size}

-- A pointer that the bridge passes on or compares with NULL: `none` is NULL.
abbrev pub Ptr : Type 0
Ptr = Option ℕ

-- An output record that the bridge only clears and sizes: its first member and the bytes after it.
pub record Output : Type 0 where
  pub struct_size : ℕ
  pub body : List ℕ

-- memset(out, 0, sizeof(*out)); out->struct_size = sizeof(*out);
unfoldable pub cleared : CType → Output
cleared t = record { struct_size = size t; body = replicate (size t - 8) 0 }

-- coakka_v2_runtime_config_t
pub record RuntimeConfig : Type 0 where
  pub system_name : Ptr
  pub node_id : Ptr
  pub strict_no_drop : ℤ
  pub queue_capacity : ℤ

-- coakka_v2_network_options_t
pub record NetworkOptions : Type 0 where
  pub struct_size : ℕ
  pub fields : ℕ
  pub mode : ℕ
  pub reserved : ℕ
  pub bind_host : Ptr
  pub advertise_host : Ptr
  pub bind_port : ℕ
  pub advertise_port : ℕ
  pub reserved2 : ℕ

-- coakka_v2_runtime_info_t
pub record RuntimeInfo : Type 0 where
  pub struct_size : ℕ
  pub abi_version : ℕ
  pub feature_flags : ℕ
  pub runtime_version : Ptr
  pub git_commit : Ptr
  pub southbound_backend : Ptr
  pub allocator_backend : Ptr
  pub docs_hint : Ptr
  pub remote_wire_profile : Ptr
  pub remote_wire_profile_version : ℕ
  pub edition : ℕ
  pub build_id : Ptr

-- coakka_swift_runtime_info_t
pub record SwiftRuntimeInfo : Type 0 where
  pub struct_size : ℕ
  pub abi_version : ℕ
  pub feature_flags : ℕ
  pub runtime_version : Ptr
  pub git_commit : Ptr
  pub backend : Ptr

-- coakka_v2_runtime_config_view_t
pub record ConfigView : Type 0 where
  pub struct_size : ℕ
  pub system_name : Ptr
  pub node_id : Ptr
  pub strict_no_drop : ℤ
  pub queue_capacity : ℤ
  pub request_max_frame_size : ℕ
  pub local_dispatch_batch_limit : ℕ
  pub runtime_state : ℤ
  pub snapshot_present : ℕ
  pub applied_generation : ℕ
  pub route_count : ℕ
  pub southbound_bind_host : Ptr
  pub southbound_bind_port : ℕ
  pub configured_ingress_overload_mode : ℕ
  pub configured_local_delivery_overload_mode : ℕ
  pub configured_remote_outbound_overload_mode : ℕ
  pub configured_remote_outbound_reply_reserve_slots : ℕ
  pub effective_ingress_overload_mode : ℕ
  pub effective_local_delivery_overload_mode : ℕ
  pub effective_remote_outbound_overload_mode : ℕ
  pub effective_remote_outbound_reply_reserve_slots : ℕ

-- coakka_swift_runtime_config_view_t
pub record SwiftConfigView : Type 0 where
  pub struct_size : ℕ
  pub system_name : Ptr
  pub node_id : Ptr
  pub strict_no_drop : ℤ
  pub queue_capacity : ℤ
  pub runtime_state : ℤ
  pub snapshot_present : ℕ
  pub applied_generation : ℕ
  pub route_count : ℕ

-- coakka_v2_host_handles_t
pub record HostHandles : Type 0 where
  pub struct_size : ℕ
  pub flags : ℕ
  pub request_write_fd : ℤ
  pub response_read_fd : ℤ
  pub deadletter_read_fd : ℤ
  pub control_write_fd : ℤ
  pub monitor_read_fd : ℤ
  pub delivered_request_read_fd : ℤ

-- coakka_v2_control_snapshot_t
pub record ControlSnapshot : Type 0 where
  pub generation : ℕ
  pub routes : Ptr
  pub route_count : ℕ

-- coakka_v2_file_receive_spec_t
pub record FileReceiveSpec : Type 0 where
  pub struct_size : ℕ
  pub transfer_id : Ptr
  pub authorization_token : Ptr
  pub destination_path : Ptr
  pub expected_size : ℕ
  pub expected_sha256 : List ℕ

-- coakka_v2_file_send_spec_t
pub record FileSendSpec : Type 0 where
  pub struct_size : ℕ
  pub transfer_id : Ptr
  pub authorization_token : Ptr
  pub remote_host : Ptr
  pub remote_port : ℕ
  pub source_path : Ptr
  pub expected_size : ℕ
  pub expected_sha256 : List ℕ
  pub timeout_ms : ℕ

-- coakka_v2_stream_publish_spec_t
pub record StreamPublishSpec : Type 0 where
  pub struct_size : ℕ
  pub session_id : Ptr
  pub authorization_token : Ptr
  pub format_id : ℕ
  pub max_frame_bytes : ℕ
  pub source_next : Ptr
  pub source_context : Ptr

-- coakka_v2_stream_subscribe_spec_t
pub record StreamSubscribeSpec : Type 0 where
  pub struct_size : ℕ
  pub session_id : Ptr
  pub authorization_token : Ptr
  pub remote_host : Ptr
  pub remote_port : ℕ
  pub format_id : ℕ
  pub max_frame_bytes : ℕ
  pub initial_window_bytes : ℕ
  pub timeout_ms : ℕ
  pub consume : Ptr
  pub consumer_context : Ptr
