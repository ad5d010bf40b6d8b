-- ===== src/Core/Call.antt =====
-- A call through a function pointer: one constructor for each function type of
-- coakka_runtime_bridge.c (the members that runtime_library_t declares in place and the typedefs),
-- with the arguments, and the reply of each. An output parameter `T *` is passed as `Option T`: the
-- content of the storage that it points to, `none` for NULL; the reply holds what the callee
-- leaves there.
use coakka_runtime_swift.Prelude.{ℕ, Option, none, some, List}
use coakka_runtime_swift.Status.{Status}
use coakka_runtime_swift.Core.Records.{
  Ptr, Output, RuntimeConfig, NetworkOptions, RuntimeInfo, ConfigView, HostHandles, ControlSnapshot,
  FileReceiveSpec, FileSendSpec, StreamPublishSpec, StreamSubscribeSpec,
}

pub data Call : Type 0 where
  -- the members declared in place
  create_native : RuntimeConfig → Ptr → Option Ptr → Call
  get_startup : Ptr → Option Output → Call
  get_delivery : Ptr → Option Output → Call
  close_handles : HostHandles → Call
  reader_create : Ptr → Ptr → Option Ptr → Call
  reader_read : Ptr → ℕ → Option Ptr → Call
  owned_data : Ptr → Call
  owned_size : Ptr → Call
  owned_release : Ptr → Call
  reader_destroy : Ptr → Call
  ticket_cancel : Ptr → Call
  copy_payload : Ptr → ℕ → ℕ → Option Ptr → Option ℕ → Call
  copy_dispatch : Ptr → ℕ → Option Ptr → Option ℕ → Option Ptr → Option ℕ → Option ℕ → Call
  -- the typedefs for the runtime
  get_abi_version : Call
  get_info : RuntimeInfo → Call
  runtime_create : RuntimeConfig → Call
  runtime_destroy : Ptr → Call
  apply_network_options : Ptr → NetworkOptions → Call
  get_host_handles : Ptr → HostHandles → Call
  runtime_start : Ptr → Call
  runtime_stop : Ptr → Call
  apply_snapshot : Ptr → ControlSnapshot → Call
  submit_envelope : Ptr → Ptr → ℕ → Call
  get_config : Ptr → ConfigView → Call
  get_health : Ptr → Output → Call
  get_stats : Ptr → Output → Call
  get_capabilities : Output → Call
  apply_tcp_connection_options : Ptr → Ptr → Output → Call
  get_tcp_connection_config : Ptr → Output → Call
  apply_tcp_security_options : Ptr → Ptr → Output → Call
  get_tcp_security_info : Ptr → Output → Call
  core_reason_name : ℕ → Call
  -- the typedefs for the ask client and the envelope builders
  ask_client_create : Ptr → Ptr → Call
  ask_client_destroy : Ptr → Call
  ask_client_begin : Ptr → Ptr → ℕ → Ptr → Call
  ask_ticket_await : Ptr → ℕ → ℕ → Ptr → ℕ → Call
  ask_ticket_message_id : Ptr → Call
  ask_ticket_destroy : Ptr → Call
  build_raw_request : Ptr → Ptr → ℕ → Call
  build_raw_reply : Ptr → Ptr → ℕ → Call
  client_bytes_release : Ptr → Call
  -- the typedefs for the file lane
  file_create : Ptr → Option Ptr → Call
  file_create_owned : Ptr → Option Ptr → Call
  file_destroy : Ptr → Call
  file_simple : Ptr → Call
  file_port : Ptr → Option ℕ → Call
  file_prepare : Ptr → FileReceiveSpec → Call
  file_prepare_grant : Ptr → FileReceiveSpec → Output → Call
  file_submit : Ptr → FileSendSpec → Call
  file_get : Ptr → Ptr → ℕ → Option Output → Call
  file_wait : Ptr → Ptr → ℕ → ℕ → ℕ → Option Output → Call
  file_control : Ptr → Ptr → ℕ → Call
  file_stats : Ptr → Option Output → Call
  file_sha : Ptr → Option (List ℕ) → Option ℕ → Call
  -- the typedefs for the stream lane
  stream_create : Ptr → Option Ptr → Call
  stream_create_owned : Ptr → Option Ptr → Call
  stream_destroy : Ptr → Call
  stream_simple : Ptr → Call
  stream_port : Ptr → Option ℕ → Call
  stream_publish : Ptr → StreamPublishSpec → Call
  stream_publish_grant : Ptr → StreamPublishSpec → Output → Call
  stream_subscribe : Ptr → StreamSubscribeSpec → Call
  stream_get : Ptr → Ptr → ℕ → Option Output → Call
  stream_wait : Ptr → Ptr → ℕ → ℕ → ℕ → Option Output → Call
  stream_pressure : Ptr → Ptr → ℕ → Option Output → Call
  stream_wait_pressure : Ptr → Ptr → ℕ → ℕ → ℕ → Option Output → Call
  stream_control : Ptr → Ptr → ℕ → Call
  stream_stats : Ptr → Option Output → Call

-- The return value and the contents of the output parameters.
abbrev pub Reply : Call → Type 0
Reply (create_native _ _ _) = Status × Ptr
Reply (get_startup _ _) = Status × Output
Reply (get_delivery _ _) = Status × Output
Reply (close_handles _) = HostHandles
Reply (reader_create _ _ _) = Status × Ptr
Reply (reader_read _ _ _) = Status × Ptr
Reply (owned_data _) = Ptr
Reply (owned_size _) = ℕ
Reply (owned_release _) = Unit
Reply (reader_destroy _) = Unit
Reply (ticket_cancel _) = Unit
Reply (copy_payload _ _ _ _ _) = Status × Ptr × ℕ
Reply (copy_dispatch _ _ _ _ _ _ _) = Status × Ptr × ℕ × Ptr × ℕ × ℕ
Reply get_abi_version = ℕ
Reply (get_info _) = Status × RuntimeInfo
Reply (runtime_create _) = Ptr
Reply (runtime_destroy _) = Unit
Reply (apply_network_options _ _) = Status
Reply (get_host_handles _ _) = Status × HostHandles
Reply (runtime_start _) = Status
Reply (runtime_stop _) = Status
Reply (apply_snapshot _ _) = Status
Reply (submit_envelope _ _ _) = Status
Reply (get_config _ _) = Status × ConfigView
Reply (get_health _ _) = Status × Output
Reply (get_stats _ _) = Status × Output
Reply (get_capabilities _) = Status × Output
Reply (apply_tcp_connection_options _ _ _) = Status × Output
Reply (get_tcp_connection_config _ _) = Status × Output
Reply (apply_tcp_security_options _ _ _) = Status × Output
Reply (get_tcp_security_info _ _) = Status × Output
Reply (core_reason_name _) = Ptr
Reply (ask_client_create _ _) = Ptr
Reply (ask_client_destroy _) = Unit
Reply (ask_client_begin _ _ _ _) = Status × Ptr
Reply (ask_ticket_await _ _ _ _ _) = Status × ℕ × Ptr × ℕ
Reply (ask_ticket_message_id _) = Ptr
Reply (ask_ticket_destroy _) = Unit
Reply (build_raw_request _ _ _) = Status × Ptr × ℕ
Reply (build_raw_reply _ _ _) = Status × Ptr × ℕ
Reply (client_bytes_release _) = Unit
Reply (file_create _ _) = Status × Ptr
Reply (file_create_owned _ _) = Status × Ptr
Reply (file_destroy _) = Unit
Reply (file_simple _) = Status
Reply (file_port _ _) = Status × ℕ
Reply (file_prepare _ _) = Status
Reply (file_prepare_grant _ _ _) = Status × Output
Reply (file_submit _ _) = Status
Reply (file_get _ _ _ _) = Status × Output
Reply (file_wait _ _ _ _ _ _) = Status × Output
Reply (file_control _ _ _) = Status
Reply (file_stats _ _) = Status × Output
Reply (file_sha _ _ _) = Status × List ℕ × ℕ
Reply (stream_create _ _) = Status × Ptr
Reply (stream_create_owned _ _) = Status × Ptr
Reply (stream_destroy _) = Unit
Reply (stream_simple _) = Status
Reply (stream_port _ _) = Status × ℕ
Reply (stream_publish _ _) = Status
Reply (stream_publish_grant _ _ _) = Status × Output
Reply (stream_subscribe _ _) = Status
Reply (stream_get _ _ _ _) = Status × Output
Reply (stream_wait _ _ _ _ _ _) = Status × Output
Reply (stream_pressure _ _ _ _) = Status × Output
Reply (stream_wait_pressure _ _ _ _ _ _) = Status × Output
Reply (stream_control _ _ _) = Status
Reply (stream_stats _ _) = Status × Output

-- What an output parameter points to after the call; NULL points to nothing.
abbrev pub stored {ℓ} : {A : Type ℓ} → Option A → A → Option A
stored none a = none
stored (some _) a = some a
