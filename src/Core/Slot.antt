-- ===== src/Core/Slot.antt =====
-- runtime_library_t of coakka_runtime_bridge.c: its function-pointer members, the symbol that each
-- is loaded from, and the order in which they are loaded.
pub mod Names
use coakka_runtime_swift.Prelude.{String, List, [], ◌∷◌}

-- The members in declaration order; `create_native` to `copy_dispatch` are declared with their
-- types in place, the others by a typedef.
pub data Slot : Type 0 where
  create_native get_startup get_delivery close_handles reader_create : Slot
  reader_read owned_data owned_size owned_release reader_destroy : Slot
  ticket_cancel copy_payload copy_dispatch get_abi_version get_info : Slot
  runtime_create runtime_destroy apply_network_options get_host_handles runtime_start : Slot
  runtime_stop apply_snapshot submit_envelope get_config get_health : Slot
  get_stats get_capabilities apply_tcp_connection_options get_tcp_connection_config
        apply_tcp_security_options :
      Slot
  get_tcp_security_info transport_apply_reason_name deadletter_reason_name ask_client_create
        ask_client_destroy :
      Slot
  ask_client_begin ask_ticket_await ask_ticket_message_id ask_ticket_destroy build_raw_request :
      Slot
  build_raw_reply client_bytes_release : Slot

unfoldable pub Slot-discrete : Discrete Slot
Slot-discrete = hlevel

-- The third argument of each LOAD_SYMBOL.
unfoldable pub symbol_name : Slot → String
symbol_name get_abi_version = "coakka_v2_runtime_get_abi_version"
symbol_name create_native = "coakka_v2_runtime_create_native"
symbol_name get_startup = "coakka_v2_runtime_get_startup_config"
symbol_name get_delivery = "coakka_v2_runtime_get_delivery_config"
symbol_name close_handles = "coakka_v2_host_handles_close"
symbol_name reader_create = "coakka_v2_runtime_request_reader_create"
symbol_name reader_read = "coakka_v2_request_reader_read"
symbol_name owned_data = "coakka_v2_owned_frame_data"
symbol_name owned_size = "coakka_v2_owned_frame_size"
symbol_name owned_release = "coakka_v2_owned_frame_release"
symbol_name reader_destroy = "coakka_v2_request_reader_destroy"
symbol_name ticket_cancel = "coakka_v2_ask_ticket_cancel"
symbol_name copy_payload = "coakka_v2_client_copy_envelope_payload"
symbol_name copy_dispatch = "coakka_v2_client_copy_request_dispatch"
symbol_name get_info = "coakka_v2_runtime_get_info"
symbol_name runtime_create = "coakka_v2_runtime_create"
symbol_name runtime_destroy = "coakka_v2_runtime_destroy"
symbol_name apply_network_options = "coakka_v2_runtime_apply_network_options"
symbol_name get_host_handles = "coakka_v2_runtime_get_host_handles"
symbol_name runtime_start = "coakka_v2_runtime_start"
symbol_name runtime_stop = "coakka_v2_runtime_stop"
symbol_name apply_snapshot = "coakka_v2_runtime_apply_control_snapshot"
symbol_name submit_envelope = "coakka_v2_runtime_submit_envelope"
symbol_name get_config = "coakka_v2_runtime_get_config"
symbol_name get_health = "coakka_v2_runtime_get_health"
symbol_name get_stats = "coakka_v2_runtime_get_stats"
symbol_name get_capabilities = "coakka_v2_runtime_get_capabilities"
symbol_name apply_tcp_connection_options = "coakka_v2_runtime_apply_tcp_connection_options_ex"
symbol_name get_tcp_connection_config = "coakka_v2_runtime_get_tcp_connection_config"
symbol_name apply_tcp_security_options = "coakka_v2_runtime_apply_tcp_security_options_ex"
symbol_name get_tcp_security_info = "coakka_v2_runtime_get_tcp_security_info"
symbol_name transport_apply_reason_name = "coakka_v2_transport_apply_reason_name"
symbol_name deadletter_reason_name = "coakka_v2_deadletter_reason_name"
symbol_name ask_client_create = "coakka_v2_ask_client_create"
symbol_name ask_client_destroy = "coakka_v2_ask_client_destroy"
symbol_name ask_client_begin = "coakka_v2_ask_client_begin"
symbol_name ask_ticket_await = "coakka_v2_ask_ticket_await"
symbol_name ask_ticket_message_id = "coakka_v2_ask_ticket_message_id"
symbol_name ask_ticket_destroy = "coakka_v2_ask_ticket_destroy"
symbol_name build_raw_request = "coakka_v2_client_build_raw_request"
symbol_name build_raw_reply = "coakka_v2_client_build_raw_reply"
symbol_name client_bytes_release = "coakka_v2_client_bytes_release"

-- The calls of LOAD_SYMBOL in the order of the code.
unfoldable pub load_order : List Slot
load_order =
    get_abi_version ∷ create_native ∷ get_startup ∷ get_delivery ∷ close_handles ∷ reader_create
    ∷ reader_read ∷ owned_data ∷ owned_size ∷ owned_release ∷ reader_destroy ∷ ticket_cancel
    ∷ copy_payload ∷ copy_dispatch ∷ get_info ∷ runtime_create ∷ runtime_destroy
    ∷ apply_network_options ∷ get_host_handles ∷ runtime_start ∷ runtime_stop ∷ apply_snapshot
    ∷ submit_envelope ∷ get_config ∷ get_health ∷ get_stats ∷ get_capabilities
    ∷ apply_tcp_connection_options ∷ get_tcp_connection_config ∷ apply_tcp_security_options
    ∷ get_tcp_security_info ∷ transport_apply_reason_name ∷ deadletter_reason_name
    ∷ ask_client_create ∷ ask_client_destroy ∷ ask_client_begin ∷ ask_ticket_await
    ∷ ask_ticket_message_id ∷ ask_ticket_destroy ∷ build_raw_request ∷ build_raw_reply
    ∷ client_bytes_release ∷ []
