-- ===== src/Bridge/Client/Ops.antt =====
-- The functions of Bridge/Client.antt as requests, so that a statement can range over all of them.
use coakka_runtime_swift.Prelude.{ℕ, Option, none}
use coakka_runtime_swift.Status.{Status, invalid_arg}
use coakka_runtime_swift.Core.Records.{Ptr}
use coakka_runtime_swift.Machine.Heap.{Host}
use coakka_runtime_swift.Machine.Effects.{M}
use coakka_runtime_swift.Bridge.Access.{CText, static_text}
use coakka_runtime_swift.Bridge.Client

pub data Op : Type 0 where
  reader_create : Ptr → Ptr → Option Ptr → Op
  reader_read : Ptr → ℕ → Option Ptr → Op
  owned_frame_data : Ptr → Op
  owned_frame_size : Ptr → Op
  owned_frame_release : Ptr → Op
  reader_destroy : Ptr → Op
  ticket_cancel : Ptr → Op
  copy_envelope_payload : Ptr → ℕ → ℕ → Option Ptr → Option ℕ → Op
  copy_request_dispatch : Ptr → ℕ → Option Ptr → Option ℕ → Option Ptr → Option ℕ → Option ℕ → Op
  ask_client_create : Ptr → Ptr → Op
  ask_client_destroy : Ptr → Op
  ask_client_begin : Ptr → Ptr → ℕ → Option Ptr → Op
  ask_ticket_await : Ptr → ℕ → Option ℕ → Option Ptr → Option ℕ → Op
  ask_ticket_message_id : Ptr → Op
  ask_ticket_destroy : Ptr → Op
  build_raw_request : Ptr → Option Ptr → Option ℕ → Op
  build_raw_reply : Ptr → Option Ptr → Option ℕ → Op
  client_bytes_release : Ptr → Op

abbrev pub Result : Op → Type 0
Result (reader_create _ _ _) = Status × Option Ptr
Result (reader_read _ _ _) = Status × Option Ptr
Result (owned_frame_data _) = Ptr
Result (owned_frame_size _) = ℕ
Result (owned_frame_release _) = Unit
Result (reader_destroy _) = Unit
Result (ticket_cancel _) = Unit
Result (copy_envelope_payload _ _ _ _ _) = Status × Option Ptr × Option ℕ
Result (copy_request_dispatch _ _ _ _ _ _ _) =
    Status × Option Ptr × Option ℕ × Option Ptr × Option ℕ × Option ℕ
Result (ask_client_create _ _) = Ptr
Result (ask_client_destroy _) = Unit
Result (ask_client_begin _ _ _ _) = Status × Option Ptr
Result (ask_ticket_await _ _ _ _ _) = Status × Option ℕ × Option Ptr × Option ℕ
Result (ask_ticket_message_id _) = CText
Result (ask_ticket_destroy _) = Unit
Result (build_raw_request _ _ _) = Status × Option Ptr × Option ℕ
Result (build_raw_reply _ _ _) = Status × Option Ptr × Option ℕ
Result (client_bytes_release _) = Unit

unfoldable pub run : Host → Ptr → (o : Op) → M (Result o)
run host library (reader_create runtime handles out) =
    Client.reader_create host library runtime handles out
run host library (reader_read reader timeout out) =
    Client.reader_read host library reader timeout out
run host library (owned_frame_data frame) = Client.owned_frame_data host library frame
run host library (owned_frame_size frame) = Client.owned_frame_size host library frame
run host library (owned_frame_release frame) = Client.owned_frame_release host library frame
run host library (reader_destroy reader) = Client.reader_destroy host library reader
run host library (ticket_cancel ticket) = Client.ticket_cancel host library ticket
run host library (copy_envelope_payload frame frame_size kind out length) =
    Client.copy_envelope_payload host library frame frame_size kind out length
run host library
      (copy_request_dispatch frame frame_size target target_size payload payload_size one_way) =
    Client.copy_request_dispatch host library frame frame_size target target_size payload
      payload_size one_way
run host library (ask_client_create runtime handles) =
    Client.ask_client_create host library runtime handles
run host library (ask_client_destroy client) = Client.ask_client_destroy host library client
run host library (ask_client_begin client request_buf request_len out_ticket) =
    Client.ask_client_begin host library client request_buf request_len out_ticket
run host library (ask_ticket_await ticket timeout_ms out_result_kind out_buf out_len) =
    Client.ask_ticket_await host library ticket timeout_ms out_result_kind out_buf out_len
run host library (ask_ticket_message_id ticket) = Client.ask_ticket_message_id host library ticket
run host library (ask_ticket_destroy ticket) = Client.ask_ticket_destroy host library ticket
run host library (build_raw_request fields out_buf out_len) =
    Client.build_raw_request host library fields out_buf out_len
run host library (build_raw_reply fields out_buf out_len) =
    Client.build_raw_reply host library fields out_buf out_len
run host library (client_bytes_release buf) = Client.client_bytes_release host library buf

-- The result for a NULL library.
abbrev pub absent : (o : Op) → Result o
absent (reader_create _ _ out) = (invalid_arg, out)
absent (reader_read _ _ out) = (invalid_arg, out)
absent (owned_frame_data _) = none
absent (owned_frame_size _) = 0
absent (owned_frame_release _) = tt
absent (reader_destroy _) = tt
absent (ticket_cancel _) = tt
absent (copy_envelope_payload _ _ _ out length) = (invalid_arg, out, length)
absent (copy_request_dispatch _ _ target target_size payload payload_size one_way) =
    (invalid_arg, target, target_size, payload, payload_size, one_way)
absent (ask_client_create _ _) = none
absent (ask_client_destroy _) = tt
absent (ask_client_begin _ _ _ out_ticket) = (invalid_arg, out_ticket)
absent (ask_ticket_await _ _ out_result_kind out_buf out_len) =
    (invalid_arg, out_result_kind, out_buf, out_len)
absent (ask_ticket_message_id _) = static_text ""
absent (ask_ticket_destroy _) = tt
absent (build_raw_request _ out_buf out_len) = (invalid_arg, out_buf, out_len)
absent (build_raw_reply _ out_buf out_len) = (invalid_arg, out_buf, out_len)
absent (client_bytes_release _) = tt
