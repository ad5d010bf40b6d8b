-- ===== src/Bridge/Client/Refines.antt =====
-- The functions of Bridge/Client.antt against their promise: which exported function each one
-- calls, with what, and when it refuses.
use coakka_runtime_swift.Prelude.{ℕ, none, some, ◌≡◌, refl}
use coakka_runtime_swift.Status.{invalid_arg}
use coakka_runtime_swift.Core.Records.{Ptr}
use coakka_runtime_swift.Core.Slot.{Slot, symbol_name}
use coakka_runtime_swift.Core.Call.{Call, stored}
use coakka_runtime_swift.Machine.Heap.{World, Host}
use coakka_runtime_swift.Machine.Effects.{pure, ◌>>=◌, invoke, returns}
use coakka_runtime_swift.Bridge.Access.{call_slot, lookup, static_text, native_text}
use coakka_runtime_swift.Bridge.Spec.{
  Spec, refuse, forward, perform, IsOpen, call_slot_lem, call_slot_tail,
}
use coakka_runtime_swift.Bridge.Client
use coakka_runtime_swift.Bridge.Client.Ops.{
  Op, reader_create, reader_read, owned_frame_data, owned_frame_size, owned_frame_release,
  reader_destroy, ticket_cancel, copy_envelope_payload, copy_request_dispatch, ask_client_create,
  ask_client_destroy, ask_client_begin, ask_ticket_await, ask_ticket_message_id, ask_ticket_destroy,
  build_raw_request, build_raw_reply, client_bytes_release, Result, run, absent,
}

-- The promise for a library pointer that is not NULL.
abbrev pub spec : (o : Op) → Spec (Result o)
spec (reader_create runtime handles out) =
    forward "coakka_v2_runtime_request_reader_create" (Call.reader_create runtime handles out)
      (λ r. (r.0, stored out r.1))
spec (reader_read reader timeout out) =
    forward "coakka_v2_request_reader_read" (Call.reader_read reader timeout out)
      (λ r. (r.0, stored out r.1))
spec (owned_frame_data frame) =
    forward "coakka_v2_owned_frame_data" (Call.owned_data frame) (λ r. r)
spec (owned_frame_size frame) =
    forward "coakka_v2_owned_frame_size" (Call.owned_size frame) (λ r. r)
spec (owned_frame_release frame) =
    forward "coakka_v2_owned_frame_release" (Call.owned_release frame) (λ r. r)
spec (reader_destroy reader) =
    forward "coakka_v2_request_reader_destroy" (Call.reader_destroy reader) (λ r. r)
spec (ticket_cancel ticket) =
    forward "coakka_v2_ask_ticket_cancel" (Call.ticket_cancel ticket) (λ r. r)
spec (copy_envelope_payload frame frame_size kind out length) =
    forward "coakka_v2_client_copy_envelope_payload"
      (Call.copy_payload frame frame_size kind out length)
      (λ r. (r.0, stored out r.1, stored length r.2))
spec (copy_request_dispatch frame frame_size target target_size payload payload_size one_way) =
    forward "coakka_v2_client_copy_request_dispatch"
      (Call.copy_dispatch frame frame_size target target_size payload payload_size one_way)
      (λ r. (
        r.0,
        stored target r.1,
        stored target_size r.2,
        stored payload r.3,
        stored payload_size r.4,
        stored one_way r.5,
      ))
spec (ask_client_create (some runtime) (some handles)) =
    forward "coakka_v2_ask_client_create" (Call.ask_client_create (some runtime) (some handles))
      (λ r. r)
spec (ask_client_create _ _) = refuse none
spec (ask_client_destroy none) = refuse tt
spec (ask_client_destroy (some client)) =
    forward "coakka_v2_ask_client_destroy" (Call.ask_client_destroy (some client)) (λ r. r)
spec (ask_client_begin (some client) request_buf request_len (some _)) =
    forward "coakka_v2_ask_client_begin"
      (Call.ask_client_begin (some client) request_buf request_len none) (λ r. (r.0, some r.1))
spec (ask_client_begin _ _ _ out_ticket) = refuse (invalid_arg, out_ticket)
spec (ask_ticket_await (some ticket) timeout_ms (some kind) (some buf) (some len)) =
    forward "coakka_v2_ask_ticket_await"
      (Call.ask_ticket_await (some ticket) timeout_ms kind buf len)
      (λ r. (r.0, some r.1, some r.2, some r.3))
spec (ask_ticket_await _ _ out_result_kind out_buf out_len) =
    refuse (invalid_arg, out_result_kind, out_buf, out_len)
spec (ask_ticket_message_id none) = refuse (static_text "")
spec (ask_ticket_message_id (some ticket)) =
    forward "coakka_v2_ask_ticket_message_id" (Call.ask_ticket_message_id (some ticket))
      (λ r. native_text r)
spec (ask_ticket_destroy none) = refuse tt
spec (ask_ticket_destroy (some ticket)) =
    forward "coakka_v2_ask_ticket_destroy" (Call.ask_ticket_destroy (some ticket)) (λ r. r)
spec (build_raw_request (some fields) (some buf) (some len)) =
    forward "coakka_v2_client_build_raw_request" (Call.build_raw_request (some fields) buf len)
      (λ r. (r.0, some r.1, some r.2))
spec (build_raw_request _ out_buf out_len) = refuse (invalid_arg, out_buf, out_len)
spec (build_raw_reply (some fields) (some buf) (some len)) =
    forward "coakka_v2_client_build_raw_reply" (Call.build_raw_reply (some fields) buf len)
      (λ r. (r.0, some r.1, some r.2))
spec (build_raw_reply _ out_buf out_len) = refuse (invalid_arg, out_buf, out_len)
spec (client_bytes_release none) = refuse tt
spec (client_bytes_release (some buf)) =
    forward "coakka_v2_client_bytes_release" (Call.client_bytes_release (some buf)) (λ r. r)

module _ (host : Host) (handle : Ptr) (p : ℕ) (w : World) (open_p : IsOpen host handle p w) where
  call :
      (s : Slot) (c : Call)
      → call_slot host (some p) s c w ≡ invoke host (host.find_symbol handle (symbol_name s)) c w
  call = call_slot_lem host handle p w open_p

  called :
      (s : Slot) (c : Call)
      → call_slot host (some p) s c w
        ≡ (invoke host (host.find_symbol handle (symbol_name s)) c >>= λ r. pure r) w
  called = call_slot_tail host handle p w open_p

  -- On a library that an open published, every function does what it promises: it refuses without
  -- a call, or makes one call of the named exported function and returns what that leaves.
  pub client-perform : (o : Op) → run host (some p) o w ≡ perform host handle (spec o) w
  unfolding run symbol_name Client.reader_create Client.reader_read Client.owned_frame_data
      Client.owned_frame_size Client.owned_frame_release Client.reader_destroy Client.ticket_cancel
      Client.copy_envelope_payload Client.copy_request_dispatch Client.ask_client_create
      Client.ask_client_destroy Client.ask_client_begin Client.ask_ticket_await
      Client.ask_ticket_message_id Client.ask_ticket_destroy Client.build_raw_request
      Client.build_raw_reply Client.client_bytes_release
  client-perform (reader_create runtime handles out) = rw call
  client-perform (reader_read reader timeout out) = rw call
  client-perform (owned_frame_data frame) = rw called
  client-perform (owned_frame_size frame) = rw called
  client-perform (owned_frame_release frame) = rw called
  client-perform (reader_destroy reader) = rw called
  client-perform (ticket_cancel ticket) = rw called
  client-perform (copy_envelope_payload frame frame_size kind out length) = rw call
  client-perform
        (copy_request_dispatch frame frame_size target target_size payload payload_size one_way) =
      rw call
  client-perform (ask_client_create (some runtime) (some handles)) = rw called
  client-perform (ask_client_create _ _) = refl
  client-perform (ask_client_destroy none) = refl
  client-perform (ask_client_destroy (some client)) = rw called
  client-perform (ask_client_begin (some client) request_buf request_len (some _)) = rw call
  client-perform (ask_client_begin _ _ _ out_ticket) = refl
  client-perform (ask_ticket_await (some ticket) timeout_ms (some kind) (some buf) (some len)) =
      rw call
  client-perform (ask_ticket_await _ _ out_result_kind out_buf out_len) = refl
  client-perform (ask_ticket_message_id none) = refl
  client-perform (ask_ticket_message_id (some ticket)) = rw call
  client-perform (ask_ticket_destroy none) = refl
  client-perform (ask_ticket_destroy (some ticket)) = rw called
  client-perform (build_raw_request (some fields) (some buf) (some len)) = rw call
  client-perform (build_raw_request _ out_buf out_len) = refl
  client-perform (build_raw_reply (some fields) (some buf) (some len)) = rw call
  client-perform (build_raw_reply _ out_buf out_len) = refl
  client-perform (client_bytes_release none) = refl
  client-perform (client_bytes_release (some buf)) = rw called

-- Every function takes a NULL library without a call.
pub client-absent : (host : Host) (o : Op) (w : World) → run host none o w ≡ returns (absent o) w
unfolding run Client.reader_create Client.reader_read Client.owned_frame_data
    Client.owned_frame_size Client.owned_frame_release Client.reader_destroy Client.ticket_cancel
    Client.copy_envelope_payload Client.copy_request_dispatch Client.ask_client_create
    Client.ask_client_destroy Client.ask_client_begin Client.ask_ticket_await
    Client.ask_ticket_message_id Client.ask_ticket_destroy Client.build_raw_request
    Client.build_raw_reply Client.client_bytes_release lookup
client-absent host (reader_create runtime handles out) w = refl
client-absent host (reader_read reader timeout out) w = refl
client-absent host (owned_frame_data frame) w = refl
client-absent host (owned_frame_size frame) w = refl
client-absent host (owned_frame_release frame) w = refl
client-absent host (reader_destroy reader) w = refl
client-absent host (ticket_cancel ticket) w = refl
client-absent host (copy_envelope_payload frame frame_size kind out length) w = refl
client-absent host
      (copy_request_dispatch frame frame_size target target_size payload payload_size one_way) w =
    refl
client-absent host (ask_client_create runtime handles) w = refl
client-absent host (ask_client_destroy client) w = refl
client-absent host (ask_client_begin client request_buf request_len out_ticket) w = refl
client-absent host (ask_ticket_await ticket timeout_ms out_result_kind out_buf out_len) w = refl
client-absent host (ask_ticket_message_id ticket) w = refl
client-absent host (ask_ticket_destroy ticket) w = refl
client-absent host (build_raw_request fields out_buf out_len) w = refl
client-absent host (build_raw_reply fields out_buf out_len) w = refl
client-absent host (client_bytes_release buf) w = refl
