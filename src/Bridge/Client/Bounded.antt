-- ===== src/Bridge/Client/Bounded.antt =====
-- Safety of the functions of Bridge/Client.antt: the names of their direct calls.
use coakka_runtime_swift.Prelude.{ℕ, refl, none, some}
use coakka_runtime_swift.Core.Records.{Ptr}
use coakka_runtime_swift.Core.Slot.{Slot, symbol_name}
use coakka_runtime_swift.Machine.Heap.{World, Host}
use coakka_runtime_swift.Bridge.Spec.{IsOpen, perform}
use coakka_runtime_swift.Bridge.Safety.{Bound, Safe, Complete, perform-Safe, same-Safe}
use coakka_runtime_swift.Bridge.Client.Ops.{
  Op, run, reader_create, reader_read, owned_frame_data, owned_frame_size, owned_frame_release,
  reader_destroy, ticket_cancel, copy_envelope_payload, copy_request_dispatch, ask_client_create,
  ask_client_destroy, ask_client_begin, ask_ticket_await, ask_ticket_message_id, ask_ticket_destroy,
  build_raw_request, build_raw_reply, client_bytes_release,
}
use coakka_runtime_swift.Bridge.Client.Refines.{spec, client-perform}

module _ (host : Host) (handle : Ptr) where
  pub client-Bound : (o : Op) → Bound host handle (spec o)
  unfolding symbol_name
  client-Bound (reader_create runtime handles out) = (Slot.reader_create, refl)
  client-Bound (reader_read reader timeout out) = (Slot.reader_read, refl)
  client-Bound (owned_frame_data frame) = (Slot.owned_data, refl)
  client-Bound (owned_frame_size frame) = (Slot.owned_size, refl)
  client-Bound (owned_frame_release frame) = (Slot.owned_release, refl)
  client-Bound (reader_destroy reader) = (Slot.reader_destroy, refl)
  client-Bound (ticket_cancel ticket) = (Slot.ticket_cancel, refl)
  client-Bound (copy_envelope_payload frame frame_size kind out length) = (Slot.copy_payload, refl)
  client-Bound
        (copy_request_dispatch frame frame_size target target_size payload payload_size one_way) =
      (Slot.copy_dispatch, refl)
  client-Bound (ask_client_create (some runtime) (some handles)) = (Slot.ask_client_create, refl)
  client-Bound (ask_client_create _ _) = tt
  client-Bound (ask_client_destroy none) = tt
  client-Bound (ask_client_destroy (some client)) = (Slot.ask_client_destroy, refl)
  client-Bound (ask_client_begin (some client) request_buf request_len (some _)) =
      (Slot.ask_client_begin, refl)
  client-Bound (ask_client_begin _ _ _ out_ticket) = tt
  client-Bound (ask_ticket_await (some ticket) timeout_ms (some kind) (some buf) (some len)) =
      (Slot.ask_ticket_await, refl)
  client-Bound (ask_ticket_await _ _ out_result_kind out_buf out_len) = tt
  client-Bound (ask_ticket_message_id none) = tt
  client-Bound (ask_ticket_message_id (some ticket)) = (Slot.ask_ticket_message_id, refl)
  client-Bound (ask_ticket_destroy none) = tt
  client-Bound (ask_ticket_destroy (some ticket)) = (Slot.ask_ticket_destroy, refl)
  client-Bound (build_raw_request (some fields) (some buf) (some len)) =
      (Slot.build_raw_request, refl)
  client-Bound (build_raw_request _ out_buf out_len) = tt
  client-Bound (build_raw_reply (some fields) (some buf) (some len)) = (Slot.build_raw_reply, refl)
  client-Bound (build_raw_reply _ out_buf out_len) = tt
  client-Bound (client_bytes_release none) = tt
  client-Bound (client_bytes_release (some buf)) = (Slot.client_bytes_release, refl)

  pub client-Safe :
      (p : ℕ) (w : World) (o : Op)
      → IsOpen host handle p w
      → Complete host handle
      → Safe host handle (run host (some p) o) w
  client-Safe p w o open_p complete =
      same-Safe host handle (run host (some p) o) (perform host handle (spec o)) w
        (client-perform host handle p w open_p o)
        (perform-Safe host handle (spec o) w complete (client-Bound o))
