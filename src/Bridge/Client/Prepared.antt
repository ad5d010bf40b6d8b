-- ===== src/Bridge/Client/Prepared.antt =====
-- The records that the functions of Bridge/Client.antt prepare.
use coakka_runtime_swift.Prelude.{ℕ, none, some, refl}
use coakka_runtime_swift.Core.Records.{Ptr}
use coakka_runtime_swift.Machine.Heap.{World, Host}
use coakka_runtime_swift.Bridge.Spec.{IsOpen, perform}
use coakka_runtime_swift.Bridge.Safety.{Complete}
use coakka_runtime_swift.Bridge.Prepared.{Prepares, Preparing, perform-Preparing, same-Preparing}
use coakka_runtime_swift.Bridge.Client.Ops.{
  Op, run, reader_create, reader_read, owned_frame_data, owned_frame_size, owned_frame_release,
  reader_destroy, ticket_cancel, copy_envelope_payload, copy_request_dispatch, ask_client_create,
  ask_client_destroy, ask_client_begin, ask_ticket_await, ask_ticket_message_id, ask_ticket_destroy,
  build_raw_request, build_raw_reply, client_bytes_release,
}
use coakka_runtime_swift.Bridge.Client.Refines.{spec, client-perform}
use coakka_runtime_swift.Bridge.Client.Bounded.{client-Bound}

client-Prepares : (o : Op) → Prepares (spec o)
client-Prepares (reader_create runtime handles out) = tt
client-Prepares (reader_read reader timeout out) = tt
client-Prepares (owned_frame_data frame) = tt
client-Prepares (owned_frame_size frame) = tt
client-Prepares (owned_frame_release frame) = tt
client-Prepares (reader_destroy reader) = tt
client-Prepares (ticket_cancel ticket) = tt
client-Prepares (copy_envelope_payload frame frame_size kind out length) = tt
client-Prepares
      (copy_request_dispatch frame frame_size target target_size payload payload_size one_way) =
    tt
client-Prepares (ask_client_create (some runtime) (some handles)) = tt
client-Prepares (ask_client_create _ _) = tt
client-Prepares (ask_client_destroy none) = tt
client-Prepares (ask_client_destroy (some client)) = tt
client-Prepares (ask_client_begin (some client) request_buf request_len (some _)) = refl
client-Prepares (ask_client_begin _ _ _ out_ticket) = tt
client-Prepares (ask_ticket_await (some ticket) timeout_ms (some kind) (some buf) (some len)) = tt
client-Prepares (ask_ticket_await _ _ out_result_kind out_buf out_len) = tt
client-Prepares (ask_ticket_message_id none) = tt
client-Prepares (ask_ticket_message_id (some ticket)) = tt
client-Prepares (ask_ticket_destroy none) = tt
client-Prepares (ask_ticket_destroy (some ticket)) = tt
client-Prepares (build_raw_request (some fields) (some buf) (some len)) = tt
client-Prepares (build_raw_request _ out_buf out_len) = tt
client-Prepares (build_raw_reply (some fields) (some buf) (some len)) = tt
client-Prepares (build_raw_reply _ out_buf out_len) = tt
client-Prepares (client_bytes_release none) = tt
client-Prepares (client_bytes_release (some buf)) = tt

module _ (host : Host) (handle : Ptr) where
  pub client-Preparing :
      (p : ℕ) (w : World) (o : Op)
      → IsOpen host handle p w
      → Complete host handle
      → Preparing (run host (some p) o) w
  client-Preparing p w o open_p complete =
      same-Preparing (run host (some p) o) (perform host handle (spec o)) w
        (client-perform host handle p w open_p o)
        (perform-Preparing host handle w (spec o) complete (client-Bound host handle o)
          (client-Prepares o))
