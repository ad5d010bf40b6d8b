-- ===== src/Bridge/Client/Forwarded.antt =====
-- The status of each function of Bridge/Client.antt.
use coakka_runtime_swift.Prelude.{ℕ, Option, none, some, refl, inl, inr}
use coakka_runtime_swift.Status.{Status}
use coakka_runtime_swift.Core.Records.{Ptr}
use coakka_runtime_swift.Machine.Heap.{World, Host}
use coakka_runtime_swift.Bridge.Spec.{IsOpen, perform}
use coakka_runtime_swift.Bridge.Safety.{Complete}
use coakka_runtime_swift.Bridge.Forwarded.{
  Forwards, Forwarding, perform-Forwarding, same-Forwarding,
}
use coakka_runtime_swift.Bridge.Client.Ops.{
  Op, Result, run, reader_create, reader_read, owned_frame_data, owned_frame_size,
  owned_frame_release, reader_destroy, ticket_cancel, copy_envelope_payload, copy_request_dispatch,
  ask_client_create, ask_client_destroy, ask_client_begin, ask_ticket_await, ask_ticket_message_id,
  ask_ticket_destroy, build_raw_request, build_raw_reply, client_bytes_release,
}
use coakka_runtime_swift.Bridge.Client.Refines.{spec, client-perform}
use coakka_runtime_swift.Bridge.Client.Bounded.{client-Bound}

-- The status in a result, where it has one.
abbrev pub status_of : (o : Op) → Result o → Option Status
status_of (reader_create _ _ _) r = some r.0
status_of (reader_read _ _ _) r = some r.0
status_of (owned_frame_data _) _ = none
status_of (owned_frame_size _) _ = none
status_of (owned_frame_release _) _ = none
status_of (reader_destroy _) _ = none
status_of (ticket_cancel _) _ = none
status_of (copy_envelope_payload _ _ _ _ _) r = some r.0
status_of (copy_request_dispatch _ _ _ _ _ _ _) r = some r.0
status_of (ask_client_create _ _) _ = none
status_of (ask_client_destroy _) _ = none
status_of (ask_client_begin _ _ _ _) r = some r.0
status_of (ask_ticket_await _ _ _ _ _) r = some r.0
status_of (ask_ticket_message_id _) _ = none
status_of (ask_ticket_destroy _) _ = none
status_of (build_raw_request _ _ _) r = some r.0
status_of (build_raw_reply _ _ _) r = some r.0
status_of (client_bytes_release _) _ = none

client-Forwards : (o : Op) → Forwards (status_of o) (spec o)
client-Forwards (reader_create runtime handles out) = λ r. refl
client-Forwards (reader_read reader timeout out) = λ r. refl
client-Forwards (owned_frame_data frame) = λ r. refl
client-Forwards (owned_frame_size frame) = λ r. refl
client-Forwards (owned_frame_release frame) = λ r. refl
client-Forwards (reader_destroy reader) = λ r. refl
client-Forwards (ticket_cancel ticket) = λ r. refl
client-Forwards (copy_envelope_payload frame frame_size kind out length) = λ r. refl
client-Forwards
      (copy_request_dispatch frame frame_size target target_size payload payload_size one_way) =
    λ r. refl
client-Forwards (ask_client_create (some runtime) (some handles)) = λ r. refl
client-Forwards (ask_client_create _ _) = inl refl
client-Forwards (ask_client_destroy none) = inl refl
client-Forwards (ask_client_destroy (some client)) = λ r. refl
client-Forwards (ask_client_begin (some client) request_buf request_len (some _)) = λ r. refl
client-Forwards (ask_client_begin _ _ _ out_ticket) = inr (inl refl)
client-Forwards (ask_ticket_await (some ticket) timeout_ms (some kind) (some buf) (some len)) =
    λ r. refl
client-Forwards (ask_ticket_await _ _ out_result_kind out_buf out_len) = inr (inl refl)
client-Forwards (ask_ticket_message_id none) = inl refl
client-Forwards (ask_ticket_message_id (some ticket)) = λ r. refl
client-Forwards (ask_ticket_destroy none) = inl refl
client-Forwards (ask_ticket_destroy (some ticket)) = λ r. refl
client-Forwards (build_raw_request (some fields) (some buf) (some len)) = λ r. refl
client-Forwards (build_raw_request _ out_buf out_len) = inr (inl refl)
client-Forwards (build_raw_reply (some fields) (some buf) (some len)) = λ r. refl
client-Forwards (build_raw_reply _ out_buf out_len) = inr (inl refl)
client-Forwards (client_bytes_release none) = inl refl
client-Forwards (client_bytes_release (some buf)) = λ r. refl

module _ (host : Host) (handle : Ptr) where
  pub client-Forwarding :
      (p : ℕ) (w : World) (o : Op)
      → IsOpen host handle p w
      → Complete host handle
      → Forwarding host (status_of o) (run host (some p) o) w
  client-Forwarding p w o open_p complete =
      same-Forwarding host (status_of o) (run host (some p) o) (perform host handle (spec o)) w
        (client-perform host handle p w open_p o)
        (perform-Forwarding host handle (status_of o) w (spec o) complete
          (client-Bound host handle o) (client-Forwards o))
