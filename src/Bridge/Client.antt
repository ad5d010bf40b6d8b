-- ===== src/Bridge/Client.antt =====
-- The request reader, the ask client and the envelope builders (coakka_runtime_bridge.c).
pub mod Ops
pub mod Refines
pub mod Bounded
pub mod Forwarded
pub mod Prepared
use coakka_runtime_swift.Prelude.{
  ℕ, zero, Bool, true, false, ◌||◌, ◌&&◌, String, Option, none, some, List, ℤ, pos, is_null, ◌==◌,
  ◌≡◌, refl, arith, not, take, if◌then◌else◌,
}
use coakka_runtime_swift.Status.{Status, ok, invalid_arg, err_symbol}
use coakka_runtime_swift.Abi.Layout.{size}
use coakka_runtime_swift.Core.Records.{Ptr, Output}
use coakka_runtime_swift.Core.Slot.{Slot}
use coakka_runtime_swift.Core.Call.{Call, Reply, stored}
use coakka_runtime_swift.Machine.Heap.{Host}
use coakka_runtime_swift.Machine.Effects.{M, pure, ◌>>=◌, ◌>>◌, fault, invoke, load}
use coakka_runtime_swift.Loader.Library.{is_ok}
use coakka_runtime_swift.Bridge.Access.{
  call_slot, lookup, clear, clear_if, deref, CText, static_text, native_text,
}

module _ (host : Host) (library : Ptr) where
  unfoldable pub reader_create : Ptr → Ptr → Option Ptr → M (Status × Option Ptr)
  reader_create runtime handles out = if is_null library then pure (invalid_arg, out) else do
    r ← call_slot host library Slot.reader_create (Call.reader_create runtime handles out)
    pure (r.0, stored out r.1)

  unfoldable pub reader_read : Ptr → ℕ → Option Ptr → M (Status × Option Ptr)
  reader_read reader timeout out = if is_null library then pure (invalid_arg, out) else do
    r ← call_slot host library Slot.reader_read (Call.reader_read reader timeout out)
    pure (r.0, stored out r.1)

  unfoldable pub owned_frame_data : Ptr → M Ptr
  owned_frame_data frame =
      if is_null library
      then pure none
      else call_slot host library Slot.owned_data (Call.owned_data frame)

  unfoldable pub owned_frame_size : Ptr → M ℕ
  owned_frame_size frame =
      if is_null library
      then pure 0
      else call_slot host library Slot.owned_size (Call.owned_size frame)

  unfoldable pub owned_frame_release : Ptr → M (Unit {0})
  owned_frame_release frame =
      if is_null library
      then pure tt
      else call_slot host library Slot.owned_release (Call.owned_release frame)

  unfoldable pub reader_destroy : Ptr → M (Unit {0})
  reader_destroy reader =
      if is_null library
      then pure tt
      else call_slot host library Slot.reader_destroy (Call.reader_destroy reader)

  unfoldable pub ticket_cancel : Ptr → M (Unit {0})
  ticket_cancel ticket =
      if is_null library
      then pure tt
      else call_slot host library Slot.ticket_cancel (Call.ticket_cancel ticket)

  unfoldable pub copy_envelope_payload :
      Ptr → ℕ → ℕ → Option Ptr → Option ℕ → M (Status × Option Ptr × Option ℕ)
  copy_envelope_payload frame frame_size kind out length =
      if is_null library then pure (invalid_arg, out, length) else do
        r ←
            call_slot host library Slot.copy_payload
              (Call.copy_payload frame frame_size kind out length)
        pure (r.0, stored out r.1, stored length r.2)

  unfoldable pub copy_request_dispatch :
      Ptr
      → ℕ
      → Option Ptr
      → Option ℕ
      → Option Ptr
      → Option ℕ
      → Option ℕ
      → M (Status × Option Ptr × Option ℕ × Option Ptr × Option ℕ × Option ℕ)
  copy_request_dispatch frame frame_size target target_size payload payload_size one_way =
      if is_null library
      then pure (invalid_arg, target, target_size, payload, payload_size, one_way)
      else do
        r ←
            call_slot host library Slot.copy_dispatch
              (Call.copy_dispatch frame frame_size target target_size payload payload_size one_way)
        pure (
          r.0,
          stored target r.1,
          stored target_size r.2,
          stored payload r.3,
          stored payload_size r.4,
          stored one_way r.5,
        )

  unfoldable pub ask_client_create : Ptr → Ptr → M Ptr
  ask_client_create runtime handles =
      if is_null library || is_null runtime || is_null handles
      then pure none
      else call_slot host library Slot.ask_client_create (Call.ask_client_create runtime handles)

  unfoldable pub ask_client_destroy : Ptr → M (Unit {0})
  ask_client_destroy client =
      if not (is_null library) && not (is_null client)
      then call_slot host library Slot.ask_client_destroy (Call.ask_client_destroy client)
      else pure tt

  unfoldable pub ask_client_begin : Ptr → Ptr → ℕ → Option Ptr → M (Status × Option Ptr)
  ask_client_begin client request_buf request_len out_ticket =
      if is_null library || is_null client || is_null out_ticket
      then pure (invalid_arg, out_ticket)
      else do
        r ←
            call_slot host library Slot.ask_client_begin
              (Call.ask_client_begin client request_buf request_len none)
        pure (r.0, some r.1)

  unfoldable pub ask_ticket_await :
      Ptr → ℕ → Option ℕ → Option Ptr → Option ℕ → M (Status × Option ℕ × Option Ptr × Option ℕ)
  unfolding deref
  ask_ticket_await ticket timeout_ms out_result_kind out_buf out_len =
      if is_null library
        || is_null ticket
        || is_null out_result_kind
        || is_null out_buf
        || is_null out_len
      then pure (invalid_arg, out_result_kind, out_buf, out_len)
      else do
        kind ← deref out_result_kind
        buf ← deref out_buf
        len ← deref out_len
        r ←
            call_slot host library Slot.ask_ticket_await
              (Call.ask_ticket_await ticket timeout_ms kind buf len)
        pure (r.0, some r.1, some r.2, some r.3)

  unfoldable pub ask_ticket_message_id : Ptr → M CText
  ask_ticket_message_id ticket =
      if is_null library || is_null ticket then pure (static_text "") else do
        r ← call_slot host library Slot.ask_ticket_message_id (Call.ask_ticket_message_id ticket)
        pure (native_text r)

  unfoldable pub ask_ticket_destroy : Ptr → M (Unit {0})
  ask_ticket_destroy ticket =
      if not (is_null library) && not (is_null ticket)
      then call_slot host library Slot.ask_ticket_destroy (Call.ask_ticket_destroy ticket)
      else pure tt

  unfoldable pub build_raw_request :
      Ptr → Option Ptr → Option ℕ → M (Status × Option Ptr × Option ℕ)
  unfolding deref
  build_raw_request fields out_buf out_len =
      if is_null library || is_null fields || is_null out_buf || is_null out_len
      then pure (invalid_arg, out_buf, out_len)
      else do
        buf ← deref out_buf
        len ← deref out_len
        r ← call_slot host library Slot.build_raw_request (Call.build_raw_request fields buf len)
        pure (r.0, some r.1, some r.2)

  unfoldable pub build_raw_reply : Ptr → Option Ptr → Option ℕ → M (Status × Option Ptr × Option ℕ)
  unfolding deref
  build_raw_reply fields out_buf out_len =
      if is_null library || is_null fields || is_null out_buf || is_null out_len
      then pure (invalid_arg, out_buf, out_len)
      else do
        buf ← deref out_buf
        len ← deref out_len
        r ← call_slot host library Slot.build_raw_reply (Call.build_raw_reply fields buf len)
        pure (r.0, some r.1, some r.2)

  unfoldable pub client_bytes_release : Ptr → M (Unit {0})
  client_bytes_release buf =
      if not (is_null library) && not (is_null buf)
      then call_slot host library Slot.client_bytes_release (Call.client_bytes_release buf)
      else pure tt
