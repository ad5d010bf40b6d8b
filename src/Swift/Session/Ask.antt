-- ===== src/Swift/Session/Ask.antt =====
-- NativeAskTicket.awaitResult (RuntimeHostClient.swift), up to its outer defer block: the answer to
-- an ask. Its ticket belongs to one asker; no lock is held. The copy of the bytes into a Data is
-- not modelled: the result is where they stand.
use coakka_runtime_swift.Prelude.{
  ℕ, Bool, none, some, String, ◌==◌, ◌&&◌, ◌||◌, if◌then◌else◌, int_eq,
}
use coakka_runtime_swift.Status.{Status, would_block}
use coakka_runtime_swift.Core.Records.{Ptr}
use coakka_runtime_swift.Machine.Heap.{Host}
use coakka_runtime_swift.Machine.Effects.{M, pure, ◌>>=◌, ◌>>◌}
use coakka_runtime_swift.Loader.Library.{is_ok}
use coakka_runtime_swift.Bridge.Client
use coakka_runtime_swift.Swift.Errors.{Result, value, thrown, native_status, timeout, cancelled}
use coakka_runtime_swift.Swift.Session.{out_at, number_at}

-- The arguments of awaitResult with the ticket's messageID, and whether the ask is cancelled at the
-- two tests of it.
pub record Wait : Type 0 where
  pub timeout_ms : ℕ
  pub message_id : String
  pub payload_only : Bool
  pub cancelled_before : Bool
  pub cancelled_after : Bool

-- NativeAskResult
pub record Answer : Type 0 where
  pub kind : ℕ
  pub bytes : Ptr
  pub count : ℕ

abbrev pub result_response : ℕ
result_response = 1

module _ (host : Host) (handle : Ptr) where
  unfoldable pub copy_payload : ℕ → Ptr → ℕ → M (Result Answer)
  copy_payload kind wire size = do
    c ← Client.copy_envelope_payload host handle wire size 2 (some none) (some 0)
    Client.client_bytes_release host handle (out_at c.1)
    pure (
        if is_ok c.0
        then value (record { kind = kind; bytes = out_at c.1; count = number_at c.2 })
        else thrown (native_status c.0 "copy response payload"))

  -- The status of the await is success or WOULD_BLOCK.
  unfoldable pub accept_answer : Wait → Bool → ℕ → Ptr → ℕ → M (Result Answer)
  unfolding copy_payload
  accept_answer a late kind wire size =
      if late
      then pure (thrown (timeout a.message_id))
      else if a.payload_only && (kind == result_response)
      then copy_payload kind wire size
      else pure (value (record { kind = kind; bytes = wire; count = size }))

  -- What is done with the reply of coakka_swift_ask_ticket_await.
  unfoldable pub judge_answer : ℕ → Wait → Status → ℕ → Ptr → ℕ → M (Result Answer)
  unfolding accept_answer
  judge_answer t a status kind wire size =
      if is_ok status || int_eq status would_block
      then (if a.cancelled_after
          then (do Client.ticket_cancel host handle (some t); pure (thrown cancelled))
          else accept_answer a (int_eq status would_block) kind wire size)
      else pure (thrown (native_status status "await ask"))

  unfoldable pub await_result : ℕ → Wait → M (Result Answer)
  unfolding judge_answer
  await_result t a =
      if a.cancelled_before
      then (do Client.ticket_cancel host handle (some t); pure (thrown cancelled))
      else do
        r ← Client.ask_ticket_await host handle (some t) a.timeout_ms (some 0) (some none) (some 0)
        answer ← judge_answer t a r.0 (number_at r.1) (out_at r.2) (number_at r.3)
        Client.client_bytes_release host handle (out_at r.2)
        pure answer
