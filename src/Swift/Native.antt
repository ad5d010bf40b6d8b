-- ===== src/Swift/Native.antt =====
-- The functions of the bridge that the package calls on owners that are not NULL: each one makes
-- the call that it is named for.
use coakka_runtime_swift.Prelude.{ℕ, none, some, List, [], ◌∷◌, ◌≡◌, refl}
use coakka_runtime_swift.Core.Records.{Ptr, HostHandles}
use coakka_runtime_swift.Core.Slot.{Slot}
use coakka_runtime_swift.Core.Call.{Call, Reply}
use coakka_runtime_swift.Machine.Heap.{World, Host}
use coakka_runtime_swift.Machine.Effects.{pure, ◌>>=◌}
use coakka_runtime_swift.Bridge.Access.{deref, call_slot}
use coakka_runtime_swift.Bridge.Spec.{IsOpen}
use coakka_runtime_swift.Bridge.Safety.{Complete}
use coakka_runtime_swift.Bridge.Lifecycle.{stop, destroy, host_handles_close, submit_envelope}
use coakka_runtime_swift.Bridge.Client.{
  reader_read, owned_frame_data, owned_frame_size, owned_frame_release, reader_destroy,
  ask_client_begin, ask_client_destroy, ask_ticket_await, ask_ticket_destroy, build_raw_reply,
  client_bytes_release, ticket_cancel, copy_envelope_payload, build_raw_request,
}
use coakka_runtime_swift.Bridge.Inspect.{deadletter_reason_name}
use coakka_runtime_swift.Swift.Calls.{
  Runs, Answered, call_slot-Answered, call_slot-Runs, bind-Runs, pure-Runs, weaken-Runs,
}

module _ (host : Host) (handle : Ptr) (p : ℕ) (complete : Complete host handle) (w : World)
    (o : IsOpen host handle p w) {l : Ptr} (here : l ≡ some p) where
  -- One call, the reply of which is not looked at.
  abbrev pub Single : {A : Type 0} → Call → A → List Call → Type 0
  Single c _ cs = cs ≡ c ∷ []

  pub plain : (s : Slot) (c : Call) → Runs (call_slot host (some p) s c) w (Single c)
  plain s c = weaken-Runs (call_slot-Runs host handle p complete s c w o) (λ a cs h. h.0)

  pub with_reply :
      {A : Type 0} (s : Slot) (c : Call) (f : Reply c → A)
      → Runs (do r ← call_slot host (some p) s c; pure (f r)) w (Single c)
  with_reply s c f = bind-Runs host handle p o (plain s c) (λ r cs w' o' h. pure-Runs (f r) w' h)

  pub stop-Runs :
      (r : ℕ)
      → Runs (stop host l (some r)) w (λ status cs.
        (cs ≡ Call.runtime_stop (some r) ∷ [])
        × Answered host w.log (Call.runtime_stop (some r)) status)
  unfolding stop
  stop-Runs r =
      rw here (
        call_slot-Answered host handle p complete Slot.runtime_stop (Call.runtime_stop (some r)) w
          o)

  pub destroy-Runs :
      (r : ℕ) → Runs (destroy host l (some r)) w (Single (Call.runtime_destroy (some r)))
  unfolding destroy
  destroy-Runs r = rw here (plain Slot.runtime_destroy (Call.runtime_destroy (some r)))

  pub host_handles_close-Runs :
      (h : HostHandles)
      → Runs (host_handles_close host l (some h)) w (Single (Call.close_handles h))
  unfolding host_handles_close deref
  host_handles_close-Runs h =
      rw here (with_reply Slot.close_handles (Call.close_handles h) (λ r. some r))

  pub submit_envelope-Runs :
      (r : ℕ) (buf : Ptr) (len : ℕ)
      → Runs
          (submit_envelope host l (some r) buf len)
          w
          (Single (Call.submit_envelope (some r) buf len))
  unfolding submit_envelope
  submit_envelope-Runs r buf len =
      rw here (plain Slot.submit_envelope (Call.submit_envelope (some r) buf len))

  pub reader_read-Runs :
      (reader : Ptr) (timeout : ℕ)
      → Runs
          (reader_read host l reader timeout (some none))
          w
          (Single (Call.reader_read reader timeout (some none)))
  unfolding reader_read
  reader_read-Runs reader timeout = rw here (
      with_reply Slot.reader_read (Call.reader_read reader timeout (some none))
        (λ r. (r.0, some r.1)))

  pub owned_frame_data-Runs :
      (f : Ptr) → Runs (owned_frame_data host l f) w (Single (Call.owned_data f))
  unfolding owned_frame_data
  owned_frame_data-Runs f = rw here (plain Slot.owned_data (Call.owned_data f))

  pub owned_frame_size-Runs :
      (f : Ptr) → Runs (owned_frame_size host l f) w (Single (Call.owned_size f))
  unfolding owned_frame_size
  owned_frame_size-Runs f = rw here (plain Slot.owned_size (Call.owned_size f))

  pub owned_frame_release-Runs :
      (f : Ptr) → Runs (owned_frame_release host l f) w (Single (Call.owned_release f))
  unfolding owned_frame_release
  owned_frame_release-Runs f = rw here (plain Slot.owned_release (Call.owned_release f))

  pub reader_destroy-Runs :
      (reader : Ptr) → Runs (reader_destroy host l reader) w (Single (Call.reader_destroy reader))
  unfolding reader_destroy
  reader_destroy-Runs reader = rw here (plain Slot.reader_destroy (Call.reader_destroy reader))

  pub ask_client_begin-Runs :
      (client : ℕ) (buf : Ptr) (len : ℕ)
      → Runs
          (ask_client_begin host l (some client) buf len (some none))
          w
          (Single (Call.ask_client_begin (some client) buf len none))
  unfolding ask_client_begin
  ask_client_begin-Runs client buf len = rw here (
      with_reply Slot.ask_client_begin (Call.ask_client_begin (some client) buf len none)
        (λ r. (r.0, some r.1)))

  pub ask_client_destroy-Runs :
      (client : ℕ)
      → Runs
          (ask_client_destroy host l (some client))
          w
          (Single (Call.ask_client_destroy (some client)))
  unfolding ask_client_destroy
  ask_client_destroy-Runs client =
      rw here (plain Slot.ask_client_destroy (Call.ask_client_destroy (some client)))

  pub ask_ticket_await-Runs :
      (t timeout : ℕ)
      → Runs
          (ask_ticket_await host l (some t) timeout (some 0) (some none) (some 0))
          w
          (Single (Call.ask_ticket_await (some t) timeout 0 none 0))
  unfolding ask_ticket_await deref
  ask_ticket_await-Runs t timeout = rw here (
      with_reply Slot.ask_ticket_await (Call.ask_ticket_await (some t) timeout 0 none 0)
        (λ r. (r.0, some r.1, some r.2, some r.3)))

  pub ask_ticket_destroy-Runs :
      (t : ℕ)
      → Runs (ask_ticket_destroy host l (some t)) w (Single (Call.ask_ticket_destroy (some t)))
  unfolding ask_ticket_destroy
  ask_ticket_destroy-Runs t =
      rw here (plain Slot.ask_ticket_destroy (Call.ask_ticket_destroy (some t)))

  pub build_raw_reply-Runs :
      (reply : ℕ)
      → Runs
          (build_raw_reply host l (some reply) (some none) (some 0))
          w
          (Single (Call.build_raw_reply (some reply) none 0))
  unfolding build_raw_reply deref
  build_raw_reply-Runs reply = rw here (
      with_reply Slot.build_raw_reply (Call.build_raw_reply (some reply) none 0)
        (λ r. (r.0, some r.1, some r.2)))

  pub client_bytes_release-Runs :
      (buf : ℕ)
      → Runs
          (client_bytes_release host l (some buf))
          w
          (Single (Call.client_bytes_release (some buf)))
  unfolding client_bytes_release
  client_bytes_release-Runs buf =
      rw here (plain Slot.client_bytes_release (Call.client_bytes_release (some buf)))

  -- free(NULL)
  pub client_bytes_release-none : Runs (client_bytes_release host l none) w (λ _ cs. cs ≡ [])
  unfolding client_bytes_release
  client_bytes_release-none = rw here (pure-Runs tt w refl)

  pub ticket_cancel-Runs :
      (t : ℕ) → Runs (ticket_cancel host l (some t)) w (Single (Call.ticket_cancel (some t)))
  unfolding ticket_cancel
  ticket_cancel-Runs t = rw here (plain Slot.ticket_cancel (Call.ticket_cancel (some t)))

  pub copy_envelope_payload-Runs :
      (frame : Ptr) (size kind : ℕ)
      → Runs
          (copy_envelope_payload host l frame size kind (some none) (some 0))
          w
          (Single (Call.copy_payload frame size kind (some none) (some 0)))
  unfolding copy_envelope_payload
  copy_envelope_payload-Runs frame size kind = rw here (
      with_reply Slot.copy_payload (Call.copy_payload frame size kind (some none) (some 0))
        (λ r. (r.0, some r.1, some r.2)))

  pub build_raw_request-Runs :
      (spec : ℕ)
      → Runs
          (build_raw_request host l (some spec) (some none) (some 0))
          w
          (Single (Call.build_raw_request (some spec) none 0))
  unfolding build_raw_request deref
  build_raw_request-Runs spec = rw here (
      with_reply Slot.build_raw_request (Call.build_raw_request (some spec) none 0)
        (λ r. (r.0, some r.1, some r.2)))

  pub deadletter_reason_name-Runs :
      (reason : ℕ)
      → Runs (deadletter_reason_name host l reason) w (Single (Call.core_reason_name reason))
  unfolding deadletter_reason_name
  deadletter_reason_name-Runs reason =
      rw here (plain Slot.deadletter_reason_name (Call.core_reason_name reason))
