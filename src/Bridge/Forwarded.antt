-- ===== src/Bridge/Forwarded.antt =====
-- The contract of coakka_runtime_bridge.h for status values, as a predicate on promises and on runs.
use coakka_runtime_swift.Prelude.{
  ℕ, Option, none, some, ◌≡◌, refl, ◌≢◌, Bool-cases, if◌then◌else◌, ◌⊎◌, inl, inr, ◌∙◌,
}
use coakka_runtime_swift.Status.{Status, ok, invalid_arg, err_symbol}
use coakka_runtime_swift.Core.Records.{Ptr, RuntimeInfo}
use coakka_runtime_swift.Core.Call.{Call, Reply}
use coakka_runtime_swift.Machine.Heap.{World, Host, logged}
use coakka_runtime_swift.Machine.Effects.{returns, M, pure, ◌>>=◌, invoke}
use coakka_runtime_swift.Loader.Library.{is_ok, is_ok-ok}
use coakka_runtime_swift.Bridge.Feature.{feature_result}
use coakka_runtime_swift.Bridge.Safety.{Complete, Bound}
use coakka_runtime_swift.Bridge.Spec.{Spec, refuse, forward, attempt, attempted, perform}

-- The status in a reply of the Core library, where it has one.
abbrev pub reply_status : (c : Call) → Reply c → Option Status
reply_status (Call.create_native _ _ _) r = some r.0
reply_status (Call.get_startup _ _) r = some r.0
reply_status (Call.get_delivery _ _) r = some r.0
reply_status (Call.close_handles _) _ = none
reply_status (Call.reader_create _ _ _) r = some r.0
reply_status (Call.reader_read _ _ _) r = some r.0
reply_status (Call.owned_data _) _ = none
reply_status (Call.owned_size _) _ = none
reply_status (Call.owned_release _) _ = none
reply_status (Call.reader_destroy _) _ = none
reply_status (Call.ticket_cancel _) _ = none
reply_status (Call.copy_payload _ _ _ _ _) r = some r.0
reply_status (Call.copy_dispatch _ _ _ _ _ _ _) r = some r.0
reply_status Call.get_abi_version _ = none
reply_status (Call.get_info _) r = some r.0
reply_status (Call.runtime_create _) _ = none
reply_status (Call.runtime_destroy _) _ = none
reply_status (Call.apply_network_options _ _) r = some r
reply_status (Call.get_host_handles _ _) r = some r.0
reply_status (Call.runtime_start _) r = some r
reply_status (Call.runtime_stop _) r = some r
reply_status (Call.apply_snapshot _ _) r = some r
reply_status (Call.submit_envelope _ _ _) r = some r
reply_status (Call.get_config _ _) r = some r.0
reply_status (Call.get_health _ _) r = some r.0
reply_status (Call.get_stats _ _) r = some r.0
reply_status (Call.get_capabilities _) r = some r.0
reply_status (Call.apply_tcp_connection_options _ _ _) r = some r.0
reply_status (Call.get_tcp_connection_config _ _) r = some r.0
reply_status (Call.apply_tcp_security_options _ _ _) r = some r.0
reply_status (Call.get_tcp_security_info _ _) r = some r.0
reply_status (Call.core_reason_name _) _ = none
reply_status (Call.ask_client_create _ _) _ = none
reply_status (Call.ask_client_destroy _) _ = none
reply_status (Call.ask_client_begin _ _ _ _) r = some r.0
reply_status (Call.ask_ticket_await _ _ _ _ _) r = some r.0
reply_status (Call.ask_ticket_message_id _) _ = none
reply_status (Call.ask_ticket_destroy _) _ = none
reply_status (Call.build_raw_request _ _ _) r = some r.0
reply_status (Call.build_raw_reply _ _ _) r = some r.0
reply_status (Call.client_bytes_release _) _ = none
reply_status (Call.file_create _ _) r = some r.0
reply_status (Call.file_create_owned _ _) r = some r.0
reply_status (Call.file_destroy _) _ = none
reply_status (Call.file_simple _) r = some r
reply_status (Call.file_port _ _) r = some r.0
reply_status (Call.file_prepare _ _) r = some r
reply_status (Call.file_prepare_grant _ _ _) r = some r.0
reply_status (Call.file_submit _ _) r = some r
reply_status (Call.file_get _ _ _ _) r = some r.0
reply_status (Call.file_wait _ _ _ _ _ _) r = some r.0
reply_status (Call.file_control _ _ _) r = some r
reply_status (Call.file_stats _ _) r = some r.0
reply_status (Call.file_sha _ _ _) r = some r.0
reply_status (Call.stream_create _ _) r = some r.0
reply_status (Call.stream_create_owned _ _) r = some r.0
reply_status (Call.stream_destroy _) _ = none
reply_status (Call.stream_simple _) r = some r
reply_status (Call.stream_port _ _) r = some r.0
reply_status (Call.stream_publish _ _) r = some r
reply_status (Call.stream_publish_grant _ _ _) r = some r.0
reply_status (Call.stream_subscribe _ _) r = some r
reply_status (Call.stream_get _ _ _ _) r = some r.0
reply_status (Call.stream_wait _ _ _ _ _ _) r = some r.0
reply_status (Call.stream_pressure _ _ _ _) r = some r.0
reply_status (Call.stream_wait_pressure _ _ _ _ _ _) r = some r.0
reply_status (Call.stream_control _ _ _) r = some r
reply_status (Call.stream_stats _ _) r = some r.0

-- No status, or one that the bridge returns of itself.
abbrev pub IsRefusal : Option Status → Type 0
IsRefusal s = (s ≡ none) ⊎ ((s ≡ some invalid_arg) ⊎ (s ≡ some err_symbol))

-- A promise forwards the status: `status` reads it in the result.
abbrev pub Forwards : {A : Type 0} → (A → Option Status) → Spec A → Type 0
Forwards status (refuse a) = IsRefusal (status a)
Forwards status (forward name c result) = (r : Reply c) → status (result r) ≡ reply_status c r
Forwards status (attempt name absent c result) =
    IsRefusal (status absent) × ((r : Reply c) → status (result r) ≡ reply_status c r)

-- Either nothing was called, or one call was made and its status is the result's.
abbrev pub Forwarded : {A : Type 0} → Host → (A → Option Status) → World → A → World → Type 0
Forwarded host status w a w' =
    ((w' ≡ w) × IsRefusal (status a))
    ⊎ ((address : ℕ) × (c : Call) × (w' ≡ logged address c w)
        × (status a ≡ reply_status c (host.native address c w.log)))

-- The action returns, and the status of its result is one that is forwarded.
abbrev pub Forwarding : {A : Type 0} → Host → (A → Option Status) → M A → World → Type 0
Forwarding {A = A} host status m w =
    (a : A) × (w' : World) × (m w ≡ returns a w') × Forwarded host status w a w'

module _ (host : Host) (handle : Ptr) {A : Type 0} (status : A → Option Status) (w : World) where
  refused : (b : A) → IsRefusal (status b) → Forwarding host status (pure b) w
  refused b refusal = (b, w, refl, inl (refl, refusal))

  invoked :
      (f : Ptr) (c : Call) (result : Reply c → A)
      → f ≢ none
      → ((r : Reply c) → status (result r) ≡ reply_status c r)
      → Forwarding host status (do r ← invoke host f c; pure (result r)) w
  unfolding invoke
  invoked none c result found forwards = absurd (found refl)
  invoked (some address) c result found forwards =
      (_, _, refl, inr (address, c, refl, forwards (host.native address c w.log)))

  attempted-Forwarded :
      (f : Ptr) (absent : A) (c : Call) (result : Reply c → A)
      → IsRefusal (status absent)
      → ((r : Reply c) → status (result r) ≡ reply_status c r)
      → Forwarding host status (attempted host handle f absent c result) w
  attempted-Forwarded none absent c result refusal forwards = refused absent refusal
  attempted-Forwarded (some address) absent c result refusal forwards =
      invoked (some address) c result (λ p. cc) forwards

  pub perform-Forwarding :
      (s : Spec A)
      → Complete host handle
      → Bound host handle s
      → Forwards status s
      → Forwarding host status (perform host handle s) w
  perform-Forwarding (refuse a) complete b f = refused a f
  perform-Forwarding (forward name c result) complete (s, e) f =
      invoked (host.find_symbol handle name) c result (λ p. complete s (rw e p)) f
  perform-Forwarding (attempt name absent c result) complete b f =
      attempted-Forwarded (host.find_symbol handle name) absent c result f.0 f.1

pub same-Forwarding :
    (host : Host) {A : Type 0} (status : A → Option Status) (m n : M A) (w : World)
    → m w ≡ n w
    → Forwarding host status n w
    → Forwarding host status m w
same-Forwarding host status m n w e (a, w', f, q) = (a, w', e ∙ f, q)

-- The result of a getter that copies on success has the status of its reply.
pub copied-status :
    {B C : Type 0} (r : Status × B) (copy out : C)
    → ◌≡◌ {A = Option Status}
        (let p : Status × Option C = if is_ok r.0 then (ok, some copy) else (r.0, some out) in
          some p.0)
        (some r.0)
copied-status r copy out = elim (Bool-cases (is_ok r.0)) [
  | inl good ↦ rw (good, is_ok-ok r.0 good) refl
  | inr bad ↦ rw bad refl
]

pub feature-status :
    (feature : ℕ) (r : Status × RuntimeInfo)
    → ◌≡◌ {A = Option Status} (some (feature_result feature r).0) (some r.0)
unfolding feature_result
feature-status feature r = elim (Bool-cases (is_ok r.0)) [
  | inl good ↦ rw (good, is_ok-ok r.0 good) refl
  | inr bad ↦ rw bad refl
]
