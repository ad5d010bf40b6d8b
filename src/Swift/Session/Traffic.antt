-- ===== src/Swift/Session/Traffic.antt =====
-- The calls that give an owner back, and parts of a session that make none of them: a begin, a
-- reply, the release of a frame.
use coakka_runtime_swift.Prelude.{
  ℕ, suc, ◌<◌, Bool, true, false, none, some, List, [], ◌∷◌, ◌++◌, ltb, ◌≡◌, refl, arith,
  if◌then◌else◌, Bool-cases, Option-cases, inl, inr,
}
use coakka_runtime_swift.Status.{Status}
use coakka_runtime_swift.Core.Records.{Ptr}
use coakka_runtime_swift.Core.Call.{Call}
use coakka_runtime_swift.Machine.Heap.{World, Host}
use coakka_runtime_swift.Loader.Library.{is_ok}
use coakka_runtime_swift.Bridge.Spec.{IsOpen}
use coakka_runtime_swift.Bridge.Safety.{Complete}
use coakka_runtime_swift.Swift.Errors.{RuntimeError, Result, value, thrown}
use coakka_runtime_swift.Bridge.Client.{client_bytes_release}
use coakka_runtime_swift.Swift.Calls.{Runs, bind-Runs, pure-Runs, if-Runs, weaken-Runs}
use coakka_runtime_swift.Swift.Native.{
  submit_envelope-Runs, owned_frame_release-Runs, ask_client_begin-Runs, build_raw_reply-Runs,
  build_raw_request-Runs, client_bytes_release-Runs, client_bytes_release-none,
}
use coakka_runtime_swift.Swift.Session.{
  Session, require_open, take_ticket, accept_ticket, begin, submit, release_frame, out_at,
  max_active_asks, begin_open, begin_built, begin_request, submit_open, send_built, number_at,
}

-- A call that gives an owner back.
abbrev pub releases : Call → Bool
releases (Call.reader_destroy _) = true
releases (Call.ask_client_destroy _) = true
releases (Call.close_handles _) = true
releases (Call.runtime_destroy _) = true
releases _ = false

-- The calls that give an owner back.
unfoldable pub released : List Call → List Call
released [] = []
released (c ∷ cs) = if releases c then c ∷ released cs else released cs

pub released-append : (cs ds : List Call) → released (cs ++ ds) ≡ released cs ++ released ds
unfolding released
released-append [] ds = refl
released-append (c ∷ cs) ds = ground (arith, released-append cs ds)

abbrev pub IsHarmless : List Call → Type 0
IsHarmless cs = released cs ≡ []

pub silent : IsHarmless []
unfolding released
silent = refl

pub append-IsHarmless : (cs ds : List Call) → IsHarmless cs → IsHarmless ds → IsHarmless (cs ++ ds)
append-IsHarmless cs ds a b = rw (released-append cs ds, a) b

pub single : (c : Call) (cs : List Call) → releases c ≡ false → cs ≡ c ∷ [] → IsHarmless cs
unfolding released
single c cs r e = rw (e, r) refl

-- A begin is refused and changes nothing, or it counts one more active ask; it does so only if the
-- session is not closing and the bound is not reached.
pub data BeginOutcome (s : Session) : Session × Result ℕ → Type 0 where
  refused : (e : RuntimeError) → BeginOutcome s (s, thrown e)
  begun :
      (t : ℕ)
      → s.closing ≡ false
      → s.active_asks < max_active_asks
      → BeginOutcome s (record s { active_asks = suc s.active_asks }, value t)

take_ticket-Outcome :
    (s : Session) (out : Ptr)
    → s.closing ≡ false
    → s.active_asks < max_active_asks
    → BeginOutcome s (take_ticket s out)
unfolding take_ticket
take_ticket-Outcome s none e h = refused _
take_ticket-Outcome s (some t) e h = begun t e h

accept_ticket-Outcome :
    (s : Session) (status : Status) (out : Ptr)
    → s.closing ≡ false
    → s.active_asks < max_active_asks
    → BeginOutcome s (accept_ticket s status out)
unfolding accept_ticket
accept_ticket-Outcome s status out e h = elim (Bool-cases (is_ok status)) [
  | inl fine ↦ rw fine (take_ticket-Outcome s out e h)
  | inr failed ↦ rw failed (refused _)
]

-- requireOpenLocked lets a call through only if the session is not closing.
require_open-closing :
    (s : Session) (r : ℕ) → require_open s ≡ value r → (s.closing ≡ false) × (s.runtime ≡ some r)
unfolding require_open
require_open-closing s r e = elim (Bool-cases s.closing) [
  | inl shut ↦ absurd (ground (arith, shut, e))
  | inr going ↦ elim (Option-cases s.runtime) [
    | inl gone ↦ absurd (ground (arith, going, gone, e))
    | inr (q, live) ↦ ground (arith, going, live, e)
  ]
]

module _ (host : Host) (handle : Ptr) (p : ℕ) (complete : Complete host handle) where
  begin_open-Runs :
      (frame : Ptr) (count : ℕ) (s : Session) (w : World) (gate : Result ℕ)
      → IsOpen host handle p w
      → s.handle ≡ some p
      → require_open s ≡ gate
      → Runs (begin_open host frame count s gate) w (λ r cs. BeginOutcome s r × IsHarmless cs)
  unfolding begin_open
  begin_open-Runs frame count s w (thrown e) o here g = pure-Runs _ w (refused e, silent)
  begin_open-Runs frame count s w (value r) o here g =
      if-Runs (ltb s.active_asks max_active_asks)
        (λ few.
          bind-Runs host handle p o
            (ask_client_begin-Runs host handle p complete w o here s.client frame count)
            (λ r' cs w' o' c. pure-Runs _ w' (
              accept_ticket-Outcome s r'.0 (out_at r'.1) (require_open-closing s r g).0 ground
                  arith,
              single _ cs refl c,
            )))
        (λ many. pure-Runs _ w (refused _, silent))

  pub begin-Runs :
      (frame : Ptr) (count : ℕ) (s : Session) (w : World)
      → IsOpen host handle p w
      → s.handle ≡ some p
      → Runs (begin host frame count s) w (λ r cs. BeginOutcome s r × IsHarmless cs)
  unfolding begin
  begin-Runs frame count s w o here = begin_open-Runs frame count s w (require_open s) o here refl

  pub release_wire-Runs :
      (l wire : Ptr) (w : World)
      → IsOpen host handle p w
      → l ≡ some p
      → Runs (client_bytes_release host l wire) w (λ _ cs. IsHarmless cs)
  release_wire-Runs l none w o here =
      weaken-Runs (client_bytes_release-none host handle p complete w o here)
        (λ _ cs c. rw c silent)
  release_wire-Runs l (some q) w o here =
      weaken-Runs (client_bytes_release-Runs host handle p complete w o here q)
        (λ _ cs c. single _ cs refl c)

  begin_built-Runs :
      (s : Session) (built : Status) (wire : Ptr) (length : ℕ) (w : World)
      → IsOpen host handle p w
      → s.handle ≡ some p
      → Runs (begin_built host s built wire length) w (λ r cs. BeginOutcome s r × IsHarmless cs)
  unfolding begin_built
  begin_built-Runs s built wire length w o here =
      if-Runs (is_ok built)
        (λ fine. bind-Runs host handle p o (begin-Runs wire length s w o here) (λ r cs w' o' h.
          bind-Runs host handle p o' (release_wire-Runs s.handle wire w' o' here)
            (λ _ ds w'' o'' d. pure-Runs r w'' (h.0, append-IsHarmless ds cs d h.1))))
        (λ failed.
          bind-Runs host handle p o (release_wire-Runs s.handle wire w o here)
            (λ _ ds w' o' d. pure-Runs _ w' (refused _, d)))

  pub begin_request-Runs :
      (spec : ℕ) (s : Session) (w : World)
      → IsOpen host handle p w
      → s.handle ≡ some p
      → Runs (begin_request host spec s) w (λ r cs. BeginOutcome s r × IsHarmless cs)
  unfolding begin_request
  begin_request-Runs spec s w o here =
      bind-Runs host handle p o (build_raw_request-Runs host handle p complete w o here spec)
        (λ b cs w' o' c.
          weaken-Runs (begin_built-Runs s b.0 (out_at b.1) (number_at b.2) w' o' here)
            (λ _ ds h. (h.0, append-IsHarmless ds cs h.1 (single _ cs refl c))))

  send_built-Runs :
      (s : Session) (r : ℕ) (built : Status) (wire : Ptr) (length : ℕ) (w : World)
      → IsOpen host handle p w
      → s.handle ≡ some p
      → Runs (send_built host s r built wire length) w (λ _ cs. IsHarmless cs)
  unfolding send_built
  send_built-Runs s r built wire length w o here =
      if-Runs (is_ok built)
        (λ fine.
          bind-Runs host handle p o
            (submit_envelope-Runs host handle p complete w o here r wire length)
            (λ status cs w' o' c.
              bind-Runs host handle p o' (release_wire-Runs s.handle wire w' o' here)
                (λ _ ds w'' o'' d.
                  pure-Runs _ w'' (append-IsHarmless ds cs d (single _ cs refl c)))))
        (λ failed.
          bind-Runs host handle p o (release_wire-Runs s.handle wire w o here)
            (λ _ ds w' o' d. pure-Runs _ w' d))

  submit_open-Runs :
      (reply : ℕ) (s : Session) (w : World) (gate : Result ℕ)
      → IsOpen host handle p w
      → s.handle ≡ some p
      → Runs (submit_open host reply s gate) w (λ _ cs. IsHarmless cs)
  unfolding submit_open
  submit_open-Runs reply s w (thrown e) o here = pure-Runs _ w silent
  submit_open-Runs reply s w (value r) o here =
      bind-Runs host handle p o (build_raw_reply-Runs host handle p complete w o here reply)
        (λ b cs w' o' c.
          weaken-Runs (send_built-Runs s r b.0 (out_at b.1) (number_at b.2) w' o' here)
            (λ _ ds d. append-IsHarmless ds cs d (single _ cs refl c)))

  pub submit-Runs :
      (reply : ℕ) (s : Session) (w : World)
      → IsOpen host handle p w
      → s.handle ≡ some p
      → Runs (submit host reply s) w (λ _ cs. IsHarmless cs)
  unfolding submit
  submit-Runs reply s w o here = submit_open-Runs reply s w (require_open s) o here

  pub release_frame-Runs :
      (s : Session) (frame : Ptr) (w : World)
      → IsOpen host handle p w
      → s.handle ≡ some p
      → Runs (release_frame host s frame) w (λ _ cs. IsHarmless cs)
  unfolding release_frame
  release_frame-Runs s none w o here = pure-Runs _ w silent
  release_frame-Runs s (some f) w o here =
      weaken-Runs (owned_frame_release-Runs host handle p complete w o here (some f))
        (λ _ cs c. single _ cs refl c)
