-- ===== src/Swift/Session/Rounds.antt =====
-- A round of the request runner releases no owner, and changes no more of the session than the
-- reason for which the loop ended.
use coakka_runtime_swift.Prelude.{
  ℕ, Bool, true, false, none, some, List, ◌++◌, ◌==◌, int_eq, is_null, ◌≡◌, refl,
}
use coakka_runtime_swift.Status.{Status, would_block, closed as status_closed}
use coakka_runtime_swift.Core.Records.{Ptr}
use coakka_runtime_swift.Core.Call.{Call}
use coakka_runtime_swift.Machine.Heap.{World, Host}
use coakka_runtime_swift.Loader.Library.{is_ok}
use coakka_runtime_swift.Bridge.Spec.{IsOpen}
use coakka_runtime_swift.Bridge.Safety.{Complete}
use coakka_runtime_swift.Swift.Errors.{RuntimeError}
use coakka_runtime_swift.Swift.Calls.{Runs, bind-Runs, pure-Runs, if-Runs, weaken-Runs}
use coakka_runtime_swift.Swift.Native.{
  reader_read-Runs, owned_frame_data-Runs, owned_frame_size-Runs,
}
use coakka_runtime_swift.Swift.Session.{Session, out_at}
use coakka_runtime_swift.Swift.Session.Reader.{
  Runner, reading, dispatching, leaving, drop_frame, fail_read, take_bytes, judge, read_request,
  joining, done,
}
use coakka_runtime_swift.Machine.Effects.{M}
use coakka_runtime_swift.Swift.Session.Traffic.{
  IsHarmless, silent, single, append-IsHarmless, release_frame-Runs,
}

-- The runner has not destroyed the reader.
abbrev pub has_reader : Runner → Bool
has_reader joining = false
has_reader done = false
has_reader _ = true

-- A round of the runner may record why it ended, and changes nothing else.
pub data RoundOutcome (s : Session) : Session × Runner → Type 0 where
  went_on : (next : Runner) → has_reader next ≡ true → RoundOutcome s (s, next)
  broke : (e : RuntimeError) → RoundOutcome s (fail_read s e, leaving)

module _ (host : Host) (handle : Ptr) (p : ℕ) (complete : Complete host handle) where
  drop_frame-Runs :
      (s s' : Session) (frame : Ptr) (next : Runner) (w : World)
      → IsOpen host handle p w
      → s'.handle ≡ some p
      → RoundOutcome s (s', next)
      → Runs (drop_frame host s' frame next) w (λ r cs. RoundOutcome s r × IsHarmless cs)
  unfolding drop_frame
  drop_frame-Runs s s' frame next w o here end =
      bind-Runs host handle p o (release_frame-Runs host handle p complete s' frame w o here)
        (λ _ cs w' o' c. pure-Runs _ w' (end, c))

  -- After calls that release no owner.
  following :
      {s : Session} {m : M (Session × Runner)} {w : World} (cs : List Call)
      → IsHarmless cs
      → Runs m w (λ r ds. RoundOutcome s r × IsHarmless ds)
      → Runs m w (λ r ds. RoundOutcome s r × IsHarmless (ds ++ cs))
  following cs c r = weaken-Runs r (λ a ds h. (h.0, append-IsHarmless ds cs h.1 c))

  take_bytes-Runs :
      (s : Session) (frame : Ptr) (w : World)
      → IsOpen host handle p w
      → s.handle ≡ some p
      → Runs (take_bytes host s frame) w (λ r cs. RoundOutcome s r × IsHarmless cs)
  unfolding take_bytes
  take_bytes-Runs s none w o here = pure-Runs _ w (broke _, silent)
  take_bytes-Runs s (some f) w o here =
      bind-Runs host handle p o (owned_frame_data-Runs host handle p complete w o here (some f))
        (λ bytes bs w₁ o₁ b. following bs (single _ bs refl b) (
          if-Runs (is_null bytes)
            (λ missing. drop_frame-Runs s _ (some f) leaving w₁ o₁ here (broke _))
            (λ there.
              bind-Runs host handle p o₁
                (owned_frame_size-Runs host handle p complete w₁ o₁ here (some f))
                (λ size cs w₂ o₂ c. following cs (single _ cs refl c) (
                  if-Runs (size == 0)
                    (λ empty. drop_frame-Runs s _ (some f) leaving w₂ o₂ here (broke _))
                    (λ full. pure-Runs _ w₂ (went_on (dispatching f) refl, silent)))))))

  judge-Runs :
      (s : Session) (status : Status) (frame : Ptr) (w : World)
      → IsOpen host handle p w
      → s.handle ≡ some p
      → Runs (judge host s status frame) w (λ r cs. RoundOutcome s r × IsHarmless cs)
  unfolding judge
  judge-Runs s status frame w o here =
      if-Runs (int_eq status would_block)
        (λ _. drop_frame-Runs s s frame reading w o here (went_on reading refl))
        (λ _.
          if-Runs (int_eq status status_closed)
            (λ _. drop_frame-Runs s s frame leaving w o here (went_on leaving refl))
            (λ _.
              if-Runs (is_ok status) (λ _. take_bytes-Runs s frame w o here)
                (λ _. drop_frame-Runs s _ frame leaving w o here (broke _))))

  pub read_request-Runs :
      (s : Session) (w : World)
      → IsOpen host handle p w
      → s.handle ≡ some p
      → Runs (read_request host s) w (λ r cs. RoundOutcome s r × IsHarmless cs)
  unfolding read_request
  read_request-Runs s w o here =
      if-Runs s.closing (λ _. pure-Runs _ w (went_on leaving refl, silent))
        (λ _.
          bind-Runs host handle p o
            (reader_read-Runs host handle p complete w o here (some s.reader) 100)
            (λ r cs w' o' c.
              following cs (single _ cs refl c) (judge-Runs s r.0 (out_at r.1) w' o' here)))
