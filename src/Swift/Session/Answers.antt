-- ===== src/Swift/Session/Answers.antt =====
-- Waiting for an answer gives no owner of the session back.
use coakka_runtime_swift.Prelude.{ℕ, some, refl, ◌≡◌, ◌&&◌, ◌||◌, ◌==◌, int_eq}
use coakka_runtime_swift.Status.{Status, would_block}
use coakka_runtime_swift.Core.Records.{Ptr}
use coakka_runtime_swift.Machine.Heap.{World, Host}
use coakka_runtime_swift.Machine.Effects.{M, pure, ◌>>=◌, ◌>>◌}
use coakka_runtime_swift.Loader.Library.{is_ok}
use coakka_runtime_swift.Bridge.Spec.{IsOpen}
use coakka_runtime_swift.Bridge.Safety.{Complete}
use coakka_runtime_swift.Bridge.Client.{ticket_cancel}
use coakka_runtime_swift.Swift.Calls.{Runs, bind-Runs, pure-Runs, if-Runs, weaken-Runs}
use coakka_runtime_swift.Swift.Native.{
  ticket_cancel-Runs, copy_envelope_payload-Runs, ask_ticket_await-Runs,
}
use coakka_runtime_swift.Swift.Session.{out_at}
use coakka_runtime_swift.Swift.Session.Ask.{
  Wait, copy_payload, accept_answer, judge_answer, await_result, result_response,
}
use coakka_runtime_swift.Swift.Session.Traffic.{
  IsHarmless, silent, single, append-IsHarmless, release_wire-Runs,
}

module _ (host : Host) (handle : Ptr) (p : ℕ) (complete : Complete host handle) {l : Ptr}
    (here : l ≡ some p) where
  abbrev Harmless : {A : Type 0} → M A → World → Type 0
  Harmless m w = Runs m w (λ _ cs. IsHarmless cs)

  then-Harmless :
      {A B : Type 0} {m : M A} {k : A → M B} {w : World}
      → IsOpen host handle p w
      → Harmless m w
      → ((a : A) (w' : World) → IsOpen host handle p w' → Harmless (k a) w')
      → Harmless (m >>= k) w
  then-Harmless o r f =
      bind-Runs host handle p o r
        (λ a cs w' o' c. weaken-Runs (f a w' o') (λ _ ds d. append-IsHarmless ds cs d c))

  cancel-Harmless :
      {A : Type 0} (t : ℕ) (a : A) (w : World)
      → IsOpen host handle p w
      → Harmless (do ticket_cancel host l (some t); pure a) w
  cancel-Harmless t a w o =
      then-Harmless o
        (weaken-Runs (ticket_cancel-Runs host handle p complete w o here t)
          (λ _ cs c. single _ cs refl c))
        (λ _ w' o'. pure-Runs a w' silent)

  copy_payload-Harmless :
      (kind : ℕ) (wire : Ptr) (size : ℕ) (w : World)
      → IsOpen host handle p w
      → Harmless (copy_payload host l kind wire size) w
  unfolding copy_payload
  copy_payload-Harmless kind wire size w o =
      then-Harmless o
        (weaken-Runs (copy_envelope_payload-Runs host handle p complete w o here wire size 2)
          (λ _ cs c. single _ cs refl c))
        (λ c w' o'.
          then-Harmless o' (release_wire-Runs host handle p complete l (out_at c.1) w' o' here)
            (λ _ w'' o''. pure-Runs _ w'' silent))

  judge_answer-Harmless :
      (t : ℕ) (a : Wait) (status : Status) (kind : ℕ) (wire : Ptr) (size : ℕ) (w : World)
      → IsOpen host handle p w
      → Harmless (judge_answer host l t a status kind wire size) w
  unfolding judge_answer accept_answer
  judge_answer-Harmless t a status kind wire size w o =
      if-Runs (is_ok status || int_eq status would_block)
        (λ _.
          if-Runs a.cancelled_after (λ _. cancel-Harmless t _ w o)
            (λ _.
              if-Runs (int_eq status would_block) (λ _. pure-Runs _ w silent)
                (λ _.
                  if-Runs (a.payload_only && (kind == result_response))
                    (λ _. copy_payload-Harmless kind wire size w o) (λ _. pure-Runs _ w silent))))
        (λ _. pure-Runs _ w silent)

  pub await_result-Harmless :
      (t : ℕ) (a : Wait) (w : World) → IsOpen host handle p w → Harmless (await_result host l t a) w
  unfolding await_result
  await_result-Harmless t a w o =
      if-Runs a.cancelled_before (λ _. cancel-Harmless t _ w o)
        (λ _.
          then-Harmless o
            (weaken-Runs (ask_ticket_await-Runs host handle p complete w o here t a.timeout_ms)
              (λ _ cs c. single _ cs refl c))
            (λ r w₁ o₁.
              then-Harmless o₁ (judge_answer-Harmless t a r.0 _ _ _ w₁ o₁) (λ answer w₂ o₂.
                then-Harmless o₂
                  (release_wire-Runs host handle p complete l (out_at r.2) w₂ o₂ here)
                  (λ _ w₃ o₃. pure-Runs answer w₃ silent))))
