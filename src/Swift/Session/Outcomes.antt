-- ===== src/Swift/Session/Outcomes.antt =====
-- What stopLocked, retireLocked and a delivery of a ticket can do, case by case, and the calls that
-- go with it.
use coakka_runtime_swift.Prelude.{
  ℕ, Bool, true, false, ◌&&◌, not, Option, none, some, List, [], ◌∷◌, ◌++◌, ◌==◌, is_null, ◌≡◌,
  refl, arith, ◌∙◌,
}
use coakka_runtime_swift.Status.{Status}
use coakka_runtime_swift.Core.Records.{Ptr, HostHandles}
use coakka_runtime_swift.Core.Call.{Call}
use coakka_runtime_swift.Machine.Heap.{World, Host, Event}
use coakka_runtime_swift.Machine.Effects.{◌>>=◌}
use coakka_runtime_swift.Bridge.Spec.{IsOpen}
use coakka_runtime_swift.Bridge.Safety.{Complete}
use coakka_runtime_swift.Swift.Calls.{Runs, Answered, bind-Runs, pure-Runs, if-Runs, weaken-Runs}
use coakka_runtime_swift.Swift.Native.{
  stop-Runs, destroy-Runs, host_handles_close-Runs, ask_client_destroy-Runs,
}
use coakka_runtime_swift.Swift.Session.{
  Session, after_stop, after_retire, stop_runtime, retire_runtime, stop_locked, retire_locked,
}

-- A stop is due.
abbrev pub stop_due : Session → Bool
stop_due s = s.reader_retired && not s.stopped && not (is_null s.runtime)

-- All is over: the runner is done, a stop succeeded and no ask is active.
abbrev pub is_over : Session → Bool
is_over s = s.reader_retired && s.stopped && (s.active_asks == 0)

-- A retirement is due.
abbrev pub retire_due : Session → Bool
retire_due s = is_over s && not (is_null s.runtime)

abbrev pub stop_call : ℕ → List Call
stop_call r = Call.runtime_stop (some r) ∷ []

-- The latest first.
abbrev pub retire_calls : ℕ → ℕ → HostHandles → List Call
retire_calls client r h =
    Call.runtime_destroy (some r)
    ∷ Call.close_handles h
    ∷ Call.ask_client_destroy (some client)
    ∷ []

pub data StopOutcome (host : Host) (log : List Event) (s : Session)
    : Session → List Call → Type 0 where
  not_due : stop_due s ≡ false → StopOutcome host log s s []
  tried :
      (r : ℕ) (status : Status)
      → stop_due s ≡ true
      → s.runtime ≡ some r
      → Answered host log (Call.runtime_stop (some r)) status
      → StopOutcome host log s (after_stop s status) (stop_call r)

pub data RetireOutcome (s : Session) : Session → List Call → Type 0 where
  not_due : retire_due s ≡ false → RetireOutcome s s []
  retired :
      (r : ℕ) (closed : Option HostHandles)
      → retire_due s ≡ true
      → s.runtime ≡ some r
      → RetireOutcome s (after_retire s closed) (retire_calls s.client r s.handles)

pub data EndOutcome (host : Host) (log : List Event) (s : Session)
    : Session → List Call → Type 0 where
  ended :
      {s₁ s₂ : Session} {cs ds : List Call}
      → StopOutcome host log s s₁ cs
      → RetireOutcome s₁ s₂ ds
      → EndOutcome host log s s₂ (ds ++ cs)

module _ (host : Host) (handle : Ptr) (p : ℕ) (complete : Complete host handle) where
  stop_runtime-Runs :
      (s : Session) (r : Ptr) (w : World)
      → IsOpen host handle p w
      → s.handle ≡ some p
      → s.runtime ≡ r
      → (s.reader_retired && not s.stopped) ≡ true
      → Runs (stop_runtime host s r) w (λ s' cs. StopOutcome host w.log s s' cs)
  unfolding stop_runtime
  stop_runtime-Runs s none w o here e due = pure-Runs s w (not_due ground arith)
  stop_runtime-Runs s (some r) w o here e due =
      bind-Runs host handle p o (stop-Runs host handle p complete w o here r) (λ status cs w' o' h.
        pure-Runs (after_stop s status) w' (rw h.0 (tried r status ground arith e h.1)))

  pub stop_locked-Runs :
      (s : Session) (w : World)
      → IsOpen host handle p w
      → s.handle ≡ some p
      → Runs (stop_locked host s) w (λ s' cs. StopOutcome host w.log s s' cs)
  unfolding stop_locked
  stop_locked-Runs s w o here =
      if-Runs (s.reader_retired && not s.stopped)
        (λ due. stop_runtime-Runs s s.runtime w o here refl due)
        (λ skip. pure-Runs s w (not_due ground arith))

  retire_runtime-Runs :
      (s : Session) (r : Ptr) (w : World)
      → IsOpen host handle p w
      → s.handle ≡ some p
      → s.runtime ≡ r
      → (s.reader_retired && s.stopped && (s.active_asks == 0)) ≡ true
      → Runs (retire_runtime host s r) w (λ s' cs. RetireOutcome s s' cs)
  unfolding retire_runtime
  retire_runtime-Runs s none w o here e due = pure-Runs s w (not_due ground arith)
  retire_runtime-Runs s (some r) w o here e due =
      bind-Runs host handle p o (ask_client_destroy-Runs host handle p complete w o here s.client)
        (λ _ ds w₁ o₁ a.
          bind-Runs host handle p o₁
            (host_handles_close-Runs host handle p complete w₁ o₁ here s.handles)
            (λ closed bs w₂ o₂ b.
              bind-Runs host handle p o₂ (destroy-Runs host handle p complete w₂ o₂ here r)
                (λ _ cs w₃ o₃ c.
                  pure-Runs (after_retire s closed) w₃
                    (rw (a, b, c) (retired r closed ground arith e)))))

  pub retire_locked-Runs :
      (s : Session) (w : World)
      → IsOpen host handle p w
      → s.handle ≡ some p
      → Runs (retire_locked host s) w (λ s' cs. RetireOutcome s s' cs)
  unfolding retire_locked
  retire_locked-Runs s w o here =
      if-Runs (s.reader_retired && s.stopped && (s.active_asks == 0))
        (λ due. retire_runtime-Runs s s.runtime w o here refl due)
        (λ skip. pure-Runs s w (not_due ground arith))

  stop-handle :
      {log : List Event} {s s' : Session} {cs : List Call}
      → StopOutcome host log s s' cs
      → s'.handle ≡ s.handle
  unfolding after_stop
  stop-handle (not_due e) = refl
  stop-handle (tried r status due live reply) = refl

  -- stopLocked(); retireLocked()
  pub ended-Runs :
      (s : Session) (w : World)
      → IsOpen host handle p w
      → s.handle ≡ some p
      → Runs (stop_locked host s >>= retire_locked host) w (λ s' cs. EndOutcome host w.log s s' cs)
  ended-Runs s w o here = bind-Runs host handle p o (stop_locked-Runs s w o here) (λ s₁ cs w₁ o₁ a.
      weaken-Runs (retire_locked-Runs s₁ w₁ o₁ (stop-handle a ∙ here)) (λ s₂ ds b. ended a b))
