-- ===== src/Swift/Startup/Undone.antt =====
-- What the catch block of RuntimeHost.start gives back.
use coakka_runtime_swift.Prelude.{
  ℕ, Bool, true, false, none, some, Option, List, [], ◌∷◌, ◌++◌, ◌≡◌, refl, ◌∙◌,
}
use coakka_runtime_swift.Core.Records.{Ptr, HostHandles}
use coakka_runtime_swift.Core.Call.{Call}
use coakka_runtime_swift.Machine.Heap.{World, Host}
use coakka_runtime_swift.Machine.Effects.{M, ◌>>=◌}
use coakka_runtime_swift.Bridge.Spec.{IsOpen}
use coakka_runtime_swift.Bridge.Safety.{Complete}
use coakka_runtime_swift.Bridge.Lifecycle
use coakka_runtime_swift.Swift.Calls.{Runs, bind-Runs, pure-Runs, weaken-Runs}
use coakka_runtime_swift.Swift.Native.{
  stop-Runs, destroy-Runs, host_handles_close-Runs, ask_client_destroy-Runs, reader_destroy-Runs,
}
use coakka_runtime_swift.Swift.Session.Traffic.{released, released-append}
use coakka_runtime_swift.Swift.Startup.{
  StartSpec, Acquired, release_reader, stop_started, release_client, release_handles, undo,
}

abbrev handles_calls : Option HostHandles → List Call
handles_calls none = []
handles_calls (some h) = Call.close_handles h ∷ []

abbrev client_calls : Ptr → List Call
client_calls none = []
client_calls (some c) = Call.ask_client_destroy (some c) ∷ []

abbrev reader_calls : Ptr → List Call
reader_calls none = []
reader_calls (some q) = Call.reader_destroy (some q) ∷ []

-- The calls that give back a runtime and all that was acquired with it, the latest first.
abbrev pub undo_calls : ℕ → Acquired → List Call
undo_calls rt a =
    Call.runtime_destroy (some rt) ∷ handles_calls a.handles
    ++ (client_calls a.client ++ reader_calls a.reader)

undo_shape :
    (c : Call) (h : Option HostHandles) (client reader : Ptr)
    → (((c ∷ [] ++ handles_calls h) ++ client_calls client) ++ []) ++ reader_calls reader
      ≡ c ∷ handles_calls h ++ (client_calls client ++ reader_calls reader)
undo_shape c none none reader = refl
undo_shape c none (some q) reader = refl
undo_shape c (some h) none reader = refl
undo_shape c (some h) (some q) reader = refl

module _ (host : Host) (handle : Ptr) (p : ℕ) (complete : Complete host handle) (spec : StartSpec)
    (rt : ℕ) where
  abbrev Gives : M (Unit {0}) → World → List Call → Type 0
  Gives m w xs = Runs m w (λ _ cs. released cs ≡ xs)

  then-Gives :
      {A : Type 0} {m : M A} {k : A → M (Unit {0})} {w : World} (xs ys : List Call)
      → IsOpen host handle p w
      → Runs m w (λ _ cs. released cs ≡ xs)
      → ((a : A) (w' : World) → IsOpen host handle p w' → Gives (k a) w' ys)
      → Gives (m >>= k) w (ys ++ xs)
  then-Gives xs ys o r f =
      bind-Runs host handle p o r
        (λ a cs w' o' e. weaken-Runs (f a w' o') (λ _ ds d. rw (← e, ← d) (released-append ds cs)))

  release_reader-Gives :
      (q : Ptr) (w : World)
      → IsOpen host handle p w
      → Gives (release_reader host (some p) spec rt q) w (reader_calls q)
  unfolding release_reader released
  release_reader-Gives none w o = pure-Runs tt w refl
  release_reader-Gives (some q) w o =
      weaken-Runs (reader_destroy-Runs host handle p complete w o refl (some q))
        (λ _ cs c. rw c refl)

  stop_started-Gives :
      (b : Bool) (w : World)
      → IsOpen host handle p w
      → Gives (stop_started host (some p) spec rt b) w []
  unfolding stop_started released
  stop_started-Gives false w o = pure-Runs tt w refl
  stop_started-Gives true w o =
      bind-Runs host handle p o (stop-Runs host handle p complete w o refl rt)
        (λ status cs w' o' c. pure-Runs tt w' (rw c.0 refl))

  release_client-Gives :
      (c : Ptr) (w : World)
      → IsOpen host handle p w
      → Gives (release_client host (some p) spec rt c) w (client_calls c)
  unfolding release_client released
  release_client-Gives none w o = pure-Runs tt w refl
  release_client-Gives (some c) w o =
      weaken-Runs (ask_client_destroy-Runs host handle p complete w o refl c) (λ _ cs e. rw e refl)

  release_handles-Gives :
      (h : Option HostHandles) (w : World)
      → IsOpen host handle p w
      → Gives (release_handles host (some p) spec rt h) w (handles_calls h)
  unfolding release_handles released
  release_handles-Gives none w o = pure-Runs tt w refl
  release_handles-Gives (some h) w o =
      bind-Runs host handle p o (host_handles_close-Runs host handle p complete w o refl h)
        (λ closed cs w' o' e. pure-Runs tt w' (rw e refl))

  destroy-Gives :
      (w : World)
      → IsOpen host handle p w
      → Gives (Lifecycle.destroy host (some p) (some rt)) w (Call.runtime_destroy (some rt) ∷ [])
  unfolding released
  destroy-Gives w o =
      weaken-Runs (destroy-Runs host handle p complete w o refl rt) (λ _ cs e. rw e refl)

  pub undo-Gives :
      (a : Acquired) (w : World)
      → IsOpen host handle p w
      → Gives (undo host (some p) spec rt a) w (undo_calls rt a)
  unfolding undo
  undo-Gives a w o =
      weaken-Runs
        (then-Gives _ _ o (release_reader-Gives a.reader w o) (λ _ w₁ o₁.
          then-Gives _ _ o₁ (stop_started-Gives a.started w₁ o₁) (λ _ w₂ o₂.
            then-Gives _ _ o₂ (release_client-Gives a.client w₂ o₂) (λ _ w₃ o₃.
              then-Gives _ _ o₃ (release_handles-Gives a.handles w₃ o₃)
                (λ _ w₄ o₄. destroy-Gives w₄ o₄)))))
        (λ _ cs e. e ∙ undo_shape (Call.runtime_destroy (some rt)) a.handles a.client a.reader)
