-- ===== src/Swift/Startup/Attempts.antt =====
-- What an attempt to start acquires is what the Core library gave, call by call.
use coakka_runtime_swift.Prelude.{
  ℕ, Bool, true, false, ◌||◌, none, some, List, [], ◌∷◌, ◌++◌, ◌≡◌, refl, ◌⊎◌, inl, inr,
  append_assoc, if◌then◌else◌, sym, ◌∙◌,
}
use coakka_runtime_swift.Core.Records.{Ptr}
use coakka_runtime_swift.Core.Slot.{Slot}
use coakka_runtime_swift.Core.Call.{Call, Reply}
use coakka_runtime_swift.Machine.Heap.{World, Host}
use coakka_runtime_swift.Machine.Effects.{M, pure, ◌>>=◌}
use coakka_runtime_swift.Loader.Library.{is_ok}
use coakka_runtime_swift.Bridge.Access.{call_slot}
use coakka_runtime_swift.Bridge.Spec.{IsOpen}
use coakka_runtime_swift.Bridge.Safety.{Complete}
use coakka_runtime_swift.Bridge.Lifecycle.{empty_handles}
use coakka_runtime_swift.Swift.Errors.{Result, value, thrown}
use coakka_runtime_swift.Swift.Calls.{
  Runs, Replied, bind-Runs, pure-Runs, weaken-Runs, call_slot-Runs,
}
use coakka_runtime_swift.Swift.Session.{Session, new_session}
use coakka_runtime_swift.Swift.Session.Traffic.{released}
use coakka_runtime_swift.Swift.Startup.{StartSpec, Acquired}

abbrev pub any_call : (Call → Bool) → List Call → Bool
any_call test [] = false
any_call test (c ∷ cs) = test c || any_call test cs

abbrev pub is_get_handles : Call → Bool
is_get_handles (Call.get_host_handles _ _) = true
is_get_handles _ = false

abbrev pub is_start : Call → Bool
is_start (Call.runtime_start _) = true
is_start _ = false

abbrev pub is_client_create : Call → Bool
is_client_create (Call.ask_client_create _ _) = true
is_client_create _ = false

abbrev pub is_reader_create : Call → Bool
is_reader_create (Call.reader_create _ _ _) = true
is_reader_create _ = false

-- What was acquired by a call, if it was made: what the Core library's reply holds.
abbrev pub Known : {A : Type 0} → Host → Bool → A → (c : Call) → (Reply c → A) → A → Type 0
Known host asked absent c part got =
    ((asked ≡ false) × (got ≡ absent))
    ⊎ ((r : Reply c) × (asked ≡ true) × Replied host c r × (got ≡ part r))

pub known_as :
    {A : Type 0} (host : Host) (asked : Bool) (absent : A) (c : Call) (part : Reply c → A) (a b : A)
    → a ≡ b
    → Known host asked absent c part a
    → Known host asked absent c part b
known_as host asked absent c part a b e (inl k) = inl (k.0, sym e ∙ k.1)
known_as host asked absent c part a b e (inr k) = inr (k.0, k.1, k.2, sym e ∙ k.3)

-- The variables that the catch block reads say what the calls acquired.
pub record IsAccounted (host : Host) (spec : StartSpec) (rt : ℕ) (a : Acquired) (cs : List Call)
    : Type 0 where
  pub handles :
      Known host
        (any_call is_get_handles cs)
        none
        (Call.get_host_handles (some rt) (empty_handles 0))
        (λ r. if is_ok r.0 then some r.1 else none)
        a.handles
  pub started :
      Known host
        (any_call is_start cs)
        false
        (Call.runtime_start (some rt))
        (λ r. is_ok r)
        a.started
  pub client :
      Known host
        (any_call is_client_create cs)
        none
        (Call.ask_client_create (some rt) (some spec.handles_address))
        (λ r. r)
        a.client
  pub reader :
      Known host
        (any_call is_reader_create cs)
        none
        (Call.reader_create (some rt) (some spec.handles_address) (some none))
        (λ r. r.1)
        a.reader

-- A session that is returned owns what was acquired.
abbrev pub Owns : Ptr → ℕ → Acquired → Result Session → Type 0
Owns handle rt a (thrown e) = Unit
Owns handle rt a (value s) =
    (client reader : ℕ) × (a.client ≡ some client)
    × (a.reader ≡ some reader)
    × (a.started ≡ true)
    × ((h : _) × (a.handles ≡ some h) × (s ≡ new_session handle rt client h reader))

-- An attempt gives nothing back, and its result fits what it acquired.
abbrev pub Attempted : Host → Ptr → StartSpec → ℕ → Acquired × Result Session → List Call → Type 0
Attempted host handle spec rt r cs =
    IsAccounted host spec rt r.0 cs × (released cs ≡ []) × Owns handle rt r.0 r.1

module _ (host : Host) (handle : Ptr) (p : ℕ) (complete : Complete host handle) where
  -- A call and what is made of its reply.
  pub Replied-Runs :
      {A : Type 0} (s : Slot) (c : Call) (f : Reply c → A) (w : World)
      → IsOpen host handle p w
      → Runs
          (do r ← call_slot host (some p) s c; pure (f r))
          w
          (λ a cs. (cs ≡ c ∷ []) × ((r : Reply c) × Replied host c r × (a ≡ f r)))
  Replied-Runs s c f w o =
      bind-Runs host handle p o (call_slot-Runs host handle p complete s c w o)
        (λ r cs w' o' h. pure-Runs (f r) w' (h.0, (r, h.1, refl)))

  -- One call, and what follows it, after other calls.
  pub step-Runs :
      {A B : Type 0} {m : M A} {k : A → M B} {w : World} (c : Call) (before : List Call)
      {R : A → Type 0} (Q : B → List Call → Type 0)
      → IsOpen host handle p w
      → Runs m w (λ a cs. (cs ≡ c ∷ []) × R a)
      → ((a : A) (w' : World)
          → IsOpen host handle p w'
          → R a
          → Runs (k a) w' (λ b ds. Q b (ds ++ c ∷ before)))
      → Runs (m >>= k) w (λ b ds. Q b (ds ++ before))
  step-Runs c before Q o r f = bind-Runs host handle p o r (λ a cs w' o' h.
      weaken-Runs (f a w' o' h.1) (λ b ds q. rw (h.0, ← append_assoc ds (c ∷ []) before) q))
