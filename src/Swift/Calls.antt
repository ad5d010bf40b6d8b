-- ===== src/Swift/Calls.antt =====
-- How the package's code runs through an open library: it returns, and changes nothing but the
-- log. `Runs` says so of an action, with what is known of its result and of the calls it made.
use coakka_runtime_swift.Prelude.{
  ℕ, Bool, none, some, List, [], ◌∷◌, ◌++◌, ◌≡◌, refl, ap, ◌∙◌, append_assoc, if◌then◌else◌,
  Option-cases, inl, inr, true, false,
}
use coakka_runtime_swift.Core.Records.{Ptr}
use coakka_runtime_swift.Core.Slot.{Slot, symbol_name}
use coakka_runtime_swift.Core.Call.{Call, Reply}
use coakka_runtime_swift.Machine.Heap.{World, Host, Event}
use coakka_runtime_swift.Machine.Effects.{returns, M, pure, ◌>>=◌, invoke}
use coakka_runtime_swift.Bridge.Access.{call_slot}
use coakka_runtime_swift.Bridge.Spec.{IsOpen, call_slot_lem}
use coakka_runtime_swift.Bridge.Safety.{Complete}

-- The calls of a log, the latest first.
abbrev pub calls_of : List Event → List Call
calls_of [] = []
calls_of (e ∷ es) = e.call ∷ calls_of es

-- The value is the Core library's reply to a call that comes after these.
abbrev pub Answered : Host → List Event → (c : Call) → Reply c → Type 0
Answered host log c r = (a : ℕ) × (host.native a c log ≡ r)

-- The value is the Core library's reply to a call, at some time.
abbrev pub Replied : Host → (c : Call) → Reply c → Type 0
Replied host c r = (a : ℕ) × (log : List Event) × (host.native a c log ≡ r)

-- Only the log has changed, by these calls.
pub record Made (cs : List Call) (w w' : World) : Type 0 where
  pub heap_kept : w'.heap ≡ w.heap
  pub next_kept : w'.next ≡ w.next
  pub modules_kept : w'.modules ≡ w.modules
  pub calls : calls_of w'.log ≡ cs ++ calls_of w.log

pub record Runs {A : Type 0} (m : M A) (w : World) (P : A → List Call → Type 0) : Type 0 where
  pub result : A
  pub after : World
  pub made_calls : List Call
  pub runs : m w ≡ returns result after
  pub made : Made made_calls w after
  pub holds : P result made_calls

pub pure-Runs :
    {A : Type 0} (a : A) (w : World) {P : A → List Call → Type 0} → P a [] → Runs (pure a) w P
pure-Runs a w h = record {
  result = a;
  after = w;
  made_calls = [];
  runs = refl;
  made = record { heap_kept = refl; next_kept = refl; modules_kept = refl; calls = refl };
  holds = h;
}

pub if-Runs :
    {A : Type 0} (b : Bool) {m n : M A} {w : World} {P : A → List Call → Type 0}
    → (b ≡ true → Runs m w P)
    → (b ≡ false → Runs n w P)
    → Runs (if b then m else n) w P
if-Runs true yes_case no_case = yes_case refl
if-Runs false yes_case no_case = no_case refl

pub weaken-Runs :
    {A : Type 0} {m : M A} {w : World} {P Q : A → List Call → Type 0}
    → Runs m w P
    → ((a : A) (cs : List Call) → P a cs → Q a cs)
    → Runs m w Q
weaken-Runs r f = record {
  result = r.result;
  after = r.after;
  made_calls = r.made_calls;
  runs = r.runs;
  made = r.made;
  holds = f r.result r.made_calls r.holds;
}

pub same-Runs :
    {A : Type 0} {m n : M A} {w : World} {P : A → List Call → Type 0}
    → m w ≡ n w
    → Runs n w P
    → Runs m w P
same-Runs e r = record {
  result = r.result;
  after = r.after;
  made_calls = r.made_calls;
  runs = e ∙ r.runs;
  made = r.made;
  holds = r.holds;
}

module _ (host : Host) (handle : Ptr) (p : ℕ) where
  pub IsOpen-after :
      {cs : List Call} {w w' : World}
      → Made cs w w'
      → IsOpen host handle p w
      → IsOpen host handle p w'
  IsOpen-after m o = ap (λ h. h p) m.heap_kept ∙ o

  -- What follows is shown for each result of the first part.
  pub bind-Runs :
      {A B : Type 0} {m : M A} {k : A → M B} {w : World} {P : A → List Call → Type 0}
      {Q : B → List Call → Type 0}
      → IsOpen host handle p w
      → Runs m w P
      → ((a : A) (cs : List Call) (w' : World)
          → IsOpen host handle p w'
          → P a cs
          → Runs (k a) w' (λ b ds. Q b (ds ++ cs)))
      → Runs (m >>= k) w Q
  bind-Runs o r f =
      let s = f r.result r.made_calls r.after (IsOpen-after r.made o) r.holds in
      record {
        result = s.result;
        after = s.after;
        made_calls = s.made_calls ++ r.made_calls;
        runs = rw r.runs s.runs;
        made = record {
          heap_kept = s.made.heap_kept ∙ r.made.heap_kept;
          next_kept = s.made.next_kept ∙ r.made.next_kept;
          modules_kept = s.made.modules_kept ∙ r.made.modules_kept;
          calls =
              s.made.calls
              ∙ (ap (λ t. s.made_calls ++ t) r.made.calls
                  ∙ append_assoc s.made_calls r.made_calls (calls_of _));
        };
        holds = s.holds;
      }

  invoke-Runs :
      (f : Ptr) (c : Call) (w : World)
      → (a : ℕ) × (f ≡ some a)
      → Runs (invoke host f c) w (λ r cs. (cs ≡ c ∷ []) × Answered host w.log c r)
  unfolding invoke
  invoke-Runs none c w (a, e) = absurd (cc)
  invoke-Runs (some b) c w (a, e) = record {
    result = host.native b c w.log;
    after = record w { log = record { address = b; call = c } ∷ w.log };
    made_calls = c ∷ [];
    runs = refl;
    made = record { heap_kept = refl; next_kept = refl; modules_kept = refl; calls = refl };
    holds = (refl, (b, refl));
  }

  module _ (complete : Complete host handle) where
    pub call_slot-Answered :
        (s : Slot) (c : Call) (w : World)
        → IsOpen host handle p w
        → Runs (call_slot host (some p) s c) w (λ r cs. (cs ≡ c ∷ []) × Answered host w.log c r)
    call_slot-Answered s c w o = same-Runs (call_slot_lem host handle p w o s c) (
        invoke-Runs (host.find_symbol handle (symbol_name s)) c w
          (elim (Option-cases (host.find_symbol handle (symbol_name s))) [
            | inl missing ↦ absurd (complete s missing)
            | inr found ↦ found
          ]))

    pub call_slot-Runs :
        (s : Slot) (c : Call) (w : World)
        → IsOpen host handle p w
        → Runs (call_slot host (some p) s c) w (λ r cs. (cs ≡ c ∷ []) × Replied host c r)
    call_slot-Runs s c w o =
        weaken-Runs (call_slot-Answered s c w o) (λ r cs h. (h.0, (h.1.0, w.log, h.1.1)))
