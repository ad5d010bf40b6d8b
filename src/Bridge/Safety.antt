-- ===== src/Bridge/Safety.antt =====
-- The effect on the state of a call through an open library.
use coakka_runtime_swift.Prelude.{String, List, ◌∷◌, none, some, ◌≡◌, ◌≢◌, refl, ◌∙◌}
use coakka_runtime_swift.Core.Records.{Ptr}
use coakka_runtime_swift.Core.Slot.{Slot, symbol_name}
use coakka_runtime_swift.Core.Call.{Call, Reply}
use coakka_runtime_swift.Machine.Heap.{World, Host, Event}
use coakka_runtime_swift.Machine.Effects.{returns, M, pure, ◌>>=◌, invoke}
use coakka_runtime_swift.Bridge.Spec.{Spec, refuse, forward, attempt, attempted, perform}

-- The log of the calls is the same, or one longer by a call of the function of that name.
pub data Logged (host : Host) (handle : Ptr) (before after : List Event) : Type 0 where
  same : after ≡ before → Logged host handle before after
  called :
      (name : String) (event : Event)
      → host.find_symbol handle name ≡ some event.address
      → after ≡ event ∷ before
      → Logged host handle before after

pub record Quiet (host : Host) (handle : Ptr) (w w' : World) : Type 0 where
  pub heap_kept : w'.heap ≡ w.heap
  pub next_kept : w'.next ≡ w.next
  pub modules_kept : w'.modules ≡ w.modules
  pub logged : Logged host handle w.log w'.log

-- The action returns, and changes nothing but the log.
abbrev pub Safe : {A : Type 0} → Host → Ptr → M A → World → Type 0
Safe {A = A} host handle m w =
    (a : A) × (w' : World) × (m w ≡ returns a w') × Quiet host handle w w'

module _ (host : Host) (handle : Ptr) where
  -- The module exports every name of the load order.
  abbrev pub Complete : Type 0
  Complete = (s : Slot) → host.find_symbol handle (symbol_name s) ≢ none

  -- A promise whose direct call is one of a name that the open looked up.
  abbrev pub Bound : {A : Type 0} → Spec A → Type 0
  Bound (refuse a) = Unit
  Bound (forward name c result) = (s : Slot) × (symbol_name s ≡ name)
  Bound (attempt name absent c result) = Unit

  invoke-Safe :
      {A : Type 0} (name : String) (f : Ptr) (c : Call) (result : Reply c → A) (w : World)
      → host.find_symbol handle name ≡ f
      → f ≢ none
      → Safe host handle (do r ← invoke host f c; pure (result r)) w
  unfolding invoke
  invoke-Safe name none c result w e found = absurd (found refl)
  invoke-Safe name (some a) c result w e found = (
    _,
    _,
    refl,
    record {
      heap_kept = refl;
      next_kept = refl;
      modules_kept = refl;
      logged = called name _ e refl;
    },
  )

  refused : {A : Type 0} (a : A) (w : World) → Safe host handle (pure a) w
  refused a w = (
    _,
    _,
    refl,
    record { heap_kept = refl; next_kept = refl; modules_kept = refl; logged = same refl },
  )

  attempted-Safe :
      {A : Type 0} (name : String) (f : Ptr) (absent : A) (c : Call) (result : Reply c → A)
      (w : World)
      → host.find_symbol handle name ≡ f
      → Safe host handle (attempted host handle f absent c result) w
  attempted-Safe name none absent c result w e = refused absent w
  attempted-Safe name (some a) absent c result w e =
      invoke-Safe name (some a) c result w e (λ p. cc)

  pub perform-Safe :
      {A : Type 0} (s : Spec A) (w : World)
      → Complete
      → Bound s
      → Safe host handle (perform host handle s) w
  perform-Safe (refuse a) w complete b = refused a w
  perform-Safe (forward name c result) w complete (s, e) =
      invoke-Safe name (host.find_symbol handle name) c result w refl (λ p. complete s (rw e p))
  perform-Safe (attempt name absent c result) w complete b =
      attempted-Safe name (host.find_symbol handle name) absent c result w refl

  pub same-Safe :
      {A : Type 0} (m n : M A) (w : World) → m w ≡ n w → Safe host handle n w → Safe host handle m w
  same-Safe m n w e (a, w', f, q) = (a, w', e ∙ f, q)
