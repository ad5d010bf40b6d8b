-- ===== src/Bridge/Spec.antt =====
-- What a bridge function promises: it refuses without a call, or makes one call of one exported
-- function of the Core library and returns what that leaves.
use coakka_runtime_swift.Prelude.{ℕ, String, none, some, ◌≡◌, refl, sym, ◌∙◌}
use coakka_runtime_swift.Core.Records.{Ptr}
use coakka_runtime_swift.Core.Slot.{Slot, symbol_name}
use coakka_runtime_swift.Core.Call.{Call, Reply}
use coakka_runtime_swift.Machine.Heap.{World, Host, library}
use coakka_runtime_swift.Machine.Effects.{Outcome, returns, fault, and_then, M, ◌>>=◌, pure, invoke}
use coakka_runtime_swift.Machine.Reasoning.{load-ok}
use coakka_runtime_swift.Loader.Platform.{platform_library_symbol}
use coakka_runtime_swift.Loader.Symbols.{bound}
use coakka_runtime_swift.Bridge.Access.{call_slot, slot_of, load_name, lookup}

pub data Spec (A : Type 0) : Type 0 where
  -- the result, without a call
  refuse : A → Spec A
  -- the exported name, the call, and the result from its reply
  forward : String → (c : Call) → (Reply c → A) → Spec A
  -- the same for a name that the module may lack, with the result where it does
  attempt : String → A → (c : Call) → (Reply c → A) → Spec A

and_then-pure : {A : Type 0} (o : Outcome A) → and_then o (λ r. pure r) ≡ o
and_then-pure (returns a w) = refl
and_then-pure fault = refl

module _ (host : Host) (handle : Ptr) where
  abbrev pub attempted : {A : Type 0} → Ptr → A → (c : Call) → (Reply c → A) → M A
  attempted none absent c result = pure absent
  attempted (some a) absent c result = do r ← invoke host (some a) c; pure (result r)

  -- A promise as an action over the module of a handle.
  abbrev pub perform : {A : Type 0} → Spec A → M A
  perform (refuse a) = pure a
  perform (forward name c result) = do
    r ← invoke host (host.find_symbol handle name) c
    pure (result r)
  perform (attempt name absent c result) = attempted (host.find_symbol handle name) absent c result

  -- The library at an address is one that an open published for the handle.
  abbrev pub IsOpen : ℕ → World → Type 0
  IsOpen p w = w.heap p ≡ some (library (bound host handle))

  module _ (p : ℕ) (w : World) (open_p : IsOpen p w) where
    pub call_slot_lem :
        (s : Slot) (c : Call)
        → call_slot host (some p) s c w ≡ invoke host (host.find_symbol handle (symbol_name s)) c w
    unfolding call_slot
    call_slot_lem s c = rw (load-ok p (bound host handle) w open_p)

    pub slot_of_lem :
        (s : Slot) → slot_of (some p) s w ≡ pure (host.find_symbol handle (symbol_name s)) w
    unfolding slot_of
    slot_of_lem s = rw (load-ok p (bound host handle) w open_p)

    pub lookup_lem :
        (name : String) → lookup host (some p) name w ≡ pure (host.find_symbol handle name) w
    unfolding lookup load_name platform_library_symbol
    lookup_lem name = rw (load-ok p (bound host handle) w open_p)

    pub call_slot_tail :
        (s : Slot) (c : Call)
        → call_slot host (some p) s c w
          ≡ (invoke host (host.find_symbol handle (symbol_name s)) c >>= λ r. pure r) w
    call_slot_tail s c =
        call_slot_lem s c
        ∙ sym (and_then-pure (invoke host (host.find_symbol handle (symbol_name s)) c w))
