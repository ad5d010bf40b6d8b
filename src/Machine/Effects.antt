-- ===== src/Machine/Effects.antt =====
-- Actions over the state. A fault is undefined behaviour: a read through a pointer to no live
-- library, a second free, a close of a handle that is not held, a call through a null pointer.
use coakka_runtime_swift.Prelude.{
  ℕ, suc, String, Option, none, some, List, [], ◌∷◌, ◌==◌, if◌then◌else◌,
}
use coakka_runtime_swift.Core.Records.{Ptr}
use coakka_runtime_swift.Core.Call.{Call, Reply}
use coakka_runtime_swift.Machine.Heap.{Library, Block, library, wide_path, World, update, Host}

pub data Outcome {ℓ} (A : Type ℓ) : Type ℓ where
  returns : A → World → Outcome A
  fault : Outcome A

abbrev pub M {ℓ} : Type ℓ → Type ℓ
M A = World → Outcome A

abbrev pub pure {ℓ} : {A : Type ℓ} → A → M A
pure a w = returns a w

abbrev pub and_then {ℓ κ} : {A : Type ℓ} {B : Type κ} → Outcome A → (A → M B) → Outcome B
and_then (returns a w) k = k a w
and_then fault k = fault

infixl 5 ◌>>=◌ ◌>>◌
abbrev pub ◌>>=◌ {ℓ κ} : {A : Type ℓ} {B : Type κ} → M A → (A → M B) → M B
◌>>=◌ m k w = and_then (m w) k

abbrev pub ◌>>◌ {ℓ} : {B : Type ℓ} → M (Unit {0}) → M B → M B
m >> k = m >>= λ _. k

-- One entry of the handle is taken off the list of those held.
unfoldable pub release : ℕ → List ℕ → Option (List ℕ)
release h [] = none
release h (m ∷ ms) =
    if m == h then some ms else elim (release h ms) [ none ↦ none | some rest ↦ some (m ∷ rest) ]

-- `lib->…`
unfoldable pub load : ℕ → M Library
load p w = elim (w.heap p) [
  | none ↦ fault
  | some b ↦ elim b [ library l ↦ returns l w | wide_path n ↦ fault ]
]

-- `lib->… = …`
unfoldable pub store : ℕ → Library → M (Unit {0})
unfolding load
store p l = do load p >>= λ _ w. returns tt (record w { heap = update w.heap p (some (library l)) })

unfoldable pub free : ℕ → M (Unit {0})
free p w = elim (w.heap p) [
  | none ↦ fault
  | some _ ↦ returns tt (record w { heap = update w.heap p none })
]

-- FreeLibrary, dlclose
unfoldable pub unload : ℕ → M (Unit {0})
unfolding release
unload h w = elim (release h w.modules) [
  | none ↦ fault
  | some rest ↦ returns tt (record w { modules = rest })
]

module _ (host : Host) where
  unfoldable pub calloc : Block → M Ptr
  calloc b w =
      if host.memory w
      then returns (some w.next)
          (record w { heap = update w.heap w.next (some b); next = suc w.next })
      else returns none w

  -- dlopen, LoadLibraryW: a handle that is returned is held.
  unfoldable pub load_module : String → M Ptr
  load_module path w = elim (host.load_module path w) [
    | none ↦ returns none w
    | some h ↦ returns (some h) (record w { modules = h ∷ w.modules })
  ]

  -- A call through a function pointer.
  unfoldable pub invoke : Ptr → (c : Call) → M (Reply c)
  invoke none c w = fault
  invoke (some a) c w =
      returns (host.native a c w.log) (record w { log = record { address = a; call = c } ∷ w.log })
