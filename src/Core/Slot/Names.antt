-- ===== src/Core/Slot/Names.antt =====
-- The members of runtime_library_t, the names they are loaded from, and the order of the load.
use coakka_runtime_swift.Prelude.{
  ℕ, ◌+◌, String, Option, none, some, List, [], ◌∷◌, ◌≡◌, refl, ap, sym, ◌∙◌, if◌then◌else◌,
}
use coakka_runtime_swift.Core.Slot.{Slot, symbol_name, load_order}
use text.Mathlib.Text.{◌==◌ as str_eq}

abbrev pub occurrences : String → List Slot → ℕ
occurrences name [] = 0
occurrences name (s ∷ ss) =
    if str_eq (symbol_name s) name then 1 + occurrences name ss else occurrences name ss

slot_named : String → List Slot → Option Slot
slot_named name [] = none
slot_named name (s ∷ ss) = if str_eq (symbol_name s) name then some s else slot_named name ss

slot_named-name : (s : Slot) → slot_named (symbol_name s) load_order ≡ some s
unfolding slot_named symbol_name load_order
slot_named-name Slot.create_native = refl
slot_named-name _ = refl

once : (s : Slot) → occurrences (symbol_name s) load_order ≡ 1
unfolding symbol_name load_order
once Slot.create_native = refl
once _ = refl

some_injective : {A : Type 0} {a b : A} → some a ≡ some b → a ≡ b
some_injective e = cc

-- Every member is loaded exactly once by the sequence, and no two members from the same name.
pub symbol_name-once :
    (s : Slot)
    → (occurrences (symbol_name s) load_order ≡ 1)
      × ((t : Slot) → symbol_name s ≡ symbol_name t → s ≡ t)
symbol_name-once s = (
  once s,
  λ t e.
      some_injective
        (sym (slot_named-name s) ∙ (ap (λ n. slot_named n load_order) e ∙ slot_named-name t)),
)
