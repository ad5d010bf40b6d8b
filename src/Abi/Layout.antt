-- ===== src/Abi/Layout.antt =====
-- C types and their layout: size, alignment and field offsets as a compiler for LP64 or LLP64
-- computes them.
use coakka_runtime_swift.Prelude.{
  ℕ, ◌+◌, ◌-◌, ◌*◌, ◌/◌, String, Option, none, some, List, [], ◌∷◌, max, if◌then◌else◌,
}
use text.Mathlib.Text.{◌==◌ as str_eq}

mutual
  pub data CType : Type 0 where
    int8 int16 int32 int64 pointer : CType
    array : CType → ℕ → CType
    struct : Fields → CType

  -- The members of a struct in declaration order.
  pub data Fields : Type 0 where
    end : Fields
    member : String → CType → Fields → Fields

-- Notation: "label" ∶ type ⨾ … ⨾ end
infix 30 ◌∶◌
infixr 20 ◌⨾◌
abbrev pub ◌∶◌ : String → CType → Fields → Fields
l ∶ t = member l t

abbrev pub ◌⨾◌ : (Fields → Fields) → Fields → Fields
m ⨾ fs = m fs

abbrev pub size_t : CType
size_t = int64

-- The offset rounded up to the next multiple of an alignment.
unfoldable pub round_up : ℕ → ℕ → ℕ
round_up offset alignment = (offset + alignment - 1) / alignment * alignment

unfoldable mutual
  unfolding round_up

  -- _Alignof
  pub align : CType → ℕ
  align int8 = 1
  align int16 = 2
  align int32 = 4
  align int64 = 8
  align pointer = 8
  align (array t n) = align t
  align (struct fs) = align_fields fs

  pub align_fields : Fields → ℕ
  align_fields end = 1
  align_fields (member _ t fs) = max (align t) (align_fields fs)

unfoldable mutual
  unfolding align round_up

  -- sizeof; trailing padding makes a struct's size a multiple of its alignment.
  pub size : CType → ℕ
  size int8 = 1
  size int16 = 2
  size int32 = 4
  size int64 = 8
  size pointer = 8
  size (array t n) = n * size t
  size (struct fs) = round_up (size_fields 0 fs) (align_fields fs)

  -- The first byte after the members, the first of which is placed at or after the offset.
  pub size_fields : ℕ → Fields → ℕ
  size_fields offset end = offset
  size_fields offset (member _ t fs) = size_fields (round_up offset (align t) + size t) fs

abbrev pub members : CType → Fields
members (struct fs) = fs
members _ = end

-- The members with their offsets.
pub record Placed : Type 0 where
  pub label : String
  pub offset : ℕ
  pub type : CType

unfoldable pub place : ℕ → Fields → List Placed
unfolding size
place offset end = []
place offset (member l t fs) =
    let start = round_up offset (align t) in
    record { label = l; offset = start; type = t } ∷ place (start + size t) fs

-- offsetof
unfoldable pub offset_of : String → List Placed → Option ℕ
offset_of l [] = none
offset_of l (s ∷ ss) = if str_eq s.label l then some s.offset else offset_of l ss
