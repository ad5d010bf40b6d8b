-- ===== src/Bridge/Clients/Picked.antt =====
-- Counting in lists, and one entry picked out of a list.
use coakka_runtime_swift.Prelude.{
  ℕ, zero, suc, ◌+◌, none, some, List, [], ◌∷◌, ◌≡◌, ◌≢◌, refl, ◌⊎◌, inl, inr, AllOf, ◌==◌, ==_refl,
  ==_iff, arith, if◌then◌else◌, Bool-cases, true, false, ap,
}
use coakka_runtime_swift.Machine.Effects.{release}
use coakka_runtime_swift.Bridge.Clients.{nth, remove}

abbrev pub one_if : ℕ → ℕ → ℕ
one_if x y = if x == y then 1 else 0

abbrev pub count : ℕ → List ℕ → ℕ
count x [] = 0
count x (y ∷ ys) = one_if y x + count x ys

-- A library that is held: its address and its loader handle.
pub record Owned : Type 0 where
  pub address : ℕ
  pub handle : ℕ

abbrev pub addresses : List Owned → List ℕ
addresses [] = []
addresses (g ∷ gs) = g.address ∷ addresses gs

abbrev pub handles : List Owned → List ℕ
handles [] = []
handles (g ∷ gs) = g.handle ∷ handles gs

pub record Picked (g : Owned) (rest gs : List Owned) : Type 1 where
  pub address_count :
      (q : ℕ) → count q (addresses gs) ≡ one_if g.address q + count q (addresses rest)
  pub handle_count : (h : ℕ) → count h (handles gs) ≡ one_if g.handle h + count h (handles rest)
  pub all : (P : Owned → Type 0) → AllOf P gs → P g × AllOf P rest

abbrev pub Pick : ℕ → List Owned → Type 1
Pick i gs =
    ((nth i (addresses gs) ≡ none) × (remove i (addresses gs) ≡ addresses gs))
    ⊎ ((g : Owned) × (rest : List Owned) × (nth i (addresses gs) ≡ some g.address)
        × (remove i (addresses gs) ≡ addresses rest)
        × Picked g rest gs)

-- The entry at a place, and the others.
pub pick : (i : ℕ) (gs : List Owned) → Pick i gs
pick i [] = inl (refl, refl)
pick zero (g ∷ gs) = inr (
  g,
  gs,
  refl,
  refl,
  record { address_count = λ q. refl; handle_count = λ h. refl; all = λ P a. a },
)
pick (suc i) (g ∷ gs) = elim (pick i gs) [
  | inl e ↦ inl (e.0, ap (λ ps. g.address ∷ ps) e.1)
  | inr x ↦
      let (k, rest, found, removed, picked) = x in
      inr (
        k,
        g ∷ rest,
        found,
        ap (λ ps. g.address ∷ ps) removed,
        record {
          address_count = λ q. omega (arith, picked.address_count q);
          handle_count = λ h. omega (arith, picked.handle_count h);
          all = λ P a. let (b, c) = picked.all P a.1 in (b, (a.0, c));
        },
      )
]

pub one_if_self : (x : ℕ) → one_if x x ≡ 1
one_if_self x = rw (==_refl x) refl

pub one_if-same : (x y : ℕ) → x == y ≡ true → one_if x y ≡ 1
one_if-same x y e = rw e refl

pub one_if-other : (x y : ℕ) → x == y ≡ false → one_if x y ≡ 0
one_if-other x y e = rw e refl

release-other :
    (h m : ℕ) (ms rest : List ℕ)
    → m == h ≡ false
    → release h ms ≡ some rest
    → release h (m ∷ ms) ≡ some (m ∷ rest)
unfolding release
release-other h m ms rest other e = rw other (rw e refl)

release_self : (h m : ℕ) (ms : List ℕ) → m == h ≡ true → release h (m ∷ ms) ≡ some ms
unfolding release
release_self h m ms same = rw same refl

-- A handle that is held can be released, once.
pub release-count :
    (h : ℕ) (ms : List ℕ)
    → count h ms ≢ 0
    → (rest : List ℕ) × (release h ms ≡ some rest)
      × ((k : ℕ) → count k ms ≡ one_if h k + count k rest)
release-count h [] held = absurd (held refl)
release-count h (m ∷ ms) held = elim (Bool-cases (m == h)) [
  | inl same ↦
      (ms, release_self h m ms same, λ k. ap (λ x. one_if x k + count k ms) ((==_iff m h).0 same))
  | inr other ↦
      let (rest, e, c) =
        release-count h ms (λ z. held (omega (arith, z, one_if-other m h other))) in
      (m ∷ rest, release-other h m ms rest other e, λ k. omega (arith, c k))
]
