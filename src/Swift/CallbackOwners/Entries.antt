-- ===== src/Swift/CallbackOwners/Entries.antt =====
-- The dictionary of StreamCallbackOwners: what each operation leaves at each key.
use coakka_runtime_swift.Prelude.{
  suc, ◌≤◌, Bool, true, false, ◌&&◌, ◌||◌, not, none, some, List, [], ◌∷◌, length, ◌≡◌, ◌↔◌, refl,
  arith, is_null, int_eq, Bool-cases, inl, inr, if◌then◌else◌,
}
use text.Mathlib.TextEquality.{eq_iff}
use coakka_runtime_swift.Status.{Status, bad_state}
use coakka_runtime_swift.Enums.Lanes.{StreamDirection}
use coakka_runtime_swift.Swift.CallbackOwners.{
  Key, direction_eq, key_eq, Entry, status_of, EntryMap, find, put, remove, retired_keys,
  remove_keys,
}

direction_eq_iff : (a b : StreamDirection) → (direction_eq a b ≡ true) ↔ (a ≡ b)
direction_eq_iff StreamDirection.publish StreamDirection.publish = (λ _. refl, λ _. refl)
direction_eq_iff StreamDirection.publish StreamDirection.subscribe = (λ e. cc, λ e. cc)
direction_eq_iff StreamDirection.subscribe StreamDirection.publish = (λ e. cc, λ e. cc)
direction_eq_iff StreamDirection.subscribe StreamDirection.subscribe = (λ _. refl, λ _. refl)

pub key_eq_iff : (a b : Key) → (key_eq a b ≡ true) ↔ (a ≡ b)
unfolding key_eq
key_eq_iff a b = (
  λ e. ground (arith, eq_iff a.id b.id, direction_eq_iff a.direction b.direction),
  λ e. ground (arith, eq_iff a.id b.id, direction_eq_iff a.direction b.direction),
)

pub find-put :
    (j k : Key) (e : Entry) (m : EntryMap)
    → find j (put k e m) ≡ (if key_eq k j then some e else find j m)
unfolding find put
find-put j k e [] = refl
find-put j k e ((i, d) ∷ m) =
    ground (arith, key_eq_iff k j, key_eq_iff i k, key_eq_iff i j, find-put j k e m)

-- No key is there twice.
abbrev pub IsKeyed : EntryMap → Type 0
IsKeyed [] = Unit
IsKeyed ((k, e) ∷ m) = (find k m ≡ none) × IsKeyed m

pub find-remove :
    (j k : Key) (m : EntryMap)
    → IsKeyed m
    → find j (remove k m) ≡ (if key_eq k j then none else find j m)
unfolding find remove
find-remove j k [] h = ground (arith)
find-remove j k ((i, d) ∷ m) h =
    ground (arith, h.0, key_eq_iff k j, key_eq_iff i k, key_eq_iff i j, find-remove j k m h.1)

pub put-IsKeyed : (k : Key) (e : Entry) (m : EntryMap) → IsKeyed m → IsKeyed (put k e m)
unfolding find put
put-IsKeyed k e [] h = (refl, tt)
put-IsKeyed k e ((i, d) ∷ m) h =
    ground (arith, h.0, key_eq_iff i k, key_eq_iff k i, find-put i k e m, put-IsKeyed k e m h.1)

pub remove-IsKeyed : (k : Key) (m : EntryMap) → IsKeyed m → IsKeyed (remove k m)
unfolding find remove
remove-IsKeyed k [] h = tt
remove-IsKeyed k ((i, d) ∷ m) h =
    ground (arith, h.0, h.1, find-remove i k m h.1, remove-IsKeyed k m h.1)

pub length-put_new :
    (k : Key) (e : Entry) (m : EntryMap) → find k m ≡ none → length (put k e m) ≡ suc (length m)
unfolding find put
length-put_new k e [] h = refl
length-put_new k e ((i, d) ∷ m) h = ground (arith, h, length-put_new k e m)

pub length-put_known :
    (k : Key) (e d : Entry) (m : EntryMap) → find k m ≡ some d → length (put k e m) ≡ length m
unfolding find put
length-put_known k e d [] h = cc
length-put_known k e d ((i, c) ∷ m) h = ground (arith, h, length-put_known k e d m)

pub length-remove : (k : Key) (m : EntryMap) → length (remove k m) ≤ length m
unfolding remove
length-remove k [] = omega arith
length-remove k ((i, d) ∷ m) = ground (arith, length-remove k m)

-- Key is in the list.
abbrev pub among : Key → List Key → Bool
among j [] = false
among j (k ∷ ks) = key_eq k j || among j ks

pub find-remove_keys :
    (j : Key) (ks : List Key) (m : EntryMap)
    → IsKeyed m
    → find j (remove_keys ks m).0 ≡ (if among j ks then none else find j m)
unfolding remove_keys
find-remove_keys j [] m h = refl
find-remove_keys j (k ∷ ks) m h =
    ground (arith, find-remove j k m h, find-remove_keys j ks (remove k m) (remove-IsKeyed k m h))

pub remove_keys-IsKeyed : (ks : List Key) (m : EntryMap) → IsKeyed m → IsKeyed (remove_keys ks m).0
unfolding remove_keys
remove_keys-IsKeyed [] m h = h
remove_keys-IsKeyed (k ∷ ks) m h = remove_keys-IsKeyed ks (remove k m) (remove-IsKeyed k m h)

pub length-remove_keys : (ks : List Key) (m : EntryMap) → length (remove_keys ks m).0 ≤ length m
unfolding remove_keys
length-remove_keys [] m = omega arith
length-remove_keys (k ∷ ks) m = omega (arith, length-remove k m, length-remove_keys ks (remove k m))

-- The entry has a status, and its session is gone.
abbrev pub IsRetirable : (Key → Status) → Key → Entry → Type 0
IsRetirable presence k e = (is_null (status_of e) ≡ false) × (int_eq (presence k) bad_state ≡ true)

pub retired_keys-IsRetirable :
    (presence : Key → Status) (j : Key) (m : EntryMap)
    → IsKeyed m
    → among j (retired_keys presence m) ≡ true
    → (e : Entry) × (find j m ≡ some e) × IsRetirable presence j e
unfolding retired_keys find
retired_keys-IsRetirable presence j [] h a = absurd (ground arith)
retired_keys-IsRetirable presence j ((k, e) ∷ m) h a = elim (Bool-cases (key_eq k j)) [
  | inl same ↦ elim (Bool-cases (not (is_null (status_of e)) && int_eq (presence k) bad_state)) [
    | inl ready ↦
        let equal : k ≡ j = (key_eq_iff k j).0 same in
        (e, rw same refl, (ground (arith, ready), rw (← equal) ground (arith, ready)))
    | inr kept ↦
        let (d, there, _) = retired_keys-IsRetirable presence j m h.1 ground (arith, kept, a) in
        absurd (ground (arith, h.0, there, key_eq_iff k j, same))
  ]
  | inr other ↦
      let late : among j (retired_keys presence m) ≡ true = ground (arith, a, other) in
      let (d, there, ready) = retired_keys-IsRetirable presence j m h.1 late in
      (d, rw other there, ready)
]
