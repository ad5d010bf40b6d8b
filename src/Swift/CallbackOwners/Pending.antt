-- ===== src/Swift/CallbackOwners/Pending.antt =====
-- What an admission leaves of the other callbacks, and of its own when it is refused.
use coakka_runtime_swift.Prelude.{
  ℕ, false, Option, none, some, List, [], length, ◌≡◌, refl, arith, ◌∙◌, ltb, ◌==◌, Bool-cases, ◌⊎◌,
  inl, inr,
}
use coakka_runtime_swift.Status.{Status}
use coakka_runtime_swift.Loader.Library.{is_ok}
use coakka_runtime_swift.Swift.Errors.{Result, value, thrown}
use coakka_runtime_swift.Swift.CallbackOwners.{
  Key, key_eq, Entry, entry, no_entry, link_of, status_of, EntryMap, find, put, restore,
  retired_keys, prune, CallbackOwners, conclude, publish, admit_new, admit_over, admit_found, admit,
}
use coakka_runtime_swift.Swift.CallbackOwners.Entries.{
  IsKeyed, key_eq_iff, find-put, find-remove, put-IsKeyed, among, find-remove_keys,
  remove_keys-IsKeyed, IsRetirable, retired_keys-IsRetirable,
}

-- A key has the entry that it had, or had one that a prune may retire.
abbrev pub KeptOr : (Key → Status) → EntryMap → EntryMap → Key → Type 0
KeptOr presence m m' j =
    (find j m' ≡ find j m) ⊎ ((e : Entry) × (find j m ≡ some e) × IsRetirable presence j e)

pub prune-KeptOr :
    (presence : Key → Status) (m : EntryMap) (j : Key)
    → IsKeyed m
    → KeptOr presence m (prune presence m).0 j
unfolding prune
prune-KeptOr presence m j h =
    let ks = retired_keys presence m in
    elim (Bool-cases (among j ks)) [
      | inl gone ↦ inr (retired_keys-IsRetirable presence j m h gone)
      | inr kept ↦ inl ground (arith, find-remove_keys j ks m h, kept)
    ]

pub prune-IsKeyed :
    (presence : Key → Status) (m : EntryMap) → IsKeyed m → IsKeyed (prune presence m).0
unfolding prune
prune-IsKeyed presence m h = remove_keys-IsKeyed (retired_keys presence m) m h

-- A call that has not returned is not pruned.
prune-pending :
    (presence : Key → Status) (m : EntryMap) (j : Key) (e : Entry)
    → IsKeyed m
    → find j m ≡ some e
    → status_of e ≡ none
    → find j (prune presence m).0 ≡ some e
prune-pending presence m j e h there pending = elim (prune-KeptOr presence m j h) [
  | inl kept ↦ kept ∙ there
  | inr (d, found, ready) ↦ absurd (ground (arith, found, there, pending, ready.0))
]

restore-other :
    (k : Key) (previous : Option Entry) (m : EntryMap) (j : Key)
    → IsKeyed m
    → key_eq k j ≡ false
    → find j (restore k previous m) ≡ find j m
unfolding restore
restore-other k none m j h other = ground (arith, find-remove j k m h, other)
restore-other k (some e) m j h other = ground (arith, find-put j k e m, other)

module _ (k : Key) (root : ℕ) (previous : Option Entry) (presence : Key → Status)
    (retired : List Entry) (j : Key) (e : Entry) (pending : status_of e ≡ none)
    (other : key_eq k j ≡ false) where
  conclude-pending :
      (o : CallbackOwners) (status : Status)
      → IsKeyed o.entries
      → find j o.entries ≡ some e
      → find j (conclude k root previous status presence o retired).owners.entries ≡ some e
  unfolding conclude
  conclude-pending o status h there = elim (Bool-cases (is_ok status)) [
    | inl fine ↦
        let d : Entry = entry root no_entry (some status) in
        rw fine (
          prune-pending presence (put k d o.entries) j e (put-IsKeyed k d o.entries h) ground
            (arith, find-put j k d o.entries, other, there) pending)
    | inr failed ↦ rw failed (restore-other k previous o.entries j h other ∙ there)
  ]

  publish-pending :
      (o : CallbackOwners) (call : Result Status)
      → IsKeyed o.entries
      → find j o.entries ≡ some e
      → find j (publish k root previous call presence o retired).owners.entries ≡ some e
  unfolding publish
  publish-pending o (thrown x) h there =
      ground (arith, find-put j k (entry root (link_of previous) none) o.entries, other, there)
  publish-pending o (value status) h there =
      let d : Entry = entry root (link_of previous) none in
      conclude-pending (record o { entries = put k d o.entries }) status
        (put-IsKeyed k d o.entries h) ground (arith, find-put j k d o.entries, other, there)

module _ (k : Key) (root : ℕ) (call : Result Status) (before after : Key → Status)
    (o : CallbackOwners) (h : IsKeyed o.entries) (j : Key) (e : Entry)
    (there : find j o.entries ≡ some e) (pending : status_of e ≡ none) where
  admit_new-pending :
      key_eq k j ≡ false → find j (admit_new k root call before after o).owners.entries ≡ some e
  unfolding admit_new
  admit_new-pending other =
      let left = (prune before o.entries).0 in
      let kept = prune-pending before o.entries j e h there pending in
      let keyed = prune-IsKeyed before o.entries h in
      elim (Bool-cases (length o.entries == o.limit)) [
        | inl full ↦ elim (Bool-cases (ltb (length left) o.limit)) [
          | inl room ↦
              rw (full, room)
                (publish-pending k root none after _ j e pending other (record o { entries = left })
                  call keyed kept)
          | inr still_full ↦ rw (full, still_full) kept
        ]
        | inr few ↦ rw few (publish-pending k root none after [] j e pending other o call h there)
      ]

  admit_over-pending :
      (d : Entry)
      → find k o.entries ≡ some d
      → find j (admit_over k root d call after o).owners.entries ≡ some e
  unfolding admit_over
  admit_over-pending (entry r l none) own = there
  admit_over-pending (entry r l (some s)) own = elim (Bool-cases (key_eq k j)) [
    | inl same ↦ absurd (ground (arith, key_eq_iff k j, same, own, there, pending))
    | inr other ↦
        publish-pending k root (some (entry r l (some s))) after [] j e pending other o call h there
  ]

  admit_found-pending :
      (found : Option Entry)
      → find k o.entries ≡ found
      → find j (admit_found k root call before after o found).owners.entries ≡ some e
  unfolding admit_found
  admit_found-pending none own = elim (Bool-cases (key_eq k j)) [
    | inl same ↦ absurd (ground (arith, key_eq_iff k j, same, own, there))
    | inr other ↦ admit_new-pending other
  ]
  admit_found-pending (some d) own = admit_over-pending d own

-- In owners whose keys are all different, an admission of any key never drops or replaces a
-- callback whose own call has not returned: not in a prune, and not when the key is the same, for
-- which it throws and changes nothing.
pub admit-pending :
    (k : Key) (root : ℕ) (call : Result Status) (before after : Key → Status) (o : CallbackOwners)
    (j : Key) (e : Entry)
    → IsKeyed o.entries
    → find j o.entries ≡ some e
    → status_of e ≡ none
    → find j (admit k root call before after o).owners.entries ≡ some e
unfolding admit
admit-pending k root call before after o j e h there pending =
    admit_found-pending k root call before after o h j e there pending (find k o.entries) refl

restore-put :
    (k : Key) (c : Entry) (previous : Option Entry) (m : EntryMap) (j : Key)
    → IsKeyed m
    → find k m ≡ previous
    → find j (restore k previous (put k c m)) ≡ find j m
unfolding restore
restore-put k c none m j h own = ground (
  arith,
  find-remove j k (put k c m) (put-IsKeyed k c m h),
  find-put j k c m,
  own,
  key_eq_iff k j,
)
restore-put k c (some e) m j h own =
    ground (arith, find-put j k e (put k c m), find-put j k c m, own, key_eq_iff k j)

pub publish-refused :
    (k : Key) (root : ℕ) (previous : Option Entry) (status : Status) (presence : Key → Status)
    (o : CallbackOwners) (retired : List Entry) (j : Key)
    → is_ok status ≡ false
    → IsKeyed o.entries
    → find k o.entries ≡ previous
    → find j (publish k root previous (value status) presence o retired).owners.entries
      ≡ find j o.entries
unfolding publish conclude
publish-refused k root previous status presence o retired j bad h own =
    rw bad (restore-put k (entry root (link_of previous) none) previous o.entries j h own)
