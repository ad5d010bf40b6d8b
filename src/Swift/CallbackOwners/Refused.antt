-- ===== src/Swift/CallbackOwners/Refused.antt =====
-- An admission that the Core refuses leaves the callbacks as they were.
use coakka_runtime_swift.Prelude.{
  ℕ, false, Option, none, some, [], length, ◌≡◌, refl, arith, ◌∙◌, ltb, ◌==◌, Bool-cases, inl, inr,
}
use coakka_runtime_swift.Status.{Status}
use coakka_runtime_swift.Loader.Library.{is_ok}
use coakka_runtime_swift.Swift.Errors.{value}
use coakka_runtime_swift.Swift.CallbackOwners.{
  Key, Entry, entry, EntryMap, find, prune, CallbackOwners, admit_new, admit_over, admit_found,
  admit,
}
use coakka_runtime_swift.Swift.CallbackOwners.Entries.{IsKeyed}
use coakka_runtime_swift.Swift.CallbackOwners.Pending.{
  KeptOr, prune-KeptOr, prune-IsKeyed, publish-refused,
}

KeptOr-then :
    (presence : Key → Status) (m m' m'' : EntryMap) (j : Key)
    → find j m'' ≡ find j m'
    → KeptOr presence m m' j
    → KeptOr presence m m'' j
KeptOr-then presence m m' m'' j e (inl kept) = inl (e ∙ kept)
KeptOr-then presence m m' m'' j e (inr gone) = inr gone

prune-none :
    (presence : Key → Status) (m : EntryMap) (k : Key)
    → IsKeyed m
    → find k m ≡ none
    → find k (prune presence m).0 ≡ none
prune-none presence m k h own = elim (prune-KeptOr presence m k h) [
  | inl kept ↦ kept ∙ own
  | inr (e, there, ready) ↦ absurd (ground (arith, there, own))
]

module _ (k : Key) (root : ℕ) (status : Status) (before after : Key → Status) (o : CallbackOwners)
    (h : IsKeyed o.entries) (bad : is_ok status ≡ false) (j : Key) where
  new-KeptOr :
      find k o.entries ≡ none
      → KeptOr before o.entries (admit_new k root (value status) before after o).owners.entries j
  unfolding admit_new
  new-KeptOr own =
      let left = (prune before o.entries).0 in
      let kept = prune-KeptOr before o.entries j h in
      let keyed = prune-IsKeyed before o.entries h in
      elim (Bool-cases (length o.entries == o.limit)) [
        | inl full ↦ elim (Bool-cases (ltb (length left) o.limit)) [
          | inl room ↦
              rw (full, room)
                (KeptOr-then before o.entries left _ j
                  (publish-refused k root none status after (record o { entries = left }) _ j bad
                    keyed (prune-none before o.entries k h own))
                  kept)
          | inr still_full ↦ rw (full, still_full) kept
        ]
        | inr few ↦ rw few (inl (publish-refused k root none status after o [] j bad h own))
      ]

  over-KeptOr :
      (e : Entry)
      → find k o.entries ≡ some e
      → KeptOr before o.entries (admit_over k root e (value status) after o).owners.entries j
  unfolding admit_over
  over-KeptOr (entry r l none) own = inl refl
  over-KeptOr (entry r l (some s)) own =
      inl (publish-refused k root (some (entry r l (some s))) status after o [] j bad h own)

  found-KeptOr :
      (found : Option Entry)
      → find k o.entries ≡ found
      → KeptOr before o.entries
          (admit_found k root (value status) before after o found).owners.entries
          j
  unfolding admit_found
  found-KeptOr none own = new-KeptOr own
  found-KeptOr (some e) own = over-KeptOr e own

-- In owners whose keys are all different, an admission whose call returns a status other than
-- success leaves every key with the entry that it had, its own key too, but for entries that a
-- prune may retire: their own call has returned and the Core does not know their session any more.
pub refused-KeptOr :
    (k : Key) (root : ℕ) (status : Status) (before after : Key → Status) (o : CallbackOwners)
    (j : Key)
    → IsKeyed o.entries
    → is_ok status ≡ false
    → KeptOr before o.entries (admit k root (value status) before after o).owners.entries j
unfolding admit
refused-KeptOr k root status before after o j h bad =
    found-KeptOr k root status before after o h bad j (find k o.entries) refl
