-- ===== src/Swift/CallbackOwners/Kept.antt =====
-- The invariant of StreamCallbackOwners, and that each operation keeps it.
use coakka_runtime_swift.Prelude.{
  ℕ, ◌≤◌, ◌<◌, Option, none, some, List, [], length, ◌≡◌, refl, arith, ltb, ◌==◌, Bool-cases,
  Option-cases, inl, inr, ◌∙◌,
}
use coakka_runtime_swift.Status.{Status}
use coakka_runtime_swift.Loader.Library.{is_ok}
use coakka_runtime_swift.Swift.Errors.{Result, value, thrown}
use coakka_runtime_swift.Swift.CallbackOwners.{
  Key, key_eq, Entry, entry, no_entry, link_of, EntryMap, find, put, remove, restore, retired_keys,
  prune, CallbackOwners, conclude, publish, admit_new, admit_over, admit_found, admit, forget,
}
use coakka_runtime_swift.Swift.CallbackOwners.Entries.{
  IsKeyed, key_eq_iff, find-put, find-remove, put-IsKeyed, remove-IsKeyed, length-put_new,
  length-put_known, length-remove, among, find-remove_keys, remove_keys-IsKeyed, length-remove_keys,
}

-- An entry whose call has returned keeps no older entry.
abbrev pub IsTidy : Entry → Type 0
IsTidy (entry root previous none) = Unit
IsTidy (entry root previous (some s)) = previous ≡ no_entry

-- At most `limit` entries, under different keys, all tidy.
pub record IsKept (limit : ℕ) (m : EntryMap) : Type 0 where
  pub bounded : length m ≤ limit
  pub keyed : IsKeyed m
  pub tidy : (j : Key) (e : Entry) → find j m ≡ some e → IsTidy e

module _ (limit : ℕ) (k : Key) (m : EntryMap) (h : IsKept limit m) where
  pub put-IsKept :
      (e : Entry) → IsTidy e → (find k m ≡ none → length m < limit) → IsKept limit (put k e m)
  put-IsKept e t room = record {
    bounded = elim (Option-cases (find k m)) [
      | inl new ↦ omega (arith, length-put_new k e m new, room new)
      | inr (d, old) ↦ omega (arith, length-put_known k e d m old, h.bounded)
    ];
    keyed = put-IsKeyed k e m h.keyed;
    tidy = λ j d f. elim (Bool-cases (key_eq k j)) [
      | inl same ↦ let equal : e ≡ d = ground (arith, f, find-put j k e m, same) in rw (← equal) t
      | inr other ↦ h.tidy j d ground (arith, f, find-put j k e m, other)
    ];
  }

  pub remove-IsKept : IsKept limit (remove k m)
  remove-IsKept = record {
    bounded = omega (arith, length-remove k m, h.bounded);
    keyed = remove-IsKeyed k m h.keyed;
    tidy = λ j d f. elim (Bool-cases (key_eq k j)) [
      | inl same ↦ absurd (ground (arith, f, find-remove j k m h.keyed, same))
      | inr other ↦ h.tidy j d ground (arith, f, find-remove j k m h.keyed, other)
    ];
  }

  pub prune-IsKept : (presence : Key → Status) → IsKept limit (prune presence m).0
  unfolding prune
  prune-IsKept presence =
      let ks = retired_keys presence m in
      record {
        bounded = omega (arith, length-remove_keys ks m, h.bounded);
        keyed = remove_keys-IsKeyed ks m h.keyed;
        tidy = λ j d f. elim (Bool-cases (among j ks)) [
          | inl gone ↦ absurd (ground (arith, f, find-remove_keys j ks m h.keyed, gone))
          | inr kept ↦ h.tidy j d ground (arith, f, find-remove_keys j ks m h.keyed, kept)
        ];
      }

restore-IsKept :
    (limit : ℕ) (k : Key) (previous : Option Entry) (c : Entry) (m : EntryMap)
    → IsKept limit m
    → find k m ≡ some c
    → ((e : Entry) → previous ≡ some e → IsTidy e)
    → IsKept limit (restore k previous m)
unfolding restore
restore-IsKept limit k none c m h there t = remove-IsKept limit k m h
restore-IsKept limit k (some e) c m h there t =
    put-IsKept limit k m h e (t e refl) (λ new. absurd (ground (arith, new, there)))

put_self : (k : Key) (e : Entry) (m : EntryMap) → find k (put k e m) ≡ some e
put_self k e m = ground (arith, find-put k k e m, key_eq_iff k k)

module _ (k : Key) (root : ℕ) (previous : Option Entry) (presence : Key → Status)
    (o : CallbackOwners) (retired : List Entry) (t : (e : Entry) → previous ≡ some e → IsTidy e)
    (h : IsKept o.limit o.entries) where
  conclude-IsKept :
      (status : Status) (c : Entry)
      → find k o.entries ≡ some c
      → IsKept o.limit (conclude k root previous status presence o retired).owners.entries
  unfolding conclude
  conclude-IsKept status c there = elim (Bool-cases (is_ok status)) [
    | inl fine ↦ rw fine (
        prune-IsKept o.limit k _
          (put-IsKept o.limit k o.entries h (entry root no_entry (some status)) refl
            (λ new. absurd (ground (arith, new, there))))
          presence)
    | inr failed ↦ rw failed (restore-IsKept o.limit k previous c o.entries h there t)
  ]

publish-IsKept :
    (k : Key) (root : ℕ) (previous : Option Entry) (call : Result Status) (presence : Key → Status)
    (o : CallbackOwners) (retired : List Entry)
    → ((e : Entry) → previous ≡ some e → IsTidy e)
    → IsKept o.limit o.entries
    → (find k o.entries ≡ none → length o.entries < o.limit)
    → IsKept o.limit (publish k root previous call presence o retired).owners.entries
unfolding publish
publish-IsKept k root previous (thrown e) presence o retired t h room =
    put-IsKept o.limit k o.entries h (entry root (link_of previous) none) tt room
publish-IsKept k root previous (value status) presence o retired t h room =
    let c : Entry = entry root (link_of previous) none in
    conclude-IsKept k root previous presence (record o { entries = put k c o.entries }) retired t
      (put-IsKept o.limit k o.entries h c tt room) status c (put_self k c o.entries)

no_link : (e : Entry) → none ≡ some e → IsTidy e
no_link e h = cc

admit_new-IsKept :
    (k : Key) (root : ℕ) (call : Result Status) (before after : Key → Status) (o : CallbackOwners)
    → find k o.entries ≡ none
    → IsKept o.limit o.entries
    → IsKept o.limit (admit_new k root call before after o).owners.entries
unfolding admit_new
admit_new-IsKept k root call before after o new h =
    let pruned = prune-IsKept o.limit k o.entries h before in
    elim (Bool-cases (length o.entries == o.limit)) [
      | inl full ↦ elim (Bool-cases (ltb (length (prune before o.entries).0) o.limit)) [
        | inl room ↦
            rw (full, room)
              (publish-IsKept k root none call after
                (record o { entries = (prune before o.entries).0 }) _ no_link pruned
                (λ _. ground (arith, room)))
        | inr still_full ↦ rw (full, still_full) pruned
      ]
      | inr few ↦ rw few (
          publish-IsKept k root none call after o [] no_link h
            (λ _. ground (arith, few, h.bounded)))
    ]

admit_over-IsKept :
    (k : Key) (root : ℕ) (e : Entry) (call : Result Status) (after : Key → Status)
    (o : CallbackOwners)
    → find k o.entries ≡ some e
    → IsKept o.limit o.entries
    → IsKept o.limit (admit_over k root e call after o).owners.entries
unfolding admit_over
admit_over-IsKept k root (entry r previous none) call after o old h = h
admit_over-IsKept k root (entry r previous (some s)) call after o old h =
    publish-IsKept k root (some (entry r previous (some s))) call after o []
      (λ e same. h.tidy k e (old ∙ same)) h (λ new. absurd (ground (arith, new, old)))

admit_found-IsKept :
    (k : Key) (root : ℕ) (call : Result Status) (before after : Key → Status) (o : CallbackOwners)
    (found : Option Entry)
    → find k o.entries ≡ found
    → IsKept o.limit o.entries
    → IsKept o.limit (admit_found k root call before after o found).owners.entries
unfolding admit_found
admit_found-IsKept k root call before after o none f h =
    admit_new-IsKept k root call before after o f h
admit_found-IsKept k root call before after o (some e) f h =
    admit_over-IsKept k root e call after o f h

-- The owners of stream callbacks hold at most `limit` entries, under different keys, and an entry
-- whose call has returned holds on to no older one. Every admission keeps this, whatever its call
-- throws or returns and whatever the Core knows of the sessions; so does every forget.
pub owners-IsKept :
    (k : Key) (root : ℕ) (call : Result Status) (before after : Key → Status) (o : CallbackOwners)
    → IsKept o.limit o.entries
    → IsKept o.limit (admit k root call before after o).owners.entries
      × IsKept o.limit (forget k o).0.entries
unfolding admit forget
owners-IsKept k root call before after o h = (
  admit_found-IsKept k root call before after o (find k o.entries) refl h,
  remove-IsKept o.limit k o.entries h,
)
