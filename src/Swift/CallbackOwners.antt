-- ===== src/Swift/CallbackOwners.antt =====
-- StreamCallbackOwners.swift: the objects that keep the callbacks of stream sessions alive. The
-- dictionary is an association list; an object that it keeps is a number, its identity.
pub mod Entries
pub mod Kept
pub mod Pending
pub mod Refused
use coakka_runtime_swift.Prelude.{
  ℕ, suc, ◌+◌, ◌-◌, ◌^◌, String, Bool, true, false, ◌&&◌, not, Option, none, some, List, [], ◌∷◌,
  ◌++◌, ltb, ◌==◌, int_eq, is_null, length, if◌then◌else◌,
}
use text.Mathlib.Text.{◌==◌ as str_eq}
use coakka_runtime_swift.Status.{Status, bad_state}
use coakka_runtime_swift.Enums.Lanes.{StreamDirection}
use coakka_runtime_swift.Loader.Library.{is_ok}
use coakka_runtime_swift.Swift.Errors.{
  RuntimeError, contract_violation, resource_limit, Result, value, thrown,
}

-- StreamCallbackKey
pub record Key : Type 0 where
  pub id : String
  pub direction : StreamDirection

abbrev pub direction_eq : StreamDirection → StreamDirection → Bool
direction_eq StreamDirection.publish StreamDirection.publish = true
direction_eq StreamDirection.subscribe StreamDirection.subscribe = true
direction_eq _ _ = false

-- The synthesized ==. The ids are compared code point by code point; Swift's == on strings also
-- identifies two spellings of one character that are canonically equivalent.
unfoldable pub key_eq : Key → Key → Bool
key_eq a b = str_eq a.id b.id && direction_eq a.direction b.direction

mutual
  -- StreamCallbackOwners.Entry; the status is none until the call has returned one.
  pub data Entry : Type 0 where
    entry : ℕ → Link → Option Status → Entry

  -- Entry?
  pub data Link : Type 0 where
    no_entry : Link
    link : Entry → Link

abbrev pub status_of : Entry → Option Status
status_of (entry root previous status) = status

abbrev pub link_of : Option Entry → Link
link_of none = no_entry
link_of (some e) = link e

abbrev pub EntryMap : Type 0
EntryMap = List (Key × Entry)

unfoldable pub find : Key → EntryMap → Option Entry
find k [] = none
find k ((j, e) ∷ rest) = if key_eq j k then some e else find k rest

-- entries[key] = entry
unfoldable pub put : Key → Entry → EntryMap → EntryMap
put k e [] = (k, e) ∷ []
put k e ((j, d) ∷ rest) = if key_eq j k then (k, e) ∷ rest else (j, d) ∷ put k e rest

-- entries.removeValue(forKey: key)
unfoldable pub remove : Key → EntryMap → EntryMap
remove k [] = []
remove k ((j, d) ∷ rest) = if key_eq j k then rest else (j, d) ∷ remove k rest

-- entries[key] = previous, where nil removes
unfoldable pub restore : Key → Option Entry → EntryMap → EntryMap
unfolding put remove
restore k none entries = remove k entries
restore k (some e) entries = put k e entries

abbrev pub taken : Option Entry → List Entry
taken none = []
taken (some e) = e ∷ []

-- The keys of entries that have a status and whose session the Core does not know any more.
unfoldable pub retired_keys : (Key → Status) → EntryMap → List Key
retired_keys presence [] = []
retired_keys presence ((k, e) ∷ rest) =
    if not (is_null (status_of e)) && int_eq (presence k) bad_state
    then k ∷ retired_keys presence rest
    else retired_keys presence rest

-- Removes each key, and returns what is left and what was removed.
unfoldable pub remove_keys : List Key → EntryMap → EntryMap × List Entry
unfolding find remove
remove_keys [] entries = (entries, [])
remove_keys (k ∷ ks) entries =
    let (left, more) = remove_keys ks (remove k entries) in (left, taken (find k entries) ++ more)

unfoldable pub prune : (Key → Status) → EntryMap → EntryMap × List Entry
unfolding retired_keys remove_keys
prune presence entries = remove_keys (retired_keys presence entries) entries

pub record CallbackOwners : Type 0 where
  pub limit : ℕ
  pub entries : EntryMap

abbrev pub int_max : ℕ
int_max = 2 ^ 63 - 1

unfoldable pub new_owners : ℕ → Result CallbackOwners
new_owners capacity =
    if ltb 0 capacity && ltb capacity int_max
    then value (record { limit = capacity + 1; entries = [] })
    else thrown (contract_violation "Core returned an unrepresentable Stream callback capacity")

-- What the owners are, what admit throws or returns, and what it retired.
pub record Admission : Type 0 where
  pub owners : CallbackOwners
  pub result : Result Status
  pub retired : List Entry

-- After call() has returned.
unfoldable pub conclude :
    Key → ℕ → Option Entry → Status → (Key → Status) → CallbackOwners → List Entry → Admission
unfolding put restore prune
conclude k root previous status presence o retired =
    if is_ok status
    then (let (left, more) = prune presence (put k (entry root no_entry (some status)) o.entries) in
        record {
          owners = record o { entries = left };
          result = value status;
          retired = retired ++ (taken previous ++ more);
        })
    else record {
      owners = record o { entries = restore k previous o.entries };
      result = value status;
      retired = retired ++ entry root (link_of previous) (some status) ∷ [];
    }

-- The rest of admit, once there is room: the entry is published before the call.
unfoldable pub publish :
    Key
    → ℕ
    → Option Entry
    → Result Status
    → (Key → Status)
    → CallbackOwners
    → List Entry
    → Admission
unfolding put conclude
publish k root previous (thrown e) presence o retired = record {
  owners = record o { entries = put k (entry root (link_of previous) none) o.entries };
  result = thrown e;
  retired = retired;
}
publish k root previous (value status) presence o retired =
    conclude k root previous status presence
      (record o { entries = put k (entry root (link_of previous) none) o.entries }) retired

unfoldable pub admit_new :
    Key → ℕ → Result Status → (Key → Status) → (Key → Status) → CallbackOwners → Admission
unfolding publish prune
admit_new k root call before after o =
    if length o.entries == o.limit
    then (let (left, more) = prune before o.entries in
        if ltb (length left) o.limit
        then publish k root none call after (record o { entries = left }) more
        else record {
          owners = record o { entries = left };
          result = thrown (resource_limit "Stream callback ownership storage exhausted");
          retired = more;
        })
    else publish k root none call after o []

unfoldable pub admit_over :
    Key → ℕ → Entry → Result Status → (Key → Status) → CallbackOwners → Admission
unfolding publish
admit_over k root (entry r previous none) call after o = record {
  owners = o;
  result = thrown (
      contract_violation "Stream callback outcome unresolved; successful forget or close required");
  retired = [];
}
admit_over k root (entry r previous (some s)) call after o =
    publish k root (some (entry r previous (some s))) call after o []

-- admit, with what the dictionary has at the key
unfoldable pub admit_found :
    Key
    → ℕ
    → Result Status
    → (Key → Status)
    → (Key → Status)
    → CallbackOwners
    → Option Entry
    → Admission
unfolding admit_new admit_over
admit_found k root call before after o none = admit_new k root call before after o
admit_found k root call before after o (some e) = admit_over k root e call after o

-- `call` is what call() throws or returns, `before` and `after` what presence answers in the two
-- prunes.
unfoldable pub admit :
    Key → ℕ → Result Status → (Key → Status) → (Key → Status) → CallbackOwners → Admission
unfolding find admit_found
admit k root call before after o = admit_found k root call before after o (find k o.entries)

unfoldable pub forget : Key → CallbackOwners → CallbackOwners × List Entry
unfolding find remove
forget k o = (record o { entries = remove k o.entries }, taken (find k o.entries))

unfoldable pub detach : CallbackOwners → CallbackOwners × EntryMap
detach o = (record o { entries = [] }, o.entries)
