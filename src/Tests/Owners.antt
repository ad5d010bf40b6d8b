-- ===== src/Tests/Owners.antt =====
-- Stream callbacks at concrete inputs.
use coakka_runtime_swift.Prelude.{none, some, [], ◌∷◌, ◌≡◌, refl, arith, pos}
use coakka_runtime_swift.Status.{ok, bad_state}
use coakka_runtime_swift.Loader.Library.{is_ok}
use coakka_runtime_swift.Swift.Errors.{value}
use coakka_runtime_swift.Swift.CallbackOwners.{
  Key, entry, no_entry, CallbackOwners, find, admit, forget, key_eq, put,
}
use coakka_runtime_swift.Swift.CallbackOwners.Entries.{IsKeyed}
use coakka_runtime_swift.Swift.CallbackOwners.Kept.{IsKept, put-IsKept, owners-IsKept}
use coakka_runtime_swift.Swift.CallbackOwners.Pending.{KeptOr, admit-pending}
use coakka_runtime_swift.Swift.CallbackOwners.Refused.{refused-KeptOr}
use coakka_runtime_swift.Enums.Lanes.{StreamDirection}

abbrev publisher : Key
publisher = record { id = "orders"; direction = StreamDirection.publish }

abbrev subscriber : Key
subscriber = record { id = "orders"; direction = StreamDirection.subscribe }

abbrev other_key : Key
other_key = record { id = "prices"; direction = StreamDirection.publish }

-- One call has returned, one has not; the Core allows one session.
abbrev owners : CallbackOwners
owners = record {
  limit = 2;
  entries = (publisher, entry 1 no_entry (some ok)) ∷ (subscriber, entry 2 no_entry none) ∷ [];
}

owners-IsKeyed : IsKeyed owners.entries
unfolding find key_eq
owners-IsKeyed = (refl, (refl, tt))

nothing-IsKept : IsKept 2 []
unfolding find
nothing-IsKept = record { bounded = omega arith; keyed = tt; tidy = λ j e there. absurd (cc) }

owners-IsKept_holds : IsKept owners.limit owners.entries
unfolding put find key_eq
owners-IsKept_holds =
    put-IsKept 2 subscriber ((publisher, entry 1 no_entry (some ok)) ∷ [])
      (put-IsKept 2 publisher [] nothing-IsKept (entry 1 no_entry (some ok)) refl
        (λ _. omega arith))
      (entry 2 no_entry none) tt (λ _. omega arith)

owners-IsKept_example :
    IsKept 2 (admit other_key 3 (value ok) (λ k. bad_state) (λ k. ok) owners).owners.entries
    × IsKept 2 (forget other_key owners).0.entries
owners-IsKept_example =
    owners-IsKept other_key 3 (value ok) (λ k. bad_state) (λ k. ok) owners owners-IsKept_holds

admit-pending_example :
    find subscriber (admit other_key 3 (value ok) (λ k. bad_state) (λ k. ok) owners).owners.entries
    ≡ some (entry 2 no_entry none)
unfolding find key_eq
admit-pending_example =
    admit-pending other_key 3 (value ok) (λ k. bad_state) (λ k. ok) owners subscriber
      (entry 2 no_entry none) owners-IsKeyed refl refl

refused-KeptOr_example :
    KeptOr
      (λ k. bad_state)
      owners.entries
      (admit other_key 3 (value (pos 8)) (λ k. bad_state) (λ k. ok) owners).owners.entries
      publisher
unfolding is_ok
refused-KeptOr_example =
    refused-KeptOr other_key 3 (pos 8) (λ k. bad_state) (λ k. ok) owners publisher owners-IsKeyed
      refl
