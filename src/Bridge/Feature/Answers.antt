-- ===== src/Bridge/Feature/Answers.antt =====
-- What the feature queries answer.
use coakka_runtime_swift.Prelude.{
  ℕ, zero, suc, ◌<◌, ◌*◌, ◌^◌, some, ◌≡◌, refl, bit, bit_and-bit, bit-lt, power-pos, arith, ◌==◌,
  if◌then◌else◌, Bool-cases, inl, inr,
}
use coakka_runtime_swift.Status.{Status}
use coakka_runtime_swift.Core.Records.{Ptr, RuntimeInfo}
use coakka_runtime_swift.Core.Slot.{Slot, symbol_name}
use coakka_runtime_swift.Core.Call.{Call}
use coakka_runtime_swift.Machine.Heap.{World, Host, logged}
use coakka_runtime_swift.Machine.Effects.{returns, invoke}
use coakka_runtime_swift.Loader.Library.{is_ok, is_ok-ok}
use coakka_runtime_swift.Bridge.Inspect.{info_request}
use coakka_runtime_swift.Bridge.Spec.{IsOpen, slot_of_lem}
use coakka_runtime_swift.Bridge.Feature.{has_feature, feature_result, feature_available}

nonzero : (b p : ℕ) → b < 2 → 0 < p → (if b * p == 0 then 0 else 1) ≡ b
nonzero zero p lt above = ground arith
nonzero (suc zero) p lt above = ground arith
nonzero (suc (suc b)) p lt above = absurd (omega arith)

has_feature_lem : (flags k : ℕ) → has_feature flags (2 ^ k) ≡ bit k flags
unfolding has_feature
has_feature_lem flags k =
    rw (bit_and-bit k flags) (nonzero (bit k flags) (2 ^ k) (bit-lt k flags) (power-pos k))

feature_result_lem :
    (k : ℕ) (r : Status × RuntimeInfo)
    → feature_result (2 ^ k) r ≡ (r.0, some (if is_ok r.0 then bit k r.1.feature_flags else 0))
unfolding feature_result
feature_result_lem k r = elim (Bool-cases (is_ok r.0)) [
  | inl good ↦ rw (good, has_feature_lem r.1.feature_flags k, is_ok-ok r.0 good) refl
  | inr bad ↦ rw bad refl
]

-- On a library that an open published, with an output to write to, the query for the feature of bit
-- k makes one call, of get_info with a cleared record, and passes on its status. It answers bit k of
-- the flags where that status is OK, and 0 where it is not.
pub feature_available-bit :
    (host : Host) (handle : Ptr) (p : ℕ) (w : World) (k old address : ℕ)
    → IsOpen host handle p w
    → host.find_symbol handle "coakka_v2_runtime_get_info" ≡ some address
    → let (status, info) = host.native address (Call.get_info info_request) w.log in
      feature_available host (some p) (2 ^ k) (some old) w
      ≡ returns
          (status, some (if is_ok status then bit k info.feature_flags else 0))
          (logged address (Call.get_info info_request) w)
unfolding feature_available invoke symbol_name
feature_available-bit host handle p w k old address open_p found =
    rw (slot_of_lem host handle p w open_p Slot.get_info, found)
      (λ i.
        returns (feature_result_lem k (host.native address (Call.get_info info_request) w.log) i)
          (logged address (Call.get_info info_request) w))
