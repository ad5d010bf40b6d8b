-- ===== src/Bridge/Feature.antt =====
-- core_feature_available of coakka_runtime_bridge.c, behind the three queries for a lane.
pub mod Answers
use Prim.Native.Nat.{bit_and}
use coakka_runtime_swift.Prelude.{ℕ, ◌^◌, Option, some, is_null, ◌==◌, if◌then◌else◌}
use coakka_runtime_swift.Status.{Status, ok, invalid_arg, err_symbol}
use coakka_runtime_swift.Core.Records.{Ptr, RuntimeInfo}
use coakka_runtime_swift.Core.Slot.{Slot}
use coakka_runtime_swift.Core.Call.{Call, stored}
use coakka_runtime_swift.Machine.Heap.{Host}
use coakka_runtime_swift.Machine.Effects.{M, pure, ◌>>=◌, invoke}
use coakka_runtime_swift.Loader.Library.{is_ok}
use coakka_runtime_swift.Bridge.Access.{slot_of}
use coakka_runtime_swift.Bridge.Inspect.{info_request}

-- COAKKA_V2_RUNTIME_FEATURE_FILE_LANE, _STREAM_LANE and _LANE_OWNER_GRANTS
abbrev pub feature_file_lane : ℕ
feature_file_lane = 2 ^ 23

abbrev pub feature_stream_lane : ℕ
feature_stream_lane = 2 ^ 24

abbrev pub feature_lane_owner_grants : ℕ
feature_lane_owner_grants = 2 ^ 25

-- (flags & feature) != 0
unfoldable pub has_feature : ℕ → ℕ → ℕ
has_feature flags feature = if bit_and flags feature == 0 then 0 else 1

-- What the query makes of the reply of get_info.
unfoldable pub feature_result : ℕ → Status × RuntimeInfo → Status × Option ℕ
feature_result feature r =
    if is_ok r.0 then (ok, some (has_feature r.1.feature_flags feature)) else (r.0, some 0)

unfoldable pub feature_available : Host → Ptr → ℕ → Option ℕ → M (Status × Option ℕ)
feature_available host library feature out =
    if is_null out
    then pure (invalid_arg, out)
    else let cleared_out = stored out 0 in
      if is_null library then pure (invalid_arg, cleared_out) else do
        get_info ← slot_of library Slot.get_info
        if is_null get_info then pure (err_symbol, cleared_out) else do
          r ← invoke host get_info (Call.get_info info_request)
          pure (feature_result feature r)
