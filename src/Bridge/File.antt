-- ===== src/Bridge/File.antt =====
-- The file lane (coakka_runtime_bridge.c).
pub mod Ops
pub mod Refines
pub mod Bounded
pub mod Forwarded
pub mod Prepared
use coakka_runtime_swift.Prelude.{
  ℕ, zero, Bool, true, false, ◌||◌, ◌&&◌, String, Option, none, some, List, ℤ, pos, is_null, ◌==◌,
  ◌≡◌, refl, arith, not, take, if◌then◌else◌,
}
use coakka_runtime_swift.Status.{Status, ok, invalid_arg, err_symbol}
use coakka_runtime_swift.Abi.Layout.{size}
use coakka_runtime_swift.Abi.File.{
  file_receive_spec, file_send_spec, file_receive_grant, file_transfer_snapshot, file_lane_stats,
}
use coakka_runtime_swift.Core.Records.{
  Ptr, Output, cleared, FileReceiveSpec, FileSendSpec, StreamPublishSpec, StreamSubscribeSpec,
}
use coakka_runtime_swift.Bridge.Inspect.{info_request}
use coakka_runtime_swift.Bridge.Feature.{
  feature_available, feature_result, feature_file_lane, feature_stream_lane,
  feature_lane_owner_grants,
}
use coakka_runtime_swift.Core.Slot.{Slot}
use coakka_runtime_swift.Core.Call.{Call, Reply, stored}
use coakka_runtime_swift.Machine.Heap.{Host}
use coakka_runtime_swift.Machine.Effects.{M, pure, ◌>>=◌, ◌>>◌, fault, invoke, load}
use coakka_runtime_swift.Loader.Library.{is_ok}
use coakka_runtime_swift.Bridge.Access.{
  call_slot, lookup, clear, clear_if, deref, CText, static_text, native_text,
}

-- memcpy(s.expected_sha256, sha, 32). The parameter is an array of 32 bytes, which the caller owes; a
-- shorter list is the caller's breach, and is copied as it is.
unfoldable pub sha_copy : Option (List ℕ) → M (List ℕ)
sha_copy none w = fault
sha_copy (some digest) w = pure (take 32 digest) w

unfoldable pub receive_spec : Ptr → Ptr → Ptr → ℕ → List ℕ → FileReceiveSpec
receive_spec id token path content_size digest = record {
  struct_size = size file_receive_spec;
  transfer_id = id;
  authorization_token = token;
  destination_path = path;
  expected_size = content_size;
  expected_sha256 = digest;
}

unfoldable pub send_spec : Ptr → Ptr → Ptr → ℕ → Ptr → ℕ → List ℕ → ℕ → FileSendSpec
send_spec id token host_name port path content_size digest timeout = record {
  struct_size = size file_send_spec;
  transfer_id = id;
  authorization_token = token;
  remote_host = host_name;
  remote_port = port;
  source_path = path;
  expected_size = content_size;
  expected_sha256 = digest;
  timeout_ms = timeout;
}

module _ (host : Host) (library : Ptr) where
  unfoldable pub lane_owner_grants_available : Option ℕ → M (Status × Option ℕ)
  unfolding feature_available
  lane_owner_grants_available out = feature_available host library feature_lane_owner_grants out

  unfoldable pub available : Option ℕ → M (Status × Option ℕ)
  unfolding feature_available
  available out = feature_available host library feature_file_lane out

  unfoldable pub create : Ptr → Option Ptr → M (Status × Option Ptr)
  create config out = do
    f ← lookup host library "coakka_v2_file_lane_create_ex"
    if is_null f
        then pure (err_symbol, out)
        else do r ← invoke host f (Call.file_create config out); pure (r.0, stored out r.1)

  unfoldable pub create_owned : Ptr → Option Ptr → M (Status × Option Ptr)
  create_owned config out = do
    f ← lookup host library "coakka_v2_file_lane_create_owned_ex"
    if is_null f
        then pure (err_symbol, out)
        else do r ← invoke host f (Call.file_create_owned config out); pure (r.0, stored out r.1)

  unfoldable pub destroy : Ptr → M (Unit {0})
  destroy lane = do
    f ← lookup host library "coakka_v2_file_lane_destroy"
    if is_null f then pure tt else invoke host f (Call.file_destroy lane)

  unfoldable pub start : Ptr → M Status
  start lane = do
    f ← lookup host library "coakka_v2_file_lane_start"
    if is_null f then pure err_symbol else invoke host f (Call.file_simple lane)

  unfoldable pub stop : Ptr → M Status
  stop lane = do
    f ← lookup host library "coakka_v2_file_lane_stop"
    if is_null f then pure err_symbol else invoke host f (Call.file_simple lane)

  unfoldable pub get_bound_port : Ptr → Option ℕ → M (Status × Option ℕ)
  get_bound_port lane out = do
    f ← lookup host library "coakka_v2_file_lane_get_bound_port"
    if is_null f
        then pure (err_symbol, out)
        else do r ← invoke host f (Call.file_port lane out); pure (r.0, stored out r.1)

  unfoldable pub prepare_receive : Ptr → Ptr → Ptr → Ptr → ℕ → Option (List ℕ) → M Status
  unfolding sha_copy
  prepare_receive lane id token path content_size sha = do
    f ← lookup host library "coakka_v2_file_lane_prepare_receive"
    if is_null f || is_null sha then pure err_symbol else do
      digest ← sha_copy sha
      invoke host f (Call.file_prepare lane (receive_spec id token path content_size digest))

  unfoldable pub prepare_receive_grant :
      Ptr → Ptr → Ptr → Ptr → ℕ → Option (List ℕ) → Option Output → M (Status × Option Output)
  unfolding sha_copy clear
  prepare_receive_grant lane id token path content_size sha out = do
    f ← lookup host library "coakka_v2_file_lane_prepare_receive_grant"
    if is_null f || is_null sha || is_null out then pure (err_symbol, out) else do
      digest ← sha_copy sha
      grant ← clear file_receive_grant out
      r ←
          invoke host f
            (Call.file_prepare_grant lane (receive_spec id token path content_size digest) grant)
      pure (r.0, some r.1)

  unfoldable pub submit_send : Ptr → Ptr → Ptr → Ptr → ℕ → Ptr → ℕ → Option (List ℕ) → ℕ → M Status
  unfolding sha_copy
  submit_send lane id token host_name port path content_size sha timeout = do
    f ← lookup host library "coakka_v2_file_lane_submit_send"
    if is_null f || is_null sha then pure err_symbol else do
      digest ← sha_copy sha
      invoke host f (
          Call.file_submit lane
            (send_spec id token host_name port path content_size digest timeout))

  unfoldable pub get_transfer : Ptr → Ptr → ℕ → Option Output → M (Status × Option Output)
  unfolding clear_if
  get_transfer lane id direction out = do
    f ← lookup host library "coakka_v2_file_lane_get_transfer"
    if is_null f then pure (err_symbol, clear_if file_transfer_snapshot out) else do
      r ← invoke host f (Call.file_get lane id direction (clear_if file_transfer_snapshot out))
      pure (r.0, stored out r.1)

  unfoldable pub wait_transfer : Ptr → Ptr → ℕ → ℕ → ℕ → Option Output → M (Status × Option Output)
  unfolding clear_if
  wait_transfer lane id direction after_sequence timeout_ms out = do
    f ← lookup host library "coakka_v2_file_lane_wait_transfer"
    if is_null f then pure (err_symbol, clear_if file_transfer_snapshot out) else do
      r ← invoke host f (
          Call.file_wait lane id direction after_sequence timeout_ms
            (clear_if file_transfer_snapshot out))
      pure (r.0, stored out r.1)

  unfoldable pub cancel : Ptr → Ptr → ℕ → M Status
  cancel lane id direction = do
    f ← lookup host library "coakka_v2_file_lane_cancel_transfer"
    if is_null f then pure err_symbol else invoke host f (Call.file_control lane id direction)

  unfoldable pub forget : Ptr → Ptr → ℕ → M Status
  forget lane id direction = do
    f ← lookup host library "coakka_v2_file_lane_forget_transfer"
    if is_null f then pure err_symbol else invoke host f (Call.file_control lane id direction)

  unfoldable pub get_stats : Ptr → Option Output → M (Status × Option Output)
  unfolding clear_if
  get_stats lane out = do
    f ← lookup host library "coakka_v2_file_lane_get_stats"
    if is_null f then pure (err_symbol, clear_if file_lane_stats out) else do
      r ← invoke host f (Call.file_stats lane (clear_if file_lane_stats out))
      pure (r.0, stored out r.1)

  unfoldable pub sha256_path :
      Ptr → Option (List ℕ) → Option ℕ → M (Status × Option (List ℕ) × Option ℕ)
  sha256_path path out out_size = do
    f ← lookup host library "coakka_v2_file_sha256_path"
    if is_null f then pure (err_symbol, out, out_size) else do
      r ← invoke host f (Call.file_sha path out out_size)
      pure (r.0, stored out r.1, stored out_size r.2)
