-- ===== src/Bridge/Stream.antt =====
-- The stream lane (coakka_runtime_bridge.c).
pub mod Ops
pub mod Refines
pub mod Bounded
pub mod Forwarded
pub mod Prepared
use coakka_runtime_swift.Prelude.{
  ℕ, zero, Bool, true, false, ◌||◌, ◌&&◌, String, Option, none, some, List, ℤ, pos, is_null, ◌==◌,
  ◌≡◌, refl, arith, not, take, if◌then◌else◌,
}
use coakka_runtime_swift.Status.{Status, ok, invalid_arg, err_symbol}
use coakka_runtime_swift.Abi.Layout.{size}
use coakka_runtime_swift.Abi.Stream.{
  stream_publish_spec, stream_subscribe_spec, stream_publish_grant, stream_session_snapshot,
  stream_pressure_snapshot, stream_lane_stats,
}
use coakka_runtime_swift.Core.Records.{
  Ptr, Output, cleared, FileReceiveSpec, FileSendSpec, StreamPublishSpec, StreamSubscribeSpec,
}
use coakka_runtime_swift.Bridge.Inspect.{info_request}
use coakka_runtime_swift.Bridge.Feature.{
  feature_available, feature_result, feature_file_lane, feature_stream_lane,
  feature_lane_owner_grants,
}
use coakka_runtime_swift.Core.Slot.{Slot}
use coakka_runtime_swift.Core.Call.{Call, Reply, stored}
use coakka_runtime_swift.Machine.Heap.{Host}
use coakka_runtime_swift.Machine.Effects.{M, pure, ◌>>=◌, ◌>>◌, fault, invoke, load}
use coakka_runtime_swift.Loader.Library.{is_ok}
use coakka_runtime_swift.Bridge.Access.{
  call_slot, lookup, clear, clear_if, deref, CText, static_text, native_text,
}

unfoldable pub publish_spec : Ptr → Ptr → ℕ → ℕ → Ptr → Ptr → StreamPublishSpec
publish_spec id token format max_frame source context = record {
  struct_size = size stream_publish_spec;
  session_id = id;
  authorization_token = token;
  format_id = format;
  max_frame_bytes = max_frame;
  source_next = source;
  source_context = context;
}

unfoldable pub subscribe_spec :
    Ptr → Ptr → Ptr → ℕ → ℕ → ℕ → ℕ → ℕ → Ptr → Ptr → StreamSubscribeSpec
subscribe_spec id token host_name port format max_frame window timeout consumer context = record {
  struct_size = size stream_subscribe_spec;
  session_id = id;
  authorization_token = token;
  remote_host = host_name;
  remote_port = port;
  format_id = format;
  max_frame_bytes = max_frame;
  initial_window_bytes = window;
  timeout_ms = timeout;
  consume = consumer;
  consumer_context = context;
}

module _ (host : Host) (library : Ptr) where
  unfoldable pub available : Option ℕ → M (Status × Option ℕ)
  unfolding feature_available
  available out = feature_available host library feature_stream_lane out

  unfoldable pub create : Ptr → Option Ptr → M (Status × Option Ptr)
  create config out = do
    f ← lookup host library "coakka_v2_stream_lane_create_ex"
    if is_null f
        then pure (err_symbol, out)
        else do r ← invoke host f (Call.stream_create config out); pure (r.0, stored out r.1)

  unfoldable pub create_owned : Ptr → Option Ptr → M (Status × Option Ptr)
  create_owned config out = do
    f ← lookup host library "coakka_v2_stream_lane_create_owned_ex"
    if is_null f
        then pure (err_symbol, out)
        else do r ← invoke host f (Call.stream_create_owned config out); pure (r.0, stored out r.1)

  unfoldable pub destroy : Ptr → M (Unit {0})
  destroy lane = do
    f ← lookup host library "coakka_v2_stream_lane_destroy"
    if is_null f then pure tt else invoke host f (Call.stream_destroy lane)

  unfoldable pub start : Ptr → M Status
  start lane = do
    f ← lookup host library "coakka_v2_stream_lane_start"
    if is_null f then pure err_symbol else invoke host f (Call.stream_simple lane)

  unfoldable pub stop : Ptr → M Status
  stop lane = do
    f ← lookup host library "coakka_v2_stream_lane_stop"
    if is_null f then pure err_symbol else invoke host f (Call.stream_simple lane)

  unfoldable pub bound_port : Ptr → Option ℕ → M (Status × Option ℕ)
  bound_port lane out = do
    f ← lookup host library "coakka_v2_stream_lane_get_bound_port"
    if is_null f
        then pure (err_symbol, out)
        else do r ← invoke host f (Call.stream_port lane out); pure (r.0, stored out r.1)

  unfoldable pub prepare_publish : Ptr → Ptr → Ptr → ℕ → ℕ → Ptr → Ptr → M Status
  prepare_publish lane id token format max_frame source context = do
    f ← lookup host library "coakka_v2_stream_lane_prepare_publish"
    if is_null f
        then pure err_symbol
        else invoke host f
            (Call.stream_publish lane (publish_spec id token format max_frame source context))

  unfoldable pub prepare_publish_grant :
      Ptr → Ptr → Ptr → ℕ → ℕ → Ptr → Ptr → Option Output → M (Status × Option Output)
  unfolding clear
  prepare_publish_grant lane id token format max_frame source context out = do
    f ← lookup host library "coakka_v2_stream_lane_prepare_publish_grant"
    if is_null f || is_null out then pure (err_symbol, out) else do
      grant ← clear stream_publish_grant out
      r ← invoke host f (
          Call.stream_publish_grant lane (publish_spec id token format max_frame source context)
            grant)
      pure (r.0, some r.1)

  unfoldable pub subscribe : Ptr → Ptr → Ptr → Ptr → ℕ → ℕ → ℕ → ℕ → ℕ → Ptr → Ptr → M Status
  subscribe lane id token host_name port format max_frame window timeout consumer context = do
    f ← lookup host library "coakka_v2_stream_lane_subscribe"
    if is_null f
        then pure err_symbol
        else invoke host f (
            Call.stream_subscribe lane (
              subscribe_spec id token host_name port format max_frame window timeout consumer
                context))

  unfoldable pub get_session : Ptr → Ptr → ℕ → Option Output → M (Status × Option Output)
  unfolding clear_if
  get_session lane id direction out = do
    f ← lookup host library "coakka_v2_stream_lane_get_session"
    if is_null f then pure (err_symbol, clear_if stream_session_snapshot out) else do
      r ← invoke host f (Call.stream_get lane id direction (clear_if stream_session_snapshot out))
      pure (r.0, stored out r.1)

  unfoldable pub wait_session : Ptr → Ptr → ℕ → ℕ → ℕ → Option Output → M (Status × Option Output)
  unfolding clear_if
  wait_session lane id direction after_sequence timeout_ms out = do
    f ← lookup host library "coakka_v2_stream_lane_wait_session"
    if is_null f then pure (err_symbol, clear_if stream_session_snapshot out) else do
      r ← invoke host f (
          Call.stream_wait lane id direction after_sequence timeout_ms
            (clear_if stream_session_snapshot out))
      pure (r.0, stored out r.1)

  unfoldable pub get_pressure : Ptr → Ptr → ℕ → Option Output → M (Status × Option Output)
  unfolding clear_if
  get_pressure lane id direction out = do
    f ← lookup host library "coakka_v2_stream_lane_get_pressure"
    if is_null f then pure (err_symbol, clear_if stream_pressure_snapshot out) else do
      r ←
          invoke host f
            (Call.stream_pressure lane id direction (clear_if stream_pressure_snapshot out))
      pure (r.0, stored out r.1)

  unfoldable pub wait_pressure : Ptr → Ptr → ℕ → ℕ → ℕ → Option Output → M (Status × Option Output)
  unfolding clear_if
  wait_pressure lane id direction after_sequence timeout_ms out = do
    f ← lookup host library "coakka_v2_stream_lane_wait_pressure"
    if is_null f then pure (err_symbol, clear_if stream_pressure_snapshot out) else do
      r ← invoke host f (
          Call.stream_wait_pressure lane id direction after_sequence timeout_ms
            (clear_if stream_pressure_snapshot out))
      pure (r.0, stored out r.1)

  unfoldable pub cancel : Ptr → Ptr → ℕ → M Status
  cancel lane id direction = do
    f ← lookup host library "coakka_v2_stream_lane_cancel_session"
    if is_null f then pure err_symbol else invoke host f (Call.stream_control lane id direction)

  unfoldable pub forget : Ptr → Ptr → ℕ → M Status
  forget lane id direction = do
    f ← lookup host library "coakka_v2_stream_lane_forget_session"
    if is_null f then pure err_symbol else invoke host f (Call.stream_control lane id direction)

  unfoldable pub stats : Ptr → Option Output → M (Status × Option Output)
  unfolding clear_if
  stats lane out = do
    f ← lookup host library "coakka_v2_stream_lane_get_stats"
    if is_null f then pure (err_symbol, clear_if stream_lane_stats out) else do
      r ← invoke host f (Call.stream_stats lane (clear_if stream_lane_stats out))
      pure (r.0, stored out r.1)
