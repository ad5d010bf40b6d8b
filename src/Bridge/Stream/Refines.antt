-- ===== src/Bridge/Stream/Refines.antt =====
-- The functions of Bridge/Stream.antt against their promise: which exported function each one
-- calls, with what, and when it refuses.
use coakka_runtime_swift.Prelude.{ℕ, String, none, some, ◌≡◌, refl, arith}
use coakka_runtime_swift.Status.{invalid_arg, err_symbol}
use coakka_runtime_swift.Abi.Stream.{
  stream_publish_grant, stream_session_snapshot, stream_pressure_snapshot, stream_lane_stats,
}
use coakka_runtime_swift.Core.Records.{Ptr, cleared}
use coakka_runtime_swift.Bridge.Inspect.{info_request}
use coakka_runtime_swift.Bridge.Feature.{feature_available, feature_result, feature_stream_lane}
use coakka_runtime_swift.Bridge.Stream.{publish_spec, subscribe_spec}
use coakka_runtime_swift.Core.Slot.{Slot, symbol_name}
use coakka_runtime_swift.Core.Call.{Call, stored}
use coakka_runtime_swift.Machine.Heap.{World, Host}
use coakka_runtime_swift.Machine.Effects.{pure, returns}
use coakka_runtime_swift.Bridge.Access.{slot_of, lookup, clear_if}
use coakka_runtime_swift.Bridge.Spec.{
  Spec, refuse, attempt, perform, IsOpen, lookup_lem, slot_of_lem,
}
use coakka_runtime_swift.Bridge.Stream
use coakka_runtime_swift.Bridge.Stream.Ops.{
  Op, available, create, create_owned, destroy, start, stop, bound_port, prepare_publish,
  prepare_publish_grant, subscribe, get_session, wait_session, get_pressure, wait_pressure, cancel,
  forget, stats, Result, run, absent,
}

-- The promise for a library pointer that is not NULL.
abbrev pub spec : (o : Op) → Spec (Result o)
spec (available none) = refuse (invalid_arg, none)
spec (available (some _)) =
    attempt "coakka_v2_runtime_get_info" (err_symbol, some 0) (Call.get_info info_request)
      (λ r. feature_result feature_stream_lane r)
spec (create config out) =
    attempt "coakka_v2_stream_lane_create_ex" (err_symbol, out) (Call.stream_create config out)
      (λ r. (r.0, stored out r.1))
spec (create_owned config out) =
    attempt "coakka_v2_stream_lane_create_owned_ex" (err_symbol, out)
      (Call.stream_create_owned config out) (λ r. (r.0, stored out r.1))
spec (destroy lane) = attempt "coakka_v2_stream_lane_destroy" tt (Call.stream_destroy lane) (λ r. r)
spec (start lane) =
    attempt "coakka_v2_stream_lane_start" err_symbol (Call.stream_simple lane) (λ r. r)
spec (stop lane) =
    attempt "coakka_v2_stream_lane_stop" err_symbol (Call.stream_simple lane) (λ r. r)
spec (bound_port lane out) =
    attempt "coakka_v2_stream_lane_get_bound_port" (err_symbol, out) (Call.stream_port lane out)
      (λ r. (r.0, stored out r.1))
spec (prepare_publish lane id token format max_frame source context) =
    attempt "coakka_v2_stream_lane_prepare_publish" err_symbol
      (Call.stream_publish lane (publish_spec id token format max_frame source context)) (λ r. r)
spec (prepare_publish_grant _ _ _ _ _ _ _ none) = refuse (err_symbol, none)
spec (prepare_publish_grant lane id token format max_frame source context (some grant)) =
    attempt "coakka_v2_stream_lane_prepare_publish_grant" (err_symbol, some grant)
      (Call.stream_publish_grant lane (publish_spec id token format max_frame source context)
        (cleared stream_publish_grant))
      (λ r. (r.0, some r.1))
spec (subscribe lane id token host_name port format max_frame window timeout consumer context) =
    attempt "coakka_v2_stream_lane_subscribe" err_symbol
      (Call.stream_subscribe lane
        (subscribe_spec id token host_name port format max_frame window timeout consumer context))
      (λ r. r)
spec (get_session lane id direction out) =
    attempt "coakka_v2_stream_lane_get_session" (err_symbol, clear_if stream_session_snapshot out)
      (Call.stream_get lane id direction (clear_if stream_session_snapshot out))
      (λ r. (r.0, stored out r.1))
spec (wait_session lane id direction after_sequence timeout_ms out) =
    attempt "coakka_v2_stream_lane_wait_session" (err_symbol, clear_if stream_session_snapshot out)
      (Call.stream_wait lane id direction after_sequence timeout_ms
        (clear_if stream_session_snapshot out))
      (λ r. (r.0, stored out r.1))
spec (get_pressure lane id direction out) =
    attempt "coakka_v2_stream_lane_get_pressure" (err_symbol, clear_if stream_pressure_snapshot out)
      (Call.stream_pressure lane id direction (clear_if stream_pressure_snapshot out))
      (λ r. (r.0, stored out r.1))
spec (wait_pressure lane id direction after_sequence timeout_ms out) =
    attempt "coakka_v2_stream_lane_wait_pressure"
      (err_symbol, clear_if stream_pressure_snapshot out)
      (Call.stream_wait_pressure lane id direction after_sequence timeout_ms
        (clear_if stream_pressure_snapshot out))
      (λ r. (r.0, stored out r.1))
spec (cancel lane id direction) =
    attempt "coakka_v2_stream_lane_cancel_session" err_symbol
      (Call.stream_control lane id direction) (λ r. r)
spec (forget lane id direction) =
    attempt "coakka_v2_stream_lane_forget_session" err_symbol
      (Call.stream_control lane id direction) (λ r. r)
spec (stats lane out) =
    attempt "coakka_v2_stream_lane_get_stats" (err_symbol, clear_if stream_lane_stats out)
      (Call.stream_stats lane (clear_if stream_lane_stats out)) (λ r. (r.0, stored out r.1))

module _ (host : Host) (handle : Ptr) (p : ℕ) (w : World) (open_p : IsOpen host handle p w) where
  slot_found : (s : Slot) → slot_of (some p) s w ≡ pure (host.find_symbol handle (symbol_name s)) w
  slot_found = slot_of_lem host handle p w open_p

  found : (name : String) → lookup host (some p) name w ≡ pure (host.find_symbol handle name) w
  found = lookup_lem host handle p w open_p

  pub stream-perform : (o : Op) → run host (some p) o w ≡ perform host handle (spec o) w
  unfolding run symbol_name Stream.available Stream.create Stream.create_owned Stream.destroy
      Stream.start Stream.stop Stream.bound_port Stream.prepare_publish Stream.prepare_publish_grant
      Stream.subscribe Stream.get_session Stream.wait_session Stream.get_pressure
      Stream.wait_pressure Stream.cancel Stream.forget Stream.stats feature_available
  stream-perform (available none) = refl
  stream-perform (available (some _)) = rw (slot_found Slot.get_info) (ground arith)
  stream-perform (create config out) = rw (found "coakka_v2_stream_lane_create_ex") (ground arith)
  stream-perform (create_owned config out) =
      rw (found "coakka_v2_stream_lane_create_owned_ex") (ground arith)
  stream-perform (destroy lane) = rw (found "coakka_v2_stream_lane_destroy") (ground arith)
  stream-perform (start lane) = rw (found "coakka_v2_stream_lane_start") (ground arith)
  stream-perform (stop lane) = rw (found "coakka_v2_stream_lane_stop") (ground arith)
  stream-perform (bound_port lane out) =
      rw (found "coakka_v2_stream_lane_get_bound_port") (ground arith)
  stream-perform (prepare_publish lane id token format max_frame source context) =
      rw (found "coakka_v2_stream_lane_prepare_publish") (ground arith)
  stream-perform (prepare_publish_grant _ _ _ _ _ _ _ none) =
      rw (found "coakka_v2_stream_lane_prepare_publish_grant") (ground arith)
  stream-perform
        (prepare_publish_grant lane id token format max_frame source context (some grant)) =
      rw (found "coakka_v2_stream_lane_prepare_publish_grant") (ground arith)
  stream-perform
        (subscribe lane id token host_name port format max_frame window timeout consumer context) =
      rw (found "coakka_v2_stream_lane_subscribe") (ground arith)
  stream-perform (get_session lane id direction out) =
      rw (found "coakka_v2_stream_lane_get_session") (ground arith)
  stream-perform (wait_session lane id direction after_sequence timeout_ms out) =
      rw (found "coakka_v2_stream_lane_wait_session") (ground arith)
  stream-perform (get_pressure lane id direction out) =
      rw (found "coakka_v2_stream_lane_get_pressure") (ground arith)
  stream-perform (wait_pressure lane id direction after_sequence timeout_ms out) =
      rw (found "coakka_v2_stream_lane_wait_pressure") (ground arith)
  stream-perform (cancel lane id direction) =
      rw (found "coakka_v2_stream_lane_cancel_session") (ground arith)
  stream-perform (forget lane id direction) =
      rw (found "coakka_v2_stream_lane_forget_session") (ground arith)
  stream-perform (stats lane out) = rw (found "coakka_v2_stream_lane_get_stats") (ground arith)

-- Every function takes a NULL library without a call.
pub stream-absent : (host : Host) (o : Op) (w : World) → run host none o w ≡ returns (absent o) w
unfolding run Stream.available Stream.create Stream.create_owned Stream.destroy Stream.start
    Stream.stop Stream.bound_port Stream.prepare_publish Stream.prepare_publish_grant
    Stream.subscribe Stream.get_session Stream.wait_session Stream.get_pressure Stream.wait_pressure
    Stream.cancel Stream.forget Stream.stats feature_available lookup
stream-absent host (available out) w = ground arith
stream-absent host (create config out) w = refl
stream-absent host (create_owned config out) w = refl
stream-absent host (destroy lane) w = refl
stream-absent host (start lane) w = refl
stream-absent host (stop lane) w = refl
stream-absent host (bound_port lane out) w = refl
stream-absent host (prepare_publish lane id token format max_frame source context) w = refl
stream-absent host (prepare_publish_grant lane id token format max_frame source context out) w =
    refl
stream-absent host
      (subscribe lane id token host_name port format max_frame window timeout consumer context) w =
    refl
stream-absent host (get_session lane id direction out) w = ground arith
stream-absent host (wait_session lane id direction after_sequence timeout_ms out) w = ground arith
stream-absent host (get_pressure lane id direction out) w = ground arith
stream-absent host (wait_pressure lane id direction after_sequence timeout_ms out) w = ground arith
stream-absent host (cancel lane id direction) w = refl
stream-absent host (forget lane id direction) w = refl
stream-absent host (stats lane out) w = ground arith
