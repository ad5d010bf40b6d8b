-- ===== src/Bridge/Stream/Prepared.antt =====
-- The records that the functions of Bridge/Stream.antt prepare.
use coakka_runtime_swift.Prelude.{ℕ, none, some, refl}
use coakka_runtime_swift.Core.Records.{Ptr}
use coakka_runtime_swift.Machine.Heap.{World, Host}
use coakka_runtime_swift.Bridge.Spec.{IsOpen, perform}
use coakka_runtime_swift.Bridge.Safety.{Complete}
use coakka_runtime_swift.Abi.Stream.{
  stream_session_snapshot, stream_pressure_snapshot, stream_lane_stats,
}
use coakka_runtime_swift.Bridge.Stream.{publish_spec}
use coakka_runtime_swift.Bridge.Stream.{subscribe_spec}
use coakka_runtime_swift.Bridge.Inspect.{info_request}
use coakka_runtime_swift.Bridge.Inspect.Prepared.{info_request-IsClearedInfo}
use coakka_runtime_swift.Bridge.Prepared.{
  Prepares, Preparing, perform-Preparing, same-Preparing, clear_if-IsCleared,
}
use coakka_runtime_swift.Bridge.Stream.Ops.{
  Op, run, available, create, create_owned, destroy, start, stop, bound_port, prepare_publish,
  prepare_publish_grant, subscribe, get_session, wait_session, get_pressure, wait_pressure, cancel,
  forget, stats,
}
use coakka_runtime_swift.Bridge.Stream.Refines.{spec, stream-perform}
use coakka_runtime_swift.Bridge.Stream.Bounded.{stream-Bound}

stream-Prepares : (o : Op) → Prepares (spec o)
unfolding publish_spec subscribe_spec info_request
stream-Prepares (available none) = tt
stream-Prepares (available (some _)) = info_request-IsClearedInfo
stream-Prepares (create config out) = tt
stream-Prepares (create_owned config out) = tt
stream-Prepares (destroy lane) = tt
stream-Prepares (start lane) = tt
stream-Prepares (stop lane) = tt
stream-Prepares (bound_port lane out) = tt
stream-Prepares (prepare_publish lane id token format max_frame source context) = refl
stream-Prepares (prepare_publish_grant _ _ _ _ _ _ _ none) = tt
stream-Prepares (prepare_publish_grant lane id token format max_frame source context (some grant)) =
    (refl, refl)
stream-Prepares
      (subscribe lane id token host_name port format max_frame window timeout consumer context) =
    refl
stream-Prepares (get_session lane id direction out) = clear_if-IsCleared stream_session_snapshot out
stream-Prepares (wait_session lane id direction after_sequence timeout_ms out) =
    clear_if-IsCleared stream_session_snapshot out
stream-Prepares (get_pressure lane id direction out) =
    clear_if-IsCleared stream_pressure_snapshot out
stream-Prepares (wait_pressure lane id direction after_sequence timeout_ms out) =
    clear_if-IsCleared stream_pressure_snapshot out
stream-Prepares (cancel lane id direction) = tt
stream-Prepares (forget lane id direction) = tt
stream-Prepares (stats lane out) = clear_if-IsCleared stream_lane_stats out

module _ (host : Host) (handle : Ptr) where
  pub stream-Preparing :
      (p : ℕ) (w : World) (o : Op)
      → IsOpen host handle p w
      → Complete host handle
      → Preparing (run host (some p) o) w
  stream-Preparing p w o open_p complete =
      same-Preparing (run host (some p) o) (perform host handle (spec o)) w
        (stream-perform host handle p w open_p o)
        (perform-Preparing host handle w (spec o) complete (stream-Bound host handle o)
          (stream-Prepares o))
