-- ===== src/Bridge/Stream/Bounded.antt =====
-- Safety of the functions of Bridge/Stream.antt: the names of their direct calls.
use coakka_runtime_swift.Prelude.{ℕ, none, some}
use coakka_runtime_swift.Core.Records.{Ptr}
use coakka_runtime_swift.Core.Slot.{symbol_name}
use coakka_runtime_swift.Machine.Heap.{World, Host}
use coakka_runtime_swift.Bridge.Spec.{IsOpen, perform}
use coakka_runtime_swift.Bridge.Safety.{Bound, Safe, Complete, perform-Safe, same-Safe}
use coakka_runtime_swift.Bridge.Stream.Ops.{
  Op, run, available, create, create_owned, destroy, start, stop, bound_port, prepare_publish,
  prepare_publish_grant, subscribe, get_session, wait_session, get_pressure, wait_pressure, cancel,
  forget, stats,
}
use coakka_runtime_swift.Bridge.Stream.Refines.{spec, stream-perform}

module _ (host : Host) (handle : Ptr) where
  pub stream-Bound : (o : Op) → Bound host handle (spec o)
  unfolding symbol_name
  stream-Bound (available none) = tt
  stream-Bound (available (some _)) = tt
  stream-Bound (create config out) = tt
  stream-Bound (create_owned config out) = tt
  stream-Bound (destroy lane) = tt
  stream-Bound (start lane) = tt
  stream-Bound (stop lane) = tt
  stream-Bound (bound_port lane out) = tt
  stream-Bound (prepare_publish lane id token format max_frame source context) = tt
  stream-Bound (prepare_publish_grant _ _ _ _ _ _ _ none) = tt
  stream-Bound (prepare_publish_grant lane id token format max_frame source context (some grant)) =
      tt
  stream-Bound
        (subscribe lane id token host_name port format max_frame window timeout consumer context) =
      tt
  stream-Bound (get_session lane id direction out) = tt
  stream-Bound (wait_session lane id direction after_sequence timeout_ms out) = tt
  stream-Bound (get_pressure lane id direction out) = tt
  stream-Bound (wait_pressure lane id direction after_sequence timeout_ms out) = tt
  stream-Bound (cancel lane id direction) = tt
  stream-Bound (forget lane id direction) = tt
  stream-Bound (stats lane out) = tt

  pub stream-Safe :
      (p : ℕ) (w : World) (o : Op)
      → IsOpen host handle p w
      → Complete host handle
      → Safe host handle (run host (some p) o) w
  stream-Safe p w o open_p complete =
      same-Safe host handle (run host (some p) o) (perform host handle (spec o)) w
        (stream-perform host handle p w open_p o)
        (perform-Safe host handle (spec o) w complete (stream-Bound o))
