-- ===== src/Bridge/File/Bounded.antt =====
-- Safety of the functions of Bridge/File.antt: the names of their direct calls.
use coakka_runtime_swift.Prelude.{ℕ, none, some}
use coakka_runtime_swift.Core.Records.{Ptr}
use coakka_runtime_swift.Core.Slot.{symbol_name}
use coakka_runtime_swift.Machine.Heap.{World, Host}
use coakka_runtime_swift.Bridge.Spec.{IsOpen, perform}
use coakka_runtime_swift.Bridge.Safety.{Bound, Safe, Complete, perform-Safe, same-Safe}
use coakka_runtime_swift.Bridge.File.Ops.{
  Op, run, lane_owner_grants_available, available, create, create_owned, destroy, start, stop,
  get_bound_port, prepare_receive, prepare_receive_grant, submit_send, get_transfer, wait_transfer,
  cancel, forget, get_stats, sha256_path,
}
use coakka_runtime_swift.Bridge.File.Refines.{spec, file-perform}

module _ (host : Host) (handle : Ptr) where
  pub file-Bound : (o : Op) → Bound host handle (spec o)
  unfolding symbol_name
  file-Bound (lane_owner_grants_available none) = tt
  file-Bound (lane_owner_grants_available (some _)) = tt
  file-Bound (available none) = tt
  file-Bound (available (some _)) = tt
  file-Bound (create config out) = tt
  file-Bound (create_owned config out) = tt
  file-Bound (destroy lane) = tt
  file-Bound (start lane) = tt
  file-Bound (stop lane) = tt
  file-Bound (get_bound_port lane out) = tt
  file-Bound (prepare_receive _ _ _ _ _ none) = tt
  file-Bound (prepare_receive lane id token path content_size (some digest)) = tt
  file-Bound (prepare_receive_grant lane id token path content_size (some digest) (some grant)) = tt
  file-Bound (prepare_receive_grant _ _ _ _ _ _ out) = tt
  file-Bound (submit_send _ _ _ _ _ _ _ none _) = tt
  file-Bound (submit_send lane id token host_name port path content_size (some digest) timeout) = tt
  file-Bound (get_transfer lane id direction out) = tt
  file-Bound (wait_transfer lane id direction after_sequence timeout_ms out) = tt
  file-Bound (cancel lane id direction) = tt
  file-Bound (forget lane id direction) = tt
  file-Bound (get_stats lane out) = tt
  file-Bound (sha256_path path out out_size) = tt

  pub file-Safe :
      (p : ℕ) (w : World) (o : Op)
      → IsOpen host handle p w
      → Complete host handle
      → Safe host handle (run host (some p) o) w
  file-Safe p w o open_p complete =
      same-Safe host handle (run host (some p) o) (perform host handle (spec o)) w
        (file-perform host handle p w open_p o)
        (perform-Safe host handle (spec o) w complete (file-Bound o))
