-- ===== src/Bridge/File/Prepared.antt =====
-- The records that the functions of Bridge/File.antt prepare.
use coakka_runtime_swift.Prelude.{ℕ, none, some, refl}
use coakka_runtime_swift.Core.Records.{Ptr}
use coakka_runtime_swift.Machine.Heap.{World, Host}
use coakka_runtime_swift.Bridge.Spec.{IsOpen, perform}
use coakka_runtime_swift.Bridge.Safety.{Complete}
use coakka_runtime_swift.Abi.File.{file_transfer_snapshot, file_lane_stats}
use coakka_runtime_swift.Bridge.File.{receive_spec}
use coakka_runtime_swift.Bridge.File.{send_spec}
use coakka_runtime_swift.Bridge.Inspect.{info_request}
use coakka_runtime_swift.Bridge.Inspect.Prepared.{info_request-IsClearedInfo}
use coakka_runtime_swift.Bridge.Prepared.{
  Prepares, Preparing, perform-Preparing, same-Preparing, clear_if-IsCleared,
}
use coakka_runtime_swift.Bridge.File.Ops.{
  Op, run, lane_owner_grants_available, available, create, create_owned, destroy, start, stop,
  get_bound_port, prepare_receive, prepare_receive_grant, submit_send, get_transfer, wait_transfer,
  cancel, forget, get_stats, sha256_path,
}
use coakka_runtime_swift.Bridge.File.Refines.{spec, file-perform}
use coakka_runtime_swift.Bridge.File.Bounded.{file-Bound}

file-Prepares : (o : Op) → Prepares (spec o)
unfolding receive_spec send_spec info_request
file-Prepares (lane_owner_grants_available none) = tt
file-Prepares (lane_owner_grants_available (some _)) = info_request-IsClearedInfo
file-Prepares (available none) = tt
file-Prepares (available (some _)) = info_request-IsClearedInfo
file-Prepares (create config out) = tt
file-Prepares (create_owned config out) = tt
file-Prepares (destroy lane) = tt
file-Prepares (start lane) = tt
file-Prepares (stop lane) = tt
file-Prepares (get_bound_port lane out) = tt
file-Prepares (prepare_receive _ _ _ _ _ none) = tt
file-Prepares (prepare_receive lane id token path content_size (some digest)) = refl
file-Prepares (prepare_receive_grant lane id token path content_size (some digest) (some grant)) =
    (refl, refl)
file-Prepares (prepare_receive_grant _ _ _ _ _ _ out) = tt
file-Prepares (submit_send _ _ _ _ _ _ _ none _) = tt
file-Prepares (submit_send lane id token host_name port path content_size (some digest) timeout) =
    refl
file-Prepares (get_transfer lane id direction out) = clear_if-IsCleared file_transfer_snapshot out
file-Prepares (wait_transfer lane id direction after_sequence timeout_ms out) =
    clear_if-IsCleared file_transfer_snapshot out
file-Prepares (cancel lane id direction) = tt
file-Prepares (forget lane id direction) = tt
file-Prepares (get_stats lane out) = clear_if-IsCleared file_lane_stats out
file-Prepares (sha256_path path out out_size) = tt

module _ (host : Host) (handle : Ptr) where
  pub file-Preparing :
      (p : ℕ) (w : World) (o : Op)
      → IsOpen host handle p w
      → Complete host handle
      → Preparing (run host (some p) o) w
  file-Preparing p w o open_p complete =
      same-Preparing (run host (some p) o) (perform host handle (spec o)) w
        (file-perform host handle p w open_p o)
        (perform-Preparing host handle w (spec o) complete (file-Bound host handle o)
          (file-Prepares o))
