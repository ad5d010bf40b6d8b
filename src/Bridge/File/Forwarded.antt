-- ===== src/Bridge/File/Forwarded.antt =====
-- The status of each function of Bridge/File.antt.
use coakka_runtime_swift.Prelude.{ℕ, Option, none, some, refl, inl, inr}
use coakka_runtime_swift.Status.{Status}
use coakka_runtime_swift.Core.Records.{Ptr}
use coakka_runtime_swift.Machine.Heap.{World, Host}
use coakka_runtime_swift.Bridge.Spec.{IsOpen, perform}
use coakka_runtime_swift.Bridge.Safety.{Complete}
use coakka_runtime_swift.Bridge.Feature.{feature_file_lane, feature_lane_owner_grants}
use coakka_runtime_swift.Bridge.Forwarded.{
  Forwards, Forwarding, perform-Forwarding, same-Forwarding, feature-status,
}
use coakka_runtime_swift.Bridge.File.Ops.{
  Op, Result, run, lane_owner_grants_available, available, create, create_owned, destroy, start,
  stop, get_bound_port, prepare_receive, prepare_receive_grant, submit_send, get_transfer,
  wait_transfer, cancel, forget, get_stats, sha256_path,
}
use coakka_runtime_swift.Bridge.File.Refines.{spec, file-perform}
use coakka_runtime_swift.Bridge.File.Bounded.{file-Bound}

-- The status in a result, where it has one.
abbrev pub status_of : (o : Op) → Result o → Option Status
status_of (lane_owner_grants_available _) r = some r.0
status_of (available _) r = some r.0
status_of (create _ _) r = some r.0
status_of (create_owned _ _) r = some r.0
status_of (destroy _) _ = none
status_of (start _) r = some r
status_of (stop _) r = some r
status_of (get_bound_port _ _) r = some r.0
status_of (prepare_receive _ _ _ _ _ _) r = some r
status_of (prepare_receive_grant _ _ _ _ _ _ _) r = some r.0
status_of (submit_send _ _ _ _ _ _ _ _ _) r = some r
status_of (get_transfer _ _ _ _) r = some r.0
status_of (wait_transfer _ _ _ _ _ _) r = some r.0
status_of (cancel _ _ _) r = some r
status_of (forget _ _ _) r = some r
status_of (get_stats _ _) r = some r.0
status_of (sha256_path _ _ _) r = some r.0

file-Forwards : (o : Op) → Forwards (status_of o) (spec o)
file-Forwards (lane_owner_grants_available none) = inr (inl refl)
file-Forwards (lane_owner_grants_available (some _)) =
    (inr (inr refl), feature-status feature_lane_owner_grants)
file-Forwards (available none) = inr (inl refl)
file-Forwards (available (some _)) = (inr (inr refl), feature-status feature_file_lane)
file-Forwards (create config out) = (inr (inr refl), λ r. refl)
file-Forwards (create_owned config out) = (inr (inr refl), λ r. refl)
file-Forwards (destroy lane) = (inl refl, λ r. refl)
file-Forwards (start lane) = (inr (inr refl), λ r. refl)
file-Forwards (stop lane) = (inr (inr refl), λ r. refl)
file-Forwards (get_bound_port lane out) = (inr (inr refl), λ r. refl)
file-Forwards (prepare_receive _ _ _ _ _ none) = inr (inr refl)
file-Forwards (prepare_receive lane id token path content_size (some digest)) =
    (inr (inr refl), λ r. refl)
file-Forwards (prepare_receive_grant lane id token path content_size (some digest) (some grant)) =
    (inr (inr refl), λ r. refl)
file-Forwards (prepare_receive_grant _ _ _ _ _ _ out) = inr (inr refl)
file-Forwards (submit_send _ _ _ _ _ _ _ none _) = inr (inr refl)
file-Forwards (submit_send lane id token host_name port path content_size (some digest) timeout) =
    (inr (inr refl), λ r. refl)
file-Forwards (get_transfer lane id direction out) = (inr (inr refl), λ r. refl)
file-Forwards (wait_transfer lane id direction after_sequence timeout_ms out) =
    (inr (inr refl), λ r. refl)
file-Forwards (cancel lane id direction) = (inr (inr refl), λ r. refl)
file-Forwards (forget lane id direction) = (inr (inr refl), λ r. refl)
file-Forwards (get_stats lane out) = (inr (inr refl), λ r. refl)
file-Forwards (sha256_path path out out_size) = (inr (inr refl), λ r. refl)

module _ (host : Host) (handle : Ptr) where
  pub file-Forwarding :
      (p : ℕ) (w : World) (o : Op)
      → IsOpen host handle p w
      → Complete host handle
      → Forwarding host (status_of o) (run host (some p) o) w
  file-Forwarding p w o open_p complete =
      same-Forwarding host (status_of o) (run host (some p) o) (perform host handle (spec o)) w
        (file-perform host handle p w open_p o)
        (perform-Forwarding host handle (status_of o) w (spec o) complete (file-Bound host handle o)
          (file-Forwards o))
