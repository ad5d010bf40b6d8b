-- ===== src/Bridge/Stream/Forwarded.antt =====
-- The status of each function of Bridge/Stream.antt.
use coakka_runtime_swift.Prelude.{ℕ, Option, none, some, refl, inl, inr}
use coakka_runtime_swift.Status.{Status}
use coakka_runtime_swift.Core.Records.{Ptr}
use coakka_runtime_swift.Machine.Heap.{World, Host}
use coakka_runtime_swift.Bridge.Spec.{IsOpen, perform}
use coakka_runtime_swift.Bridge.Safety.{Complete}
use coakka_runtime_swift.Bridge.Feature.{feature_stream_lane}
use coakka_runtime_swift.Bridge.Forwarded.{
  Forwards, Forwarding, perform-Forwarding, same-Forwarding, feature-status,
}
use coakka_runtime_swift.Bridge.Stream.Ops.{
  Op, Result, run, available, create, create_owned, destroy, start, stop, bound_port,
  prepare_publish, prepare_publish_grant, subscribe, get_session, wait_session, get_pressure,
  wait_pressure, cancel, forget, stats,
}
use coakka_runtime_swift.Bridge.Stream.Refines.{spec, stream-perform}
use coakka_runtime_swift.Bridge.Stream.Bounded.{stream-Bound}

-- The status in a result, where it has one.
abbrev pub status_of : (o : Op) → Result o → Option Status
status_of (available _) r = some r.0
status_of (create _ _) r = some r.0
status_of (create_owned _ _) r = some r.0
status_of (destroy _) _ = none
status_of (start _) r = some r
status_of (stop _) r = some r
status_of (bound_port _ _) r = some r.0
status_of (prepare_publish _ _ _ _ _ _ _) r = some r
status_of (prepare_publish_grant _ _ _ _ _ _ _ _) r = some r.0
status_of (subscribe _ _ _ _ _ _ _ _ _ _ _) r = some r
status_of (get_session _ _ _ _) r = some r.0
status_of (wait_session _ _ _ _ _ _) r = some r.0
status_of (get_pressure _ _ _ _) r = some r.0
status_of (wait_pressure _ _ _ _ _ _) r = some r.0
status_of (cancel _ _ _) r = some r
status_of (forget _ _ _) r = some r
status_of (stats _ _) r = some r.0

stream-Forwards : (o : Op) → Forwards (status_of o) (spec o)
stream-Forwards (available none) = inr (inl refl)
stream-Forwards (available (some _)) = (inr (inr refl), feature-status feature_stream_lane)
stream-Forwards (create config out) = (inr (inr refl), λ r. refl)
stream-Forwards (create_owned config out) = (inr (inr refl), λ r. refl)
stream-Forwards (destroy lane) = (inl refl, λ r. refl)
stream-Forwards (start lane) = (inr (inr refl), λ r. refl)
stream-Forwards (stop lane) = (inr (inr refl), λ r. refl)
stream-Forwards (bound_port lane out) = (inr (inr refl), λ r. refl)
stream-Forwards (prepare_publish lane id token format max_frame source context) =
    (inr (inr refl), λ r. refl)
stream-Forwards (prepare_publish_grant _ _ _ _ _ _ _ none) = inr (inr refl)
stream-Forwards (prepare_publish_grant lane id token format max_frame source context (some grant)) =
    (inr (inr refl), λ r. refl)
stream-Forwards
      (subscribe lane id token host_name port format max_frame window timeout consumer context) =
    (inr (inr refl), λ r. refl)
stream-Forwards (get_session lane id direction out) = (inr (inr refl), λ r. refl)
stream-Forwards (wait_session lane id direction after_sequence timeout_ms out) =
    (inr (inr refl), λ r. refl)
stream-Forwards (get_pressure lane id direction out) = (inr (inr refl), λ r. refl)
stream-Forwards (wait_pressure lane id direction after_sequence timeout_ms out) =
    (inr (inr refl), λ r. refl)
stream-Forwards (cancel lane id direction) = (inr (inr refl), λ r. refl)
stream-Forwards (forget lane id direction) = (inr (inr refl), λ r. refl)
stream-Forwards (stats lane out) = (inr (inr refl), λ r. refl)

module _ (host : Host) (handle : Ptr) where
  pub stream-Forwarding :
      (p : ℕ) (w : World) (o : Op)
      → IsOpen host handle p w
      → Complete host handle
      → Forwarding host (status_of o) (run host (some p) o) w
  stream-Forwarding p w o open_p complete =
      same-Forwarding host (status_of o) (run host (some p) o) (perform host handle (spec o)) w
        (stream-perform host handle p w open_p o)
        (perform-Forwarding host handle (status_of o) w (spec o) complete
          (stream-Bound host handle o) (stream-Forwards o))
