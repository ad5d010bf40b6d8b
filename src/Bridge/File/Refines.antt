-- ===== src/Bridge/File/Refines.antt =====
-- The functions of Bridge/File.antt against their promise: which exported function each one
-- calls, with what, and when it refuses.
use coakka_runtime_swift.Prelude.{ℕ, String, none, some, ◌≡◌, refl, arith, take}
use coakka_runtime_swift.Status.{invalid_arg, err_symbol}
use coakka_runtime_swift.Abi.File.{file_receive_grant, file_transfer_snapshot, file_lane_stats}
use coakka_runtime_swift.Core.Records.{Ptr, cleared}
use coakka_runtime_swift.Bridge.Inspect.{info_request}
use coakka_runtime_swift.Bridge.Feature.{
  feature_available, feature_result, feature_file_lane, feature_lane_owner_grants,
}
use coakka_runtime_swift.Bridge.File.{receive_spec, send_spec, sha_copy}
use coakka_runtime_swift.Core.Slot.{Slot, symbol_name}
use coakka_runtime_swift.Core.Call.{Call, stored}
use coakka_runtime_swift.Machine.Heap.{World, Host}
use coakka_runtime_swift.Machine.Effects.{pure, returns}
use coakka_runtime_swift.Bridge.Access.{slot_of, lookup, clear_if}
use coakka_runtime_swift.Bridge.Spec.{
  Spec, refuse, attempt, perform, IsOpen, lookup_lem, slot_of_lem,
}
use coakka_runtime_swift.Bridge.File
use coakka_runtime_swift.Bridge.File.Ops.{
  Op, lane_owner_grants_available, available, create, create_owned, destroy, start, stop,
  get_bound_port, prepare_receive, prepare_receive_grant, submit_send, get_transfer, wait_transfer,
  cancel, forget, get_stats, sha256_path, Result, run, absent,
}

-- The promise for a library pointer that is not NULL.
abbrev pub spec : (o : Op) → Spec (Result o)
spec (lane_owner_grants_available none) = refuse (invalid_arg, none)
spec (lane_owner_grants_available (some _)) =
    attempt "coakka_v2_runtime_get_info" (err_symbol, some 0) (Call.get_info info_request)
      (λ r. feature_result feature_lane_owner_grants r)
spec (available none) = refuse (invalid_arg, none)
spec (available (some _)) =
    attempt "coakka_v2_runtime_get_info" (err_symbol, some 0) (Call.get_info info_request)
      (λ r. feature_result feature_file_lane r)
spec (create config out) =
    attempt "coakka_v2_file_lane_create_ex" (err_symbol, out) (Call.file_create config out)
      (λ r. (r.0, stored out r.1))
spec (create_owned config out) =
    attempt "coakka_v2_file_lane_create_owned_ex" (err_symbol, out)
      (Call.file_create_owned config out) (λ r. (r.0, stored out r.1))
spec (destroy lane) = attempt "coakka_v2_file_lane_destroy" tt (Call.file_destroy lane) (λ r. r)
spec (start lane) = attempt "coakka_v2_file_lane_start" err_symbol (Call.file_simple lane) (λ r. r)
spec (stop lane) = attempt "coakka_v2_file_lane_stop" err_symbol (Call.file_simple lane) (λ r. r)
spec (get_bound_port lane out) =
    attempt "coakka_v2_file_lane_get_bound_port" (err_symbol, out) (Call.file_port lane out)
      (λ r. (r.0, stored out r.1))
spec (prepare_receive _ _ _ _ _ none) = refuse err_symbol
spec (prepare_receive lane id token path content_size (some digest)) =
    attempt "coakka_v2_file_lane_prepare_receive" err_symbol
      (Call.file_prepare lane (receive_spec id token path content_size (take 32 digest))) (λ r. r)
spec (prepare_receive_grant lane id token path content_size (some digest) (some grant)) =
    attempt "coakka_v2_file_lane_prepare_receive_grant" (err_symbol, some grant)
      (Call.file_prepare_grant lane (receive_spec id token path content_size (take 32 digest))
        (cleared file_receive_grant))
      (λ r. (r.0, some r.1))
spec (prepare_receive_grant _ _ _ _ _ _ out) = refuse (err_symbol, out)
spec (submit_send _ _ _ _ _ _ _ none _) = refuse err_symbol
spec (submit_send lane id token host_name port path content_size (some digest) timeout) =
    attempt "coakka_v2_file_lane_submit_send" err_symbol
      (Call.file_submit lane
        (send_spec id token host_name port path content_size (take 32 digest) timeout))
      (λ r. r)
spec (get_transfer lane id direction out) =
    attempt "coakka_v2_file_lane_get_transfer" (err_symbol, clear_if file_transfer_snapshot out)
      (Call.file_get lane id direction (clear_if file_transfer_snapshot out))
      (λ r. (r.0, stored out r.1))
spec (wait_transfer lane id direction after_sequence timeout_ms out) =
    attempt "coakka_v2_file_lane_wait_transfer" (err_symbol, clear_if file_transfer_snapshot out)
      (Call.file_wait lane id direction after_sequence timeout_ms
        (clear_if file_transfer_snapshot out))
      (λ r. (r.0, stored out r.1))
spec (cancel lane id direction) =
    attempt "coakka_v2_file_lane_cancel_transfer" err_symbol (Call.file_control lane id direction)
      (λ r. r)
spec (forget lane id direction) =
    attempt "coakka_v2_file_lane_forget_transfer" err_symbol (Call.file_control lane id direction)
      (λ r. r)
spec (get_stats lane out) =
    attempt "coakka_v2_file_lane_get_stats" (err_symbol, clear_if file_lane_stats out)
      (Call.file_stats lane (clear_if file_lane_stats out)) (λ r. (r.0, stored out r.1))
spec (sha256_path path out out_size) =
    attempt "coakka_v2_file_sha256_path" (err_symbol, out, out_size)
      (Call.file_sha path out out_size) (λ r. (r.0, stored out r.1, stored out_size r.2))

module _ (host : Host) (handle : Ptr) (p : ℕ) (w : World) (open_p : IsOpen host handle p w) where
  slot_found : (s : Slot) → slot_of (some p) s w ≡ pure (host.find_symbol handle (symbol_name s)) w
  slot_found = slot_of_lem host handle p w open_p

  found : (name : String) → lookup host (some p) name w ≡ pure (host.find_symbol handle name) w
  found = lookup_lem host handle p w open_p

  pub file-perform : (o : Op) → run host (some p) o w ≡ perform host handle (spec o) w
  unfolding run symbol_name File.lane_owner_grants_available File.available File.create
      File.create_owned File.destroy File.start File.stop File.get_bound_port File.prepare_receive
      File.prepare_receive_grant File.submit_send File.get_transfer File.wait_transfer File.cancel
      File.forget File.get_stats File.sha256_path feature_available
  file-perform (lane_owner_grants_available none) = refl
  file-perform (lane_owner_grants_available (some _)) = rw (slot_found Slot.get_info) (ground arith)
  file-perform (available none) = refl
  file-perform (available (some _)) = rw (slot_found Slot.get_info) (ground arith)
  file-perform (create config out) = rw (found "coakka_v2_file_lane_create_ex") (ground arith)
  file-perform (create_owned config out) =
      rw (found "coakka_v2_file_lane_create_owned_ex") (ground arith)
  file-perform (destroy lane) = rw (found "coakka_v2_file_lane_destroy") (ground arith)
  file-perform (start lane) = rw (found "coakka_v2_file_lane_start") (ground arith)
  file-perform (stop lane) = rw (found "coakka_v2_file_lane_stop") (ground arith)
  file-perform (get_bound_port lane out) =
      rw (found "coakka_v2_file_lane_get_bound_port") (ground arith)
  file-perform (prepare_receive _ _ _ _ _ none) =
      rw (found "coakka_v2_file_lane_prepare_receive") (ground arith)
  file-perform (prepare_receive lane id token path content_size (some digest)) =
      rw (found "coakka_v2_file_lane_prepare_receive") (ground arith)
  file-perform (prepare_receive_grant lane id token path content_size (some digest) (some grant)) =
      rw (found "coakka_v2_file_lane_prepare_receive_grant") (ground arith)
  file-perform (prepare_receive_grant _ _ _ _ _ _ out) =
      rw (found "coakka_v2_file_lane_prepare_receive_grant") (ground arith)
  file-perform (submit_send _ _ _ _ _ _ _ none _) =
      rw (found "coakka_v2_file_lane_submit_send") (ground arith)
  file-perform (submit_send lane id token host_name port path content_size (some digest) timeout) =
      rw (found "coakka_v2_file_lane_submit_send") (ground arith)
  file-perform (get_transfer lane id direction out) =
      rw (found "coakka_v2_file_lane_get_transfer") (ground arith)
  file-perform (wait_transfer lane id direction after_sequence timeout_ms out) =
      rw (found "coakka_v2_file_lane_wait_transfer") (ground arith)
  file-perform (cancel lane id direction) =
      rw (found "coakka_v2_file_lane_cancel_transfer") (ground arith)
  file-perform (forget lane id direction) =
      rw (found "coakka_v2_file_lane_forget_transfer") (ground arith)
  file-perform (get_stats lane out) = rw (found "coakka_v2_file_lane_get_stats") (ground arith)
  file-perform (sha256_path path out out_size) =
      rw (found "coakka_v2_file_sha256_path") (ground arith)

-- Every function takes a NULL library without a call.
pub file-absent : (host : Host) (o : Op) (w : World) → run host none o w ≡ returns (absent o) w
unfolding run File.lane_owner_grants_available File.available File.create File.create_owned
    File.destroy File.start File.stop File.get_bound_port File.prepare_receive
    File.prepare_receive_grant File.submit_send File.get_transfer File.wait_transfer File.cancel
    File.forget File.get_stats File.sha256_path feature_available lookup
file-absent host (lane_owner_grants_available out) w = ground arith
file-absent host (available out) w = ground arith
file-absent host (create config out) w = refl
file-absent host (create_owned config out) w = refl
file-absent host (destroy lane) w = refl
file-absent host (start lane) w = refl
file-absent host (stop lane) w = refl
file-absent host (get_bound_port lane out) w = refl
file-absent host (prepare_receive lane id token path content_size sha) w = refl
file-absent host (prepare_receive_grant lane id token path content_size sha out) w = refl
file-absent host (submit_send lane id token host_name port path content_size sha timeout) w = refl
file-absent host (get_transfer lane id direction out) w = ground arith
file-absent host (wait_transfer lane id direction after_sequence timeout_ms out) w = ground arith
file-absent host (cancel lane id direction) w = refl
file-absent host (forget lane id direction) w = refl
file-absent host (get_stats lane out) w = ground arith
file-absent host (sha256_path path out out_size) w = refl
