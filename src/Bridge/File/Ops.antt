-- ===== src/Bridge/File/Ops.antt =====
-- The functions of Bridge/File.antt as requests, so that a statement can range over all of them.
use coakka_runtime_swift.Prelude.{ℕ, Option, List}
use coakka_runtime_swift.Status.{Status, invalid_arg, err_symbol}
use coakka_runtime_swift.Abi.File.{file_transfer_snapshot, file_lane_stats}
use coakka_runtime_swift.Core.Records.{Ptr, Output}
use coakka_runtime_swift.Machine.Heap.{Host}
use coakka_runtime_swift.Machine.Effects.{M}
use coakka_runtime_swift.Core.Call.{stored}
use coakka_runtime_swift.Bridge.Access.{clear_if}
use coakka_runtime_swift.Bridge.File

pub data Op : Type 0 where
  lane_owner_grants_available : Option ℕ → Op
  available : Option ℕ → Op
  create : Ptr → Option Ptr → Op
  create_owned : Ptr → Option Ptr → Op
  destroy : Ptr → Op
  start : Ptr → Op
  stop : Ptr → Op
  get_bound_port : Ptr → Option ℕ → Op
  prepare_receive : Ptr → Ptr → Ptr → Ptr → ℕ → Option (List ℕ) → Op
  prepare_receive_grant : Ptr → Ptr → Ptr → Ptr → ℕ → Option (List ℕ) → Option Output → Op
  submit_send : Ptr → Ptr → Ptr → Ptr → ℕ → Ptr → ℕ → Option (List ℕ) → ℕ → Op
  get_transfer : Ptr → Ptr → ℕ → Option Output → Op
  wait_transfer : Ptr → Ptr → ℕ → ℕ → ℕ → Option Output → Op
  cancel : Ptr → Ptr → ℕ → Op
  forget : Ptr → Ptr → ℕ → Op
  get_stats : Ptr → Option Output → Op
  sha256_path : Ptr → Option (List ℕ) → Option ℕ → Op

abbrev pub Result : Op → Type 0
Result (lane_owner_grants_available _) = Status × Option ℕ
Result (available _) = Status × Option ℕ
Result (create _ _) = Status × Option Ptr
Result (create_owned _ _) = Status × Option Ptr
Result (destroy _) = Unit
Result (start _) = Status
Result (stop _) = Status
Result (get_bound_port _ _) = Status × Option ℕ
Result (prepare_receive _ _ _ _ _ _) = Status
Result (prepare_receive_grant _ _ _ _ _ _ _) = Status × Option Output
Result (submit_send _ _ _ _ _ _ _ _ _) = Status
Result (get_transfer _ _ _ _) = Status × Option Output
Result (wait_transfer _ _ _ _ _ _) = Status × Option Output
Result (cancel _ _ _) = Status
Result (forget _ _ _) = Status
Result (get_stats _ _) = Status × Option Output
Result (sha256_path _ _ _) = Status × Option (List ℕ) × Option ℕ

unfoldable pub run : Host → Ptr → (o : Op) → M (Result o)
run host library (lane_owner_grants_available out) =
    File.lane_owner_grants_available host library out
run host library (available out) = File.available host library out
run host library (create config out) = File.create host library config out
run host library (create_owned config out) = File.create_owned host library config out
run host library (destroy lane) = File.destroy host library lane
run host library (start lane) = File.start host library lane
run host library (stop lane) = File.stop host library lane
run host library (get_bound_port lane out) = File.get_bound_port host library lane out
run host library (prepare_receive lane id token path content_size sha) =
    File.prepare_receive host library lane id token path content_size sha
run host library (prepare_receive_grant lane id token path content_size sha out) =
    File.prepare_receive_grant host library lane id token path content_size sha out
run host library (submit_send lane id token host_name port path content_size sha timeout) =
    File.submit_send host library lane id token host_name port path content_size sha timeout
run host library (get_transfer lane id direction out) =
    File.get_transfer host library lane id direction out
run host library (wait_transfer lane id direction after_sequence timeout_ms out) =
    File.wait_transfer host library lane id direction after_sequence timeout_ms out
run host library (cancel lane id direction) = File.cancel host library lane id direction
run host library (forget lane id direction) = File.forget host library lane id direction
run host library (get_stats lane out) = File.get_stats host library lane out
run host library (sha256_path path out out_size) = File.sha256_path host library path out out_size

-- The result for a NULL library.
abbrev pub absent : (o : Op) → Result o
absent (lane_owner_grants_available out) = (invalid_arg, stored out 0)
absent (available out) = (invalid_arg, stored out 0)
absent (create _ out) = (err_symbol, out)
absent (create_owned _ out) = (err_symbol, out)
absent (destroy _) = tt
absent (start _) = err_symbol
absent (stop _) = err_symbol
absent (get_bound_port _ out) = (err_symbol, out)
absent (prepare_receive _ _ _ _ _ _) = err_symbol
absent (prepare_receive_grant _ _ _ _ _ _ out) = (err_symbol, out)
absent (submit_send _ _ _ _ _ _ _ _ _) = err_symbol
absent (get_transfer _ _ _ out) = (err_symbol, clear_if file_transfer_snapshot out)
absent (wait_transfer _ _ _ _ _ out) = (err_symbol, clear_if file_transfer_snapshot out)
absent (cancel _ _ _) = err_symbol
absent (forget _ _ _) = err_symbol
absent (get_stats _ out) = (err_symbol, clear_if file_lane_stats out)
absent (sha256_path _ out out_size) = (err_symbol, out, out_size)
