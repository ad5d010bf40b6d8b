-- ===== src/Bridge/Lifecycle/Ops.antt =====
-- The functions of the lifecycle as requests, so that a statement can range over all of them.
use coakka_runtime_swift.Prelude.{ℕ, Option, none, ℤ}
use coakka_runtime_swift.Status.{Status, invalid_arg}
use coakka_runtime_swift.Core.Records.{Ptr, HostHandles}
use coakka_runtime_swift.Core.Call.{stored}
use coakka_runtime_swift.Machine.Heap.{Host}
use coakka_runtime_swift.Machine.Effects.{M}
use coakka_runtime_swift.Bridge.Lifecycle

pub data Op : Type 0 where
  create_native : Ptr → Ptr → ℤ → ℤ → Ptr → Option Ptr → Op
  create : Ptr → Ptr → ℤ → ℤ → Op
  destroy : Ptr → Op
  apply_network : Ptr → ℕ → Ptr → ℕ → Ptr → ℕ → Op
  get_host_handles : Ptr → ℕ → Option HostHandles → Op
  host_handles_close : Option HostHandles → Op
  start : Ptr → Op
  stop : Ptr → Op
  apply_snapshot : Ptr → ℕ → Ptr → ℕ → Op
  submit_envelope : Ptr → Ptr → ℕ → Op

abbrev pub Result : Op → Type 0
Result (create_native _ _ _ _ _ _) = Status × Option Ptr
Result (create _ _ _ _) = Ptr
Result (destroy _) = Unit
Result (apply_network _ _ _ _ _ _) = Status
Result (get_host_handles _ _ _) = Status × Option HostHandles
Result (host_handles_close _) = Option HostHandles
Result (start _) = Status
Result (stop _) = Status
Result (apply_snapshot _ _ _ _) = Status
Result (submit_envelope _ _ _) = Status

unfoldable pub run : Host → Ptr → (o : Op) → M (Result o)
run host library (create_native system node_id strict capacity options out) =
    Lifecycle.create_native host library system node_id strict capacity options out
run host library (create system_name node_id strict_no_drop queue_capacity) =
    Lifecycle.create host library system_name node_id strict_no_drop queue_capacity
run host library (destroy runtime) = Lifecycle.destroy host library runtime
run host library (apply_network runtime mode bind_host bind_port advertise_host advertise_port) =
    Lifecycle.apply_network host library runtime mode bind_host bind_port advertise_host
      advertise_port
run host library (get_host_handles runtime flags out) =
    Lifecycle.get_host_handles host library runtime flags out
run host library (host_handles_close handles) = Lifecycle.host_handles_close host library handles
run host library (start runtime) = Lifecycle.start host library runtime
run host library (stop runtime) = Lifecycle.stop host library runtime
run host library (apply_snapshot runtime generation routes count) =
    Lifecycle.apply_snapshot host library runtime generation routes count
run host library (submit_envelope runtime buf len) =
    Lifecycle.submit_envelope host library runtime buf len

-- The result for a NULL library.
abbrev pub absent : (o : Op) → Result o
absent (create_native _ _ _ _ _ out) = (invalid_arg, stored out none)
absent (create _ _ _ _) = none
absent (destroy _) = tt
absent (apply_network _ _ _ _ _ _) = invalid_arg
absent (get_host_handles _ _ out) = (invalid_arg, out)
absent (host_handles_close handles) = handles
absent (start _) = invalid_arg
absent (stop _) = invalid_arg
absent (apply_snapshot _ _ _ _) = invalid_arg
absent (submit_envelope _ _ _) = invalid_arg
