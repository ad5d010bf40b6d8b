-- ===== src/Bridge/Stream/Ops.antt =====
-- The functions of Bridge/Stream.antt as requests, so that a statement can range over all of them.
use coakka_runtime_swift.Prelude.{ℕ, Option}
use coakka_runtime_swift.Status.{Status, invalid_arg, err_symbol}
use coakka_runtime_swift.Abi.Stream.{
  stream_session_snapshot, stream_pressure_snapshot, stream_lane_stats,
}
use coakka_runtime_swift.Core.Records.{Ptr, Output}
use coakka_runtime_swift.Machine.Heap.{Host}
use coakka_runtime_swift.Machine.Effects.{M}
use coakka_runtime_swift.Core.Call.{stored}
use coakka_runtime_swift.Bridge.Access.{clear_if}
use coakka_runtime_swift.Bridge.Stream

pub data Op : Type 0 where
  available : Option ℕ → Op
  create : Ptr → Option Ptr → Op
  create_owned : Ptr → Option Ptr → Op
  destroy : Ptr → Op
  start : Ptr → Op
  stop : Ptr → Op
  bound_port : Ptr → Option ℕ → Op
  prepare_publish : Ptr → Ptr → Ptr → ℕ → ℕ → Ptr → Ptr → Op
  prepare_publish_grant : Ptr → Ptr → Ptr → ℕ → ℕ → Ptr → Ptr → Option Output → Op
  subscribe : Ptr → Ptr → Ptr → Ptr → ℕ → ℕ → ℕ → ℕ → ℕ → Ptr → Ptr → Op
  get_session : Ptr → Ptr → ℕ → Option Output → Op
  wait_session : Ptr → Ptr → ℕ → ℕ → ℕ → Option Output → Op
  get_pressure : Ptr → Ptr → ℕ → Option Output → Op
  wait_pressure : Ptr → Ptr → ℕ → ℕ → ℕ → Option Output → Op
  cancel : Ptr → Ptr → ℕ → Op
  forget : Ptr → Ptr → ℕ → Op
  stats : Ptr → Option Output → Op

abbrev pub Result : Op → Type 0
Result (available _) = Status × Option ℕ
Result (create _ _) = Status × Option Ptr
Result (create_owned _ _) = Status × Option Ptr
Result (destroy _) = Unit
Result (start _) = Status
Result (stop _) = Status
Result (bound_port _ _) = Status × Option ℕ
Result (prepare_publish _ _ _ _ _ _ _) = Status
Result (prepare_publish_grant _ _ _ _ _ _ _ _) = Status × Option Output
Result (subscribe _ _ _ _ _ _ _ _ _ _ _) = Status
Result (get_session _ _ _ _) = Status × Option Output
Result (wait_session _ _ _ _ _ _) = Status × Option Output
Result (get_pressure _ _ _ _) = Status × Option Output
Result (wait_pressure _ _ _ _ _ _) = Status × Option Output
Result (cancel _ _ _) = Status
Result (forget _ _ _) = Status
Result (stats _ _) = Status × Option Output

unfoldable pub run : Host → Ptr → (o : Op) → M (Result o)
run host library (available out) = Stream.available host library out
run host library (create config out) = Stream.create host library config out
run host library (create_owned config out) = Stream.create_owned host library config out
run host library (destroy lane) = Stream.destroy host library lane
run host library (start lane) = Stream.start host library lane
run host library (stop lane) = Stream.stop host library lane
run host library (bound_port lane out) = Stream.bound_port host library lane out
run host library (prepare_publish lane id token format max_frame source context) =
    Stream.prepare_publish host library lane id token format max_frame source context
run host library (prepare_publish_grant lane id token format max_frame source context out) =
    Stream.prepare_publish_grant host library lane id token format max_frame source context out
run host library
      (subscribe lane id token host_name port format max_frame window timeout consumer context) =
    Stream.subscribe host library lane id token host_name port format max_frame window timeout
      consumer context
run host library (get_session lane id direction out) =
    Stream.get_session host library lane id direction out
run host library (wait_session lane id direction after_sequence timeout_ms out) =
    Stream.wait_session host library lane id direction after_sequence timeout_ms out
run host library (get_pressure lane id direction out) =
    Stream.get_pressure host library lane id direction out
run host library (wait_pressure lane id direction after_sequence timeout_ms out) =
    Stream.wait_pressure host library lane id direction after_sequence timeout_ms out
run host library (cancel lane id direction) = Stream.cancel host library lane id direction
run host library (forget lane id direction) = Stream.forget host library lane id direction
run host library (stats lane out) = Stream.stats host library lane out

-- The result for a NULL library.
abbrev pub absent : (o : Op) → Result o
absent (available out) = (invalid_arg, stored out 0)
absent (create _ out) = (err_symbol, out)
absent (create_owned _ out) = (err_symbol, out)
absent (destroy _) = tt
absent (start _) = err_symbol
absent (stop _) = err_symbol
absent (bound_port _ out) = (err_symbol, out)
absent (prepare_publish _ _ _ _ _ _ _) = err_symbol
absent (prepare_publish_grant _ _ _ _ _ _ _ out) = (err_symbol, out)
absent (subscribe _ _ _ _ _ _ _ _ _ _ _) = err_symbol
absent (get_session _ _ _ out) = (err_symbol, clear_if stream_session_snapshot out)
absent (wait_session _ _ _ _ _ out) = (err_symbol, clear_if stream_session_snapshot out)
absent (get_pressure _ _ _ out) = (err_symbol, clear_if stream_pressure_snapshot out)
absent (wait_pressure _ _ _ _ _ out) = (err_symbol, clear_if stream_pressure_snapshot out)
absent (cancel _ _ _) = err_symbol
absent (forget _ _ _) = err_symbol
absent (stats _ out) = (err_symbol, clear_if stream_lane_stats out)
