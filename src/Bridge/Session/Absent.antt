-- ===== src/Bridge/Session/Absent.antt =====
-- The calls of the bridge with a NULL library.
use coakka_runtime_swift.Prelude.{none, ◌≡◌}
use coakka_runtime_swift.Machine.Heap.{World, Host}
use coakka_runtime_swift.Machine.Effects.{returns}
use coakka_runtime_swift.Bridge.Lifecycle
use coakka_runtime_swift.Bridge.Inspect
use coakka_runtime_swift.Bridge.Client
use coakka_runtime_swift.Bridge.File
use coakka_runtime_swift.Bridge.Stream
use coakka_runtime_swift.Bridge.Lifecycle.Refines.{lifecycle-absent}
use coakka_runtime_swift.Bridge.Inspect.Refines.{inspect-absent}
use coakka_runtime_swift.Bridge.Client.Refines.{client-absent}
use coakka_runtime_swift.Bridge.File.Refines.{file-absent}
use coakka_runtime_swift.Bridge.Stream.Refines.{stream-absent}
use coakka_runtime_swift.Bridge.Session.{
  Request, lifecycle, inspect, client, file, stream, Answer, serve,
}

abbrev pub absent : (q : Request) → Answer q
absent (lifecycle o) = Lifecycle.Ops.absent o
absent (inspect o) = Inspect.Ops.absent o
absent (client o) = Client.Ops.absent o
absent (file o) = File.Ops.absent o
absent (stream o) = Stream.Ops.absent o

-- Every function of the bridge takes a NULL library without a fault, without a call and without a
-- change of the state. Its answer is the one of the table `absent`: INVALID_ARG, or ERR_SYMBOL from
-- the functions that look their symbol up at the call, NULL, 0 or an empty text; outputs are as
-- they were, but for those that are cleared before the library is looked at.
pub serve-absent :
    (host : Host) (q : Request) (w : World) → serve host none q w ≡ returns (absent q) w
unfolding serve
serve-absent host (lifecycle o) w = lifecycle-absent host o w
serve-absent host (inspect o) w = inspect-absent host o w
serve-absent host (client o) w = client-absent host o w
serve-absent host (file o) w = file-absent host o w
serve-absent host (stream o) w = stream-absent host o w
