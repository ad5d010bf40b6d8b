-- ===== src/Bridge/Session/Statuses.antt =====
-- The status values of all functions of the bridge.
use coakka_runtime_swift.Prelude.{ℕ, Option, some}
use coakka_runtime_swift.Status.{Status}
use coakka_runtime_swift.Core.Records.{Ptr}
use coakka_runtime_swift.Machine.Heap.{World, Host}
use coakka_runtime_swift.Bridge.Spec.{IsOpen}
use coakka_runtime_swift.Bridge.Safety.{Complete}
use coakka_runtime_swift.Bridge.Forwarded.{Forwarding}
use coakka_runtime_swift.Bridge.Lifecycle
use coakka_runtime_swift.Bridge.Inspect
use coakka_runtime_swift.Bridge.Client
use coakka_runtime_swift.Bridge.File
use coakka_runtime_swift.Bridge.Stream
use coakka_runtime_swift.Bridge.Lifecycle.Forwarded.{lifecycle-Forwarding}
use coakka_runtime_swift.Bridge.Inspect.Forwarded.{inspect-Forwarding}
use coakka_runtime_swift.Bridge.Client.Forwarded.{client-Forwarding}
use coakka_runtime_swift.Bridge.File.Forwarded.{file-Forwarding}
use coakka_runtime_swift.Bridge.Stream.Forwarded.{stream-Forwarding}
use coakka_runtime_swift.Bridge.Session.{
  Request, lifecycle, inspect, client, file, stream, Answer, serve,
}

-- The status in an answer, where it has one.
abbrev pub answer_status : (q : Request) → Answer q → Option Status
answer_status (lifecycle o) = Lifecycle.Forwarded.status_of o
answer_status (inspect o) = Inspect.Forwarded.status_of o
answer_status (client o) = Client.Forwarded.status_of o
answer_status (file o) = File.Forwarded.status_of o
answer_status (stream o) = Stream.Forwarded.status_of o

-- On a library that an open published for a module with every name of the load order, each function
-- of the bridge returns, and its status is forwarded unchanged. Either it made one call and returns
-- the status that the Core library gave to it, none where that call gives none; or it made no call
-- and left the state as it was, and its status, if it has one, is INVALID_ARG or ERR_SYMBOL.
pub serve-Forwarding :
    (host : Host) (handle : Ptr) (p : ℕ) (w : World) (q : Request)
    → IsOpen host handle p w
    → Complete host handle
    → Forwarding host (answer_status q) (serve host (some p) q) w
unfolding serve
serve-Forwarding host handle p w (lifecycle o) = lifecycle-Forwarding host handle p w o
serve-Forwarding host handle p w (inspect o) = inspect-Forwarding host handle p w o
serve-Forwarding host handle p w (client o) = client-Forwarding host handle p w o
serve-Forwarding host handle p w (file o) = file-Forwarding host handle p w o
serve-Forwarding host handle p w (stream o) = stream-Forwarding host handle p w o
