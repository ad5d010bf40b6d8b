-- ===== src/Bridge/Session/Records.antt =====
-- The records that reach the Core library, for all functions of the bridge.
use coakka_runtime_swift.Prelude.{ℕ, some}
use coakka_runtime_swift.Core.Records.{Ptr}
use coakka_runtime_swift.Machine.Heap.{World, Host}
use coakka_runtime_swift.Bridge.Spec.{IsOpen}
use coakka_runtime_swift.Bridge.Safety.{Complete}
use coakka_runtime_swift.Bridge.Prepared.{Preparing}
use coakka_runtime_swift.Bridge.Lifecycle.Prepared.{lifecycle-Preparing}
use coakka_runtime_swift.Bridge.Inspect.Prepared.{inspect-Preparing}
use coakka_runtime_swift.Bridge.Client.Prepared.{client-Preparing}
use coakka_runtime_swift.Bridge.File.Prepared.{file-Preparing}
use coakka_runtime_swift.Bridge.Stream.Prepared.{stream-Preparing}
use coakka_runtime_swift.Bridge.Session.{Request, lifecycle, inspect, client, file, stream, serve}

-- On a library that an open published for a module with every name of the load order, each function
-- of the bridge returns, with at most one call. In that call, each record that the bridge declares
-- itself carries the size of its type in struct_size, the records for the information and the
-- configuration are zero but for it, the reserved members of the network options are 0, and the
-- descriptors of the host handles are -1. Each output record of the caller that the bridge clears is
-- zero but for its size, or NULL where the caller gave NULL; a ticket starts as NULL. The records of
-- the caller that the bridge passes on untouched (its options, specifications and the results of the
-- two apply functions, the startup and the delivery configuration) are not restricted.
pub serve-Preparing :
    (host : Host) (handle : Ptr) (p : ℕ) (w : World) (q : Request)
    → IsOpen host handle p w
    → Complete host handle
    → Preparing (serve host (some p) q) w
unfolding serve
serve-Preparing host handle p w (lifecycle o) = lifecycle-Preparing host handle p w o
serve-Preparing host handle p w (inspect o) = inspect-Preparing host handle p w o
serve-Preparing host handle p w (client o) = client-Preparing host handle p w o
serve-Preparing host handle p w (file o) = file-Preparing host handle p w o
serve-Preparing host handle p w (stream o) = stream-Preparing host handle p w o
