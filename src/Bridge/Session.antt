-- ===== src/Bridge/Session.antt =====
-- The whole use of a runtime library: an open, any calls of the bridge in any order, a close.
pub mod Restores
pub mod Lifetime
pub mod Absent
pub mod Statuses
pub mod Records
use coakka_runtime_swift.Prelude.{ℕ, String, Option, none, some, List, [], ◌∷◌, if◌then◌else◌}
use coakka_runtime_swift.Status.{Status}
use coakka_runtime_swift.Core.Records.{Ptr}
use coakka_runtime_swift.Machine.Heap.{Host}
use coakka_runtime_swift.Machine.Effects.{M, pure, ◌>>=◌, ◌>>◌}
use coakka_runtime_swift.Loader.Library.{Buffer, is_ok, library_open, library_close}
use coakka_runtime_swift.Bridge.Lifecycle
use coakka_runtime_swift.Bridge.Inspect
use coakka_runtime_swift.Bridge.Client
use coakka_runtime_swift.Bridge.File
use coakka_runtime_swift.Bridge.Stream

-- A call of one function of the bridge.
pub data Request : Type 0 where
  lifecycle : Lifecycle.Ops.Op → Request
  inspect : Inspect.Ops.Op → Request
  client : Client.Ops.Op → Request
  file : File.Ops.Op → Request
  stream : Stream.Ops.Op → Request

abbrev pub Answer : Request → Type 0
Answer (lifecycle o) = Lifecycle.Ops.Result o
Answer (inspect o) = Inspect.Ops.Result o
Answer (client o) = Client.Ops.Result o
Answer (file o) = File.Ops.Result o
Answer (stream o) = Stream.Ops.Result o

unfoldable pub serve : Host → Ptr → (q : Request) → M (Answer q)
serve host library (lifecycle o) = Lifecycle.Ops.run host library o
serve host library (inspect o) = Inspect.Ops.run host library o
serve host library (client o) = Client.Ops.run host library o
serve host library (file o) = File.Ops.run host library o
serve host library (stream o) = Stream.Ops.run host library o

unfoldable pub session : Host → Ptr → List Request → M (Unit {0})
session host library [] = pure tt
session host library (q ∷ qs) = do _ ← serve host library q; session host library qs

-- *out_library
abbrev pub library_at : Option Ptr → Ptr
library_at none = none
library_at (some p) = p

-- A client that opens a library, makes its calls if that succeeds, and closes what it opened.
unfoldable pub lifetime : Host → String → Buffer → ℕ → List Request → M Status
unfolding session
lifetime host path buf len qs = do
  r ← library_open host (some path) (some none) buf len
  if is_ok r.status
      then (do
        session host (library_at r.out_library) qs
        library_close (library_at r.out_library)
        pure r.status)
      else pure r.status
