-- ===== src/Bridge/Clients.antt =====
-- Clients with several libraries at once: opens, calls and closes in any order.
pub mod Picked
pub mod Held
pub mod Steps
pub mod Released
use coakka_runtime_swift.Prelude.{ℕ, zero, suc, String, Option, none, some, List, [], ◌∷◌}
use coakka_runtime_swift.Core.Records.{Ptr}
use coakka_runtime_swift.Machine.Heap.{Host}
use coakka_runtime_swift.Machine.Effects.{M, pure, ◌>>=◌, ◌>>◌}
use coakka_runtime_swift.Loader.Library.{Buffer, Opened, library_open, library_close}
use coakka_runtime_swift.Bridge.Session.{Request, serve, library_at}

-- What a client does next; a library is named by its place among those it holds, the last opened
-- first, and NULL is used for a place beyond them.
pub data Command : Type 0 where
  open_library : String → Buffer → ℕ → Command
  request : ℕ → Request → Command
  close_library : ℕ → Command

abbrev pub nth : ℕ → List ℕ → Ptr
nth i [] = none
nth zero (p ∷ ps) = some p
nth (suc i) (p ∷ ps) = nth i ps

abbrev pub remove : ℕ → List ℕ → List ℕ
remove i [] = []
remove zero (p ∷ ps) = ps
remove (suc i) (p ∷ ps) = p ∷ remove i ps

-- The libraries held after an open.
abbrev pub keep : Ptr → List ℕ → List ℕ
keep none ps = ps
keep (some p) ps = p ∷ ps

-- One command by a client that holds the libraries at these addresses.
unfoldable pub step : Host → Command → List ℕ → M (List ℕ)
step host (open_library path buf len) ps = do
  r ← library_open host (some path) (some none) buf len
  pure (keep (library_at r.out_library) ps)
step host (request i q) ps = do _ ← serve host (nth i ps) q; pure ps
step host (close_library i) ps = do library_close (nth i ps); pure (remove i ps)

unfoldable pub run_all : Host → List Command → List ℕ → M (List ℕ)
unfolding step
run_all host [] ps = pure ps
run_all host (c ∷ cs) ps = do qs ← step host c ps; run_all host cs qs
