-- ===== src/Bridge/Clients/Released.antt =====
-- A client that has closed all its libraries.
use coakka_runtime_swift.Prelude.{ℕ, none, List, [], ◌∷◌, ◌≡◌, refl, ◌∙◌, sym, ap, arith}
use coakka_runtime_swift.Machine.Heap.{World, Host}
use coakka_runtime_swift.Machine.Effects.{Outcome, returns, fault}
use coakka_runtime_swift.Bridge.Clients.{Command, run_all}
use coakka_runtime_swift.Bridge.Clients.Picked.{Owned, addresses, count, one_if_self}
use coakka_runtime_swift.Bridge.Clients.Held.{Holds}
use coakka_runtime_swift.Bridge.Clients.Steps.{run_all-Holds}

abbrev pub world_of : World → Outcome (List ℕ) → World
world_of w (returns a v) = v
world_of w fault = w

all_released : (ms : List ℕ) → ((h : ℕ) → count h ms ≡ 0) → ms ≡ []
all_released [] none_held = refl
all_released (m ∷ ms) none_held = absurd (omega (arith, none_held m, one_if_self m))

returned :
    (host : Host) (hs : List Owned) (w w' : World)
    → returns (addresses hs) w ≡ returns [] w'
    → Holds host w hs
    → ((q : ℕ) → w'.heap q ≡ none) × (w'.modules ≡ [])
returned host [] w w' e holds = (
  λ q. ap (λ o. (world_of w o).heap q) (sym e) ∙ holds.exact q refl,
  ap (λ o. (world_of w o).modules) (sym e) ∙ all_released w.modules holds.held,
)
returned host (g ∷ hs) w w' e holds = absurd (cc)

-- If the client of such a run holds no library at its end, then the heap is empty and no loader
-- handle is held.
pub run_all-returned :
    (host : Host) (cs : List Command) (gs : List Owned) (w w' : World)
    → Holds host w gs
    → run_all host cs (addresses gs) w ≡ returns [] w'
    → ((q : ℕ) → w'.heap q ≡ none) × (w'.modules ≡ [])
run_all-returned host cs gs w w' holds e =
    let (hs, w₁, f, holds₁) = run_all-Holds host cs gs w holds in
    returned host hs w₁ w' (sym f ∙ e) holds₁
