-- ===== src/Bridge/Clients/Held.antt =====
-- The invariant of a client with several libraries, and the close of one of them.
use coakka_runtime_swift.Prelude.{
  ℕ, ◌+◌, ◌≤◌, Option, none, some, List, [], ◌∷◌, ◌≡◌, refl, ◌∙◌, ap, AllOf, Bool-cases, inl, inr,
  ◌==◌, ==_iff, arith,
}
use coakka_runtime_swift.Machine.Heap.{World, Host, Block, library, update}
use coakka_runtime_swift.Machine.Effects.{returns, release}
use coakka_runtime_swift.Machine.Reasoning.{load-ok, free-ok, unload-release}
use coakka_runtime_swift.Loader.Acquire.{IsFresh}
use coakka_runtime_swift.Loader.Platform.{platform_library_close}
use coakka_runtime_swift.Loader.Library.{library_close}
use coakka_runtime_swift.Loader.Symbols.{bound}
use coakka_runtime_swift.Bridge.Spec.{IsOpen}
use coakka_runtime_swift.Bridge.Safety.{Complete}
use coakka_runtime_swift.Bridge.Clients.Picked.{
  Owned, addresses, handles, count, one_if, one_if_self, one_if-other, Picked, release-count,
}

-- A library that is held is open, and its module has every name of the load order.
abbrev pub IsLive : Host → World → Owned → Type 0
IsLive host w g = IsOpen host (some g.handle) g.address w × Complete host (some g.handle)

-- The heap holds the libraries and nothing else, each at its own address, and the loader handles
-- held are theirs.
pub record Holds (host : Host) (w : World) (gs : List Owned) : Type 0 where
  pub fresh : IsFresh w
  pub live : AllOf (IsLive host w) gs
  pub distinct : (q : ℕ) → count q (addresses gs) ≤ 1
  pub exact : (q : ℕ) → count q (addresses gs) ≡ 0 → w.heap q ≡ none
  pub held : (h : ℕ) → count h w.modules ≡ count h (handles gs)

update_other :
    (heap : ℕ → Option Block) (p q : ℕ) (b : Option Block)
    → one_if q p ≡ 0
    → update heap p b q ≡ heap q
update_other heap p q b apart = ground (arith, ==_iff p q, ==_iff q p, apart)

-- A change of the heap at an address that is not among theirs leaves the libraries open.
pub IsLive-after :
    (host : Host) (w w' : World) (p : ℕ) (b : Option Block) (gs : List Owned)
    → w'.heap ≡ update w.heap p b
    → count p (addresses gs) ≡ 0
    → AllOf (IsLive host w) gs
    → AllOf (IsLive host w') gs
IsLive-after host w w' p b [] e apart live = tt
IsLive-after host w w' p b (g ∷ gs) e apart live = (
  (
    ap (λ heap. heap g.address) e
        ∙ (update_other w.heap p g.address b (omega (arith, apart)) ∙ live.0.0),
    live.0.1,
  ),
  IsLive-after host w w' p b gs e (omega (arith, apart)) live.1,
)

IsLive-same :
    (host : Host) (w w' : World) (gs : List Owned)
    → w'.heap ≡ w.heap
    → AllOf (IsLive host w) gs
    → AllOf (IsLive host w') gs
IsLive-same host w w' [] e live = tt
IsLive-same host w w' (g ∷ gs) e live =
    ((ap (λ heap. heap g.address) e ∙ live.0.0, live.0.1), IsLive-same host w w' gs e live.1)

-- A state with the same heap and handles.
pub same-Holds :
    (host : Host) (w w' : World) (gs : List Owned)
    → Holds host w gs
    → IsFresh w'
    → w'.heap ≡ w.heap
    → w'.modules ≡ w.modules
    → Holds host w' gs
same-Holds host w w' gs holds fresh e m = record {
  fresh = fresh;
  live = IsLive-same host w w' gs e holds.live;
  distinct = holds.distinct;
  exact = λ q h. ap (λ heap. heap q) e ∙ holds.exact q h;
  held = λ h. ap (λ ms. count h ms) m ∙ holds.held h;
}

module _ (host : Host) (w : World) (gs rest : List Owned) (g : Owned) (holds : Holds host w gs)
    (picked : Picked g rest gs) where
  open_g : IsLive host w g
  open_g = (picked.all (IsLive host w) holds.live).0

  abbrev freed : List ℕ → World
  freed ms = record w { heap = update w.heap g.address none; modules = ms }

  close_held :
      (ms : List ℕ)
      → release g.handle w.modules ≡ some ms
      → library_close (some g.address) w ≡ returns tt (freed ms)
  unfolding library_close platform_library_close
  close_held ms e = rw (load-ok g.address (bound host (some g.handle)) w open_g.0) (
      rw (unload-release g.handle ms w e) (
        free-ok g.address (library (bound host (some g.handle))) (record w { modules = ms })
          open_g.0))

  apart : count g.address (addresses rest) ≡ 0
  apart =
      omega (arith, holds.distinct g.address, picked.address_count g.address, one_if_self g.address)

  freed-Holds :
      (ms : List ℕ)
      → ((k : ℕ) → count k w.modules ≡ one_if g.handle k + count k ms)
      → Holds host (freed ms) rest
  freed-Holds ms c = record {
    fresh = record { fresh = λ q h. ground (arith, holds.fresh.fresh q h) };
    live =
        IsLive-after host w (freed ms) g.address none rest refl apart
          (picked.all (IsLive host w) holds.live).1;
    distinct = λ q. omega (arith, holds.distinct q, picked.address_count q);
    exact = λ q h. elim (Bool-cases (g.address == q)) [
      | inl same ↦ rw same refl
      | inr other ↦
          rw other (
            holds.exact q
              (omega (arith, h, picked.address_count q, one_if-other g.address q other)))
    ];
    held = λ h. omega (arith, holds.held h, picked.handle_count h, c h);
  }

  pub close-Holds :
      (w' : World) × (library_close (some g.address) w ≡ returns tt w') × Holds host w' rest
  close-Holds =
      let (ms, e, c) = release-count g.handle w.modules (λ z.
        omega
          (arith, z, holds.held g.handle, picked.handle_count g.handle, one_if_self g.handle)) in
      (freed ms, close_held ms e, freed-Holds ms c)
