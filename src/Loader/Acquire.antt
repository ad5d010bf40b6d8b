-- ===== src/Loader/Acquire.antt =====
-- platform_library_open of coakka_runtime_bridge.c: what a load of a module does to the state.
use coakka_runtime_swift.Prelude.{
  ℕ, suc, ◌≤◌, String, List, ◌∷◌, Option, none, some, ◌≡◌, refl, ap, ◌∙◌, Bool-cases, Option-cases,
  inl, inr, arith, leb,
}
use coakka_runtime_swift.Core.Records.{Ptr}
use coakka_runtime_swift.Machine.Heap.{World, Host, Block, wide_path, update}
use coakka_runtime_swift.Machine.Effects.{returns, calloc, load_module, free}
use coakka_runtime_swift.Machine.Reasoning.{free-ok, update-update, update_self, update_at}
use coakka_runtime_swift.Loader.Platform.{platform_library_open, load_wide}

-- The allocator's addresses from `next` on are free.
pub record IsFresh (w : World) : Type 0 where
  pub fresh : (q : ℕ) → w.next ≤ q → w.heap q ≡ none

abbrev pub held : Ptr → List ℕ → List ℕ
held none ms = ms
held (some h) ms = h ∷ ms

pub record Acquired (w : World) (handle : Ptr) (w' : World) : Type 0 where
  pub heap_kept : w'.heap ≡ w.heap
  pub next_grows : w.next ≤ w'.next
  pub modules_held : w'.modules ≡ held handle w.modules
  pub log_kept : w'.log ≡ w.log

abbrev pub Acquires : Host → String → World → Type 0
Acquires host path w =
    (handle : Ptr) × (w' : World) × (platform_library_open host path w ≡ returns handle w')
    × Acquired w handle w'

-- A block that was allocated and freed again leaves the heap as it was.
pub transient :
    (w : World) (b : Block)
    → IsFresh w
    → update (update w.heap w.next (some b)) w.next none ≡ w.heap
transient w b wf =
    update-update w.heap w.next (some b) none
    ∙ update_self w.heap w.next none (wf.fresh w.next (omega arith))

module _ (host : Host) (path : String) where
  load_module-Acquired :
      (w : World)
      → (handle : Ptr) × (w' : World) × (load_module host path w ≡ returns handle w')
        × Acquired w handle w'
  unfolding load_module
  load_module-Acquired w = elim (Option-cases (host.load_module path w)) [
    | inl e ↦ (none, w, ground arith, ground arith)
    | inr (h, e) ↦ (some h, record w { modules = h ∷ w.modules }, ground arith, ground arith)
  ]

  module _ (w : World) (b : Block) (wf : IsFresh w) where
    abbrev allocated : World
    allocated = record w { heap = update w.heap w.next (some b); next = suc w.next }

    freed :
        (w' : World)
        → w'.heap ≡ allocated.heap
        → free w.next w' ≡ returns tt (record w' { heap = w.heap })
    freed w' e = free-ok w.next b w' (rw e (update_at w.heap w.next (some b))) ∙ (λ i.
        returns tt (record w' {
          heap = (ap (λ (h : ℕ → Option Block). update h w.next none) e ∙ transient w b wf) i;
        }))

    load_wide-Acquired :
        (handle : Ptr) × (w' : World) × (load_wide host path (some w.next) allocated
          ≡ returns handle w')
        × Acquired w handle w'
    unfolding load_wide
    load_wide-Acquired = elim (Bool-cases (host.widen path)) [
      | inl good ↦
          let (handle, w', e, a) = load_module-Acquired allocated in
          (
            handle,
            record w' { heap = w.heap },
            rw good (rw e (rw (freed w' a.heap_kept))),
            record {
              heap_kept = refl;
              next_grows = omega (arith, a.next_grows);
              modules_held = a.modules_held;
              log_kept = a.log_kept;
            },
          )
      | inr bad ↦ (
        none,
        record allocated { heap = w.heap },
        rw bad (rw (freed allocated refl)),
        ground arith,
      )
    ]

  -- From a fresh state, loading a module returns on every branch of both platforms, the Windows copy
  -- of the path included. The heap and the calls are as before; a handle that is returned is held
  -- once more, and no handle is held where NULL is returned.
  pub platform_library_open-Acquired : (w : World) → IsFresh w → Acquires host path w
  unfolding platform_library_open calloc
  platform_library_open-Acquired w wf = elim (Bool-cases host.is_windows) [
    | inr posix ↦ simp posix (load_module-Acquired w)
    | inl windows ↦ elim (Bool-cases (leb (host.wide_length path) 0)) [
      | inl invalid ↦ (none, w, simp windows (rw invalid), ground arith)
      | inr valid ↦ elim (Bool-cases (host.memory w)) [
        | inl memory ↦
            let (handle, w', e, a) = load_wide-Acquired w (wide_path (host.wide_length path)) wf in
            (handle, w', simp windows (rw valid (rw memory e)), a)
        | inr full ↦ (none, w, simp windows (rw valid (rw full)), ground arith)
      ]
    ]
  ]
