-- ===== src/Machine/Reasoning.antt =====
-- How the actions run on a state that is known: rewriting rules for the proofs of the other modules.
use coakka_runtime_swift.Prelude.{
  ℕ, Option, none, some, List, ◌∷◌, ◌≡◌, fun_ext, arith, ==_iff, ==_refl,
}
use coakka_runtime_swift.Machine.Heap.{World, Library, Block, library, update}
use coakka_runtime_swift.Machine.Effects.{returns, release, load, store, free, unload}

pub update-update :
    (heap : ℕ → Option Block) (p : ℕ) (a b : Option Block)
    → update (update heap p a) p b ≡ update heap p b
update-update heap p a b = fun_ext λ q. ground arith

pub update_self :
    (heap : ℕ → Option Block) (p : ℕ) (b : Option Block) → heap p ≡ b → update heap p b ≡ heap
update_self heap p b h = fun_ext λ q. ground (arith, ==_iff p q)

pub update_at : (heap : ℕ → Option Block) (p : ℕ) (b : Option Block) → update heap p b p ≡ b
update_at heap p b = rw ==_refl

pub load-ok :
    (p : ℕ) (l : Library) (w : World) → w.heap p ≡ some (library l) → load p w ≡ returns l w
unfolding load
load-ok p l w h = rw (h, load)

pub store-ok :
    (p : ℕ) (l l' : Library) (w : World)
    → w.heap p ≡ some (library l)
    → store p l' w ≡ returns tt (record w { heap = update w.heap p (some (library l')) })
unfolding store load
store-ok p l l' w h = rw (h, load)

pub free-ok :
    (p : ℕ) (b : Block) (w : World)
    → w.heap p ≡ some b
    → free p w ≡ returns tt (record w { heap = update w.heap p none })
unfolding free
free-ok p b w h = rw (h, free)

pub unload-ok :
    (h : ℕ) (ms : List ℕ) (w : World)
    → w.modules ≡ h ∷ ms
    → unload h w ≡ returns tt (record w { modules = ms })
unfolding unload release
unload-ok h ms w e = ground (arith, ==_refl h)

pub unload-release :
    (h : ℕ) (ms : List ℕ) (w : World)
    → release h w.modules ≡ some ms
    → unload h w ≡ returns tt (record w { modules = ms })
unfolding unload
unload-release h ms w e = rw (e, unload)
