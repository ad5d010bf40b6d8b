-- ===== src/Loader/Opening/Decided.antt =====
-- Which result coakka_swift_runtime_library_open has once the module is loaded.
use coakka_runtime_swift.Prelude.{ℕ, String, true, Option, none, some, ◌≡◌, refl, arith}
use coakka_runtime_swift.Core.Records.{Ptr}
use coakka_runtime_swift.Core.Slot.{Slot, load_order}
use coakka_runtime_swift.Machine.Heap.{World, Host}
use coakka_runtime_swift.Machine.Effects.{returns, calloc}
use coakka_runtime_swift.Loader.Platform.{platform_library_open}
use coakka_runtime_swift.Loader.Library.{Buffer, Opened, open_allocated, library_open}
use coakka_runtime_swift.Loader.Symbols.{first_missing}
use coakka_runtime_swift.Loader.Acquire.{IsFresh, Acquired, platform_library_open-Acquired}
use coakka_runtime_swift.Loader.Opening.{
  allocated, allocated-IsFresh, stored_lem, symbol_failure, opened, loaded_result, open_with_handle,
}

module _ (host : Host) (path : String) (buf : Buffer) (len : ℕ) (w : World) (wf : IsFresh w) where
  -- The result once a module is loaded: decided by the first missing symbol.
  abbrev pub decided : Option Slot → Opened
  decided none = opened host path buf len w wf
  decided (some s) = symbol_failure host path buf len w wf s

  decided_lem :
      (h : ℕ) (w₂ : World) (o : Option Slot)
      → (w' : World) × (loaded_result host path buf len w wf h w₂ o ≡ returns (decided o) w')
  decided_lem h w₂ none = (_, refl)
  decided_lem h w₂ (some s) = (_, refl)

  Acquired-decided :
      (h : ℕ) (handle : Ptr) (w₂ : World)
      → handle ≡ some h
      → Acquired (allocated w) handle w₂
      → platform_library_open host path (allocated w) ≡ returns handle w₂
      → (w' : World) × (open_allocated host path (some w.next) buf len (allocated w)
          ≡ returns (decided (first_missing host (some h) load_order)) w')
  Acquired-decided h none w₂ p a e = absurd (cc)
  Acquired-decided h (some k) w₂ p a e = rw (stored_lem host path buf len w wf (some k) w₂ a e) (
      rw (open_with_handle host path buf len w wf w₂ k a)
        (rw (← p) (decided_lem k w₂ (first_missing host (some k) load_order))))

  -- Once the allocation and the load of the module succeed, the first symbol of the load order that
  -- the module lacks decides the whole result: without one it is OK with the library's address and
  -- an untouched buffer, with one it is ERR_SYMBOL, a NULL library and the message that names it.
  pub library_open-decided :
      (out : Ptr) (h : ℕ) (w₂ : World)
      → host.memory w ≡ true
      → platform_library_open host path (allocated w) ≡ returns (some h) w₂
      → (w' : World) × (library_open host (some path) (some out) buf len w
          ≡ returns (decided (first_missing host (some h) load_order)) w')
  unfolding library_open calloc
  library_open-decided out h w₂ memory e =
      let (handle, w₃, e', a) =
        platform_library_open-Acquired host path (allocated w) (allocated-IsFresh w wf) in
      rw memory (Acquired-decided h handle w₃ (ground (arith, e, e')) a e')
