-- ===== src/Loader/Opening/Contract.antt =====
-- The contract of coakka_swift_runtime_library_open.
use coakka_runtime_swift.Prelude.{
  ℕ, String, List, [], ◌∷◌, Option, none, some, ◌≡◌, ◌≢◌, refl, ◌⊎◌, inl, inr, Bool-cases,
  Option-cases, arith, AllOf,
}
use coakka_runtime_swift.Status.{ok, invalid_arg}
use coakka_runtime_swift.Core.Records.{Ptr}
use coakka_runtime_swift.Core.Slot.{Slot, symbol_name, load_order}
use coakka_runtime_swift.Machine.Heap.{World, Host, library, update}
use coakka_runtime_swift.Machine.Effects.{returns, Outcome, calloc}
use coakka_runtime_swift.Loader.Platform.{platform_library_open}
use coakka_runtime_swift.Loader.Library.{Buffer, Opened, open_allocated, library_open}
use coakka_runtime_swift.Loader.Symbols.{bound, first_missing}
use coakka_runtime_swift.Loader.Acquire.{IsFresh, Acquired, platform_library_open-Acquired}
use coakka_runtime_swift.Loader.Opening.{
  allocated, allocated-IsFresh, stored_lem, loaded_result, open_without_handle, open_with_handle,
}

module _ (host : Host) where
  abbrev Found : Ptr → Slot → Type 0
  Found handle s = host.find_symbol handle (symbol_name s) ≢ none

  all-Found :
      (handle : Ptr) (ss : List Slot)
      → first_missing host handle ss ≡ none
      → AllOf (Found handle) ss
  unfolding first_missing
  all-Found handle [] e = tt
  all-Found handle (s ∷ ss) e = elim (Option-cases (host.find_symbol handle (symbol_name s))) [
    | inl missing ↦ ground arith
    | inr (a, found) ↦ (ground arith, all-Found handle ss (ground arith))
  ]

  each-Found : (handle : Ptr) → AllOf (Found handle) load_order → (s : Slot) → Found handle s
  unfolding load_order
  each-Found handle all Slot.create_native = assumption
  each-Found handle all _ = assumption

  -- One new heap block, a complete library; one handle more; every slot bound to its own symbol.
  pub record Success (w : World) (r : Opened) (w' : World) : Type 0 where
    pub at : ℕ
    pub handle : ℕ
    pub status_ok : r.status ≡ ok
    pub published : r.out_library ≡ some (some at)
    pub was_free : w.heap at ≡ none
    pub heap_after : w'.heap ≡ update w.heap at (some (library (bound host (some handle))))
    pub modules_after : w'.modules ≡ handle ∷ w.modules
    pub log_kept : w'.log ≡ w.log
    pub fresh_after : IsFresh w'
    pub resolved : (s : Slot) → host.find_symbol (some handle) (symbol_name s) ≢ none

  -- The heap, the handles and the calls are as before, and no library is published.
  pub record Failure (w : World) (out : Option Ptr) (r : Opened) (w' : World) : Type 0 where
    pub status_failed : r.status ≢ ok
    pub heap_kept : w'.heap ≡ w.heap
    pub modules_kept : w'.modules ≡ w.modules
    pub log_kept : w'.log ≡ w.log
    pub fresh_after : IsFresh w'
    pub unpublished :
        ((r.status ≡ invalid_arg) × (r.out_library ≡ out)) ⊎ (r.out_library ≡ some none)

  abbrev pub Contract : World → Option Ptr → Outcome Opened → Type 0
  Contract w out o =
      (r : Opened) × (w' : World) × (o ≡ returns r w') × (Success w r w' ⊎ Failure w out r w')

  module _ (w : World) (out : Option Ptr) (path : String) (buf : Buffer) (len : ℕ)
      (wf : IsFresh w) where
    loaded_result-Contract :
        (h : ℕ) (w₂ : World) (a : Acquired (allocated w) (some h) w₂) (o : Option Slot)
        → first_missing host (some h) load_order ≡ o
        → Contract w out (loaded_result host path buf len w wf h w₂ o)
    loaded_result-Contract h w₂ a none e = (
      _,
      _,
      refl,
      inl (record {
        at = w.next;
        handle = h;
        status_ok = refl;
        published = refl;
        was_free = wf.fresh w.next (omega arith);
        heap_after = refl;
        modules_after = a.modules_held;
        log_kept = a.log_kept;
        fresh_after = record { fresh = λ q h. ground (arith, wf.fresh q, a.next_grows) };
        resolved = each-Found (some h) (all-Found (some h) load_order e);
      }),
    )
    loaded_result-Contract h w₂ a (some s) e = (
      _,
      _,
      refl,
      inr (record {
        status_failed = λ p. cc;
        heap_kept = refl;
        modules_kept = refl;
        log_kept = a.log_kept;
        fresh_after = record { fresh = λ q h. wf.fresh q (omega (arith, a.next_grows, h)) };
        unpublished = inr refl;
      }),
    )

    Acquired-Contract :
        (handle : Ptr) (w₂ : World)
        → Acquired (allocated w) handle w₂
        → platform_library_open host path (allocated w) ≡ returns handle w₂
        → Contract w out (open_allocated host path (some w.next) buf len (allocated w))
    Acquired-Contract none w₂ a e = rw (stored_lem host path buf len w wf none w₂ a e) (
        rw (open_without_handle host path buf len w wf w₂ a) (
          _,
          _,
          refl,
          inr (record {
            status_failed = λ p. cc;
            heap_kept = refl;
            modules_kept = a.modules_held;
            log_kept = a.log_kept;
            fresh_after = record { fresh = λ q h. wf.fresh q (omega (arith, a.next_grows, h)) };
            unpublished = inr refl;
          }),
        ))
    Acquired-Contract (some h) w₂ a e = rw (stored_lem host path buf len w wf (some h) w₂ a e) (
        rw (open_with_handle host path buf len w wf w₂ h a)
          (loaded_result-Contract h w₂ a (first_missing host (some h) load_order) refl))

    rejected-Contract :
        (r : Opened)
        → r.status ≢ ok
        → ((r.status ≡ invalid_arg) × (r.out_library ≡ out)) ⊎ (r.out_library ≡ some none)
        → Contract w out (returns r w)
    rejected-Contract r failed unpublished = (
      r,
      w,
      refl,
      inr (record {
        status_failed = failed;
        heap_kept = refl;
        modules_kept = refl;
        log_kept = refl;
        fresh_after = wf;
        unpublished = unpublished;
      }),
    )

  -- The open returns on every input whose allocator state is fresh, and it is all or nothing. Either
  -- its status is OK: then one block that was free holds a library whose every slot is bound to the
  -- symbol it is declared for, none of them null, its address is what *out_library holds, and one
  -- loader handle more is held. Or its status is not OK: then heap and handles are as before, and
  -- *out_library is NULL, or untouched where the status is INVALID_ARG. The allocator state is fresh
  -- again, and no Core function is called.
  pub library_open-Contract :
      (path : Option String) (out : Option Ptr) (buf : Buffer) (len : ℕ) (w : World)
      → IsFresh w
      → Contract w out (library_open host path out buf len w)
  unfolding library_open calloc
  library_open-Contract (some path) (some o) buf len w wf = elim (Bool-cases (host.memory w)) [
    | inr full ↦ rw full (rejected-Contract w (some o) path buf len wf _ (λ p. cc) (inr refl))
    | inl memory ↦
        let (handle, w₂, e, a) =
          platform_library_open-Acquired host path (allocated w) (allocated-IsFresh w wf) in
        rw memory (Acquired-Contract w (some o) path buf len wf handle w₂ a e)
  ]
  library_open-Contract none out buf len w wf =
      rejected-Contract w out "" buf len wf _ (λ p. cc) (inl (refl, refl))
  library_open-Contract (some path) none buf len w wf =
      rejected-Contract w none path buf len wf _ (λ p. cc) (inl (refl, refl))
