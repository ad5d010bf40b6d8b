-- ===== src/Bridge/Clients/Steps.antt =====
-- Any order of opens, calls and closes.
use coakka_runtime_swift.Prelude.{
  ℕ, String, Option, none, some, List, [], ◌∷◌, ◌≡◌, refl, ◌∙◌, ap, AllOf, ◌==◌, ==_iff, ◌⊎◌, inl,
  inr, Bool-cases, arith,
}
use coakka_runtime_swift.Status.{invalid_arg}
use coakka_runtime_swift.Core.Records.{Ptr}
use coakka_runtime_swift.Machine.Heap.{World, Host, Block, library}
use coakka_runtime_swift.Machine.Effects.{returns}
use coakka_runtime_swift.Machine.Reasoning.{update_at}
use coakka_runtime_swift.Loader.Library.{Buffer, Opened, library_close}
use coakka_runtime_swift.Loader.Symbols.{bound}
use coakka_runtime_swift.Loader.Opening.Contract.{Success, Failure, library_open-Contract}
use coakka_runtime_swift.Bridge.Safety.{Quiet}
use coakka_runtime_swift.Bridge.Session.{Request, library_at}
use coakka_runtime_swift.Bridge.Session.Restores.{serve-Safe}
use coakka_runtime_swift.Bridge.Session.Absent.{serve-absent}
use coakka_runtime_swift.Bridge.Clients.{
  Command, open_library, request, close_library, keep, step, run_all,
}
use coakka_runtime_swift.Bridge.Clients.Picked.{
  Owned, addresses, count, one_if-same, one_if-other, pick,
}
use coakka_runtime_swift.Bridge.Clients.Held.{Holds, same-Holds, IsLive, IsLive-after, close-Holds}

module _ (host : Host) where
  -- The command returns, and the client then holds libraries that it may use.
  abbrev Steps : Command → List Owned → World → Type 0
  Steps c gs w =
      (hs : List Owned) × (w' : World) × (step host c (addresses gs) w ≡ returns (addresses hs) w')
      × Holds host w' hs

  clash :
      (heap : ℕ → Option Block) {p q : ℕ} {b : Block} → heap p ≡ some b → heap q ≡ none → p ≡ q → ⊥
  clash heap a e pq = cc

  absent_count :
      (w : World) (gs : List Owned) (q : ℕ)
      → AllOf (IsLive host w) gs
      → w.heap q ≡ none
      → count q (addresses gs) ≡ 0
  absent_count w [] q live e = refl
  absent_count w (g ∷ gs) q live e = elim (Bool-cases (g.address == q)) [
    | inl same ↦ absurd (clash w.heap live.0.0 e ((==_iff g.address q).0 same))
    | inr other ↦ omega (arith, one_if-other g.address q other, absent_count w gs q live.1 e)
  ]

  opened-Holds :
      (gs : List Owned) (w : World) (holds : Holds host w gs) (r : Opened) (w' : World)
      (s : Success host w r w')
      → Holds host w' (record { address = s.at; handle = s.handle } ∷ gs)
  opened-Holds gs w holds r w' s = record {
    fresh = s.fresh_after;
    live = (
      (
        ap (λ h. h s.at) s.heap_after
            ∙ update_at w.heap s.at (some (library (bound host (some s.handle)))),
        s.resolved,
      ),
      IsLive-after host w w' s.at (some (library (bound host (some s.handle)))) gs s.heap_after
          (absent_count w gs s.at holds.live s.was_free) holds.live,
    );
    distinct = λ q. elim (Bool-cases (s.at == q)) [
      | inl same ↦ omega (
        arith,
        one_if-same s.at q same,
        absent_count w gs q holds.live (rw (← (==_iff s.at q).0 same) s.was_free),
      )
      | inr other ↦ omega (arith, one_if-other s.at q other, holds.distinct q)
    ];
    exact = λ q h. elim (Bool-cases (s.at == q)) [
      | inl same ↦ absurd (omega (arith, one_if-same s.at q same, h))
      | inr other ↦
          ap (λ f. f q) s.heap_after
          ∙ rw other (holds.exact q (omega (arith, h, one_if-other s.at q other)))
    ];
    held = λ h. omega (arith, ap (λ ms. count h ms) s.modules_after, holds.held h);
  }

  failed-Holds :
      (gs : List Owned) (w : World) (holds : Holds host w gs) (r : Opened) (w' : World)
      → Failure host w (some none) r w'
      → Holds host w' gs
  failed-Holds gs w holds r w' f =
      same-Holds host w w' gs holds f.fresh_after f.heap_kept f.modules_kept

  kept-Holds :
      (gs : List Owned) (w w' : World) (handle : Ptr)
      → Holds host w gs
      → Quiet host handle w w'
      → Holds host w' gs
  kept-Holds gs w w' handle holds q =
      same-Holds host w w' gs holds
        (record {
          fresh = λ x h.
              ap (λ f. f x) q.heap_kept ∙ holds.fresh.fresh x (omega (arith, q.next_kept, h));
        })
        q.heap_kept q.modules_kept

  unpublished :
      (r : Opened)
      → ((r.status ≡ invalid_arg) × (r.out_library ≡ some none)) ⊎ (r.out_library ≡ some none)
      → library_at r.out_library ≡ none
  unpublished r (inl x) = ap library_at x.1
  unpublished r (inr x) = ap library_at x

  open-Steps :
      (path : String) (buf : Buffer) (len : ℕ) (gs : List Owned) (w : World)
      → Holds host w gs
      → Steps (open_library path buf len) gs w
  unfolding step
  open-Steps path buf len gs w holds =
      let (r, w', e, c) =
        library_open-Contract host (some path) (some none) buf len w holds.fresh in
      elim c [
        | inl s ↦ (
          record { address = s.at; handle = s.handle } ∷ gs,
          w',
          rw e (λ i. returns (keep (library_at (s.published i)) (addresses gs)) w'),
          opened-Holds gs w holds r w' s,
        )
        | inr f ↦ (
          gs,
          w',
          rw e (λ i. returns (keep (unpublished r f.unpublished i) (addresses gs)) w'),
          failed-Holds gs w holds r w' f,
        )
      ]

  request-Steps :
      (i : ℕ) (q : Request) (gs : List Owned) (w : World)
      → Holds host w gs
      → Steps (request i q) gs w
  unfolding step
  request-Steps i q gs w holds = elim (pick i gs) [
    | inl x ↦ (gs, w, rw (x.0, serve-absent host q w) refl, holds)
    | inr x ↦
        let (g, rest, found, removed, picked) = x in
        let (open_g, complete) = (picked.all (IsLive host w) holds.live).0 in
        let (a, w', e, quiet) = serve-Safe host (some g.handle) g.address complete q w open_g in
        (gs, w', rw (found, e) refl, kept-Holds gs w w' (some g.handle) holds quiet)
  ]

  close-Steps :
      (i : ℕ) (gs : List Owned) (w : World) → Holds host w gs → Steps (close_library i) gs w
  unfolding step library_close
  close-Steps i gs w holds = elim (pick i gs) [
    | inl x ↦ (gs, w, rw (x.0, x.1) refl, holds)
    | inr x ↦
        let (g, rest, found, removed, picked) = x in
        let (w', e, after) = close-Holds host w gs rest g holds picked in
        (rest, w', rw (found, e, removed) refl, after)
  ]

  step-Holds : (c : Command) (gs : List Owned) (w : World) → Holds host w gs → Steps c gs w
  step-Holds (open_library path buf len) = open-Steps path buf len
  step-Holds (request i q) = request-Steps i q
  step-Holds (close_library i) = close-Steps i

  -- A client that holds libraries which no one else holds, in a heap with nothing else, may open
  -- further ones, call the bridge through any of them with any arguments, and close them, in any
  -- order and number, a place beyond those it holds standing for NULL: no fault ever occurs. After
  -- it the heap holds the client's libraries and nothing else, each complete and at its own address,
  -- and the loader handles held are theirs, each as often.
  pub run_all-Holds :
      (cs : List Command) (gs : List Owned) (w : World)
      → Holds host w gs
      → (hs : List Owned) × (w' : World) × (run_all host cs (addresses gs) w
          ≡ returns (addresses hs) w')
        × Holds host w' hs
  unfolding run_all
  run_all-Holds [] gs w holds = (gs, w, refl, holds)
  run_all-Holds (c ∷ cs) gs w holds =
      let (hs, w₁, e, holds₁) = step-Holds c gs w holds in
      let (ks, w₂, f, holds₂) = run_all-Holds cs hs w₁ holds₁ in (ks, w₂, rw e f, holds₂)
