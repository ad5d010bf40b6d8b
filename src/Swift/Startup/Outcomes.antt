-- ===== src/Swift/Startup/Outcomes.antt =====
-- The outcomes of RuntimeHost.start: a session that owns what was acquired, or an error after which
-- all of it is given back.
use coakka_runtime_swift.Prelude.{
  ℕ, Bool, true, false, none, some, List, [], ◌∷◌, ◌++◌, ◌≡◌, refl, inl, inr, Bool-cases,
}
use coakka_runtime_swift.Status.{Status}
use coakka_runtime_swift.Core.Records.{Ptr, HostHandles}
use coakka_runtime_swift.Core.Slot.{Slot}
use coakka_runtime_swift.Core.Call.{Call}
use coakka_runtime_swift.Machine.Heap.{World, Host}
use coakka_runtime_swift.Machine.Effects.{M, pure}
use coakka_runtime_swift.Loader.Library.{is_ok}
use coakka_runtime_swift.Bridge.Spec.{IsOpen}
use coakka_runtime_swift.Bridge.Safety.{Complete}
use coakka_runtime_swift.Bridge.Lifecycle.{empty_handles, init_handles}
use coakka_runtime_swift.Bridge.Lifecycle
use coakka_runtime_swift.Bridge.Client
use coakka_runtime_swift.Swift.Errors.{Result, thrown, RuntimeError}
use coakka_runtime_swift.Swift.Calls.{Runs, Replied, pure-Runs, if-Runs, call_slot-Runs}
use coakka_runtime_swift.Swift.Session.{Session, handles_at}
use coakka_runtime_swift.Swift.Session.Traffic.{released}
use coakka_runtime_swift.Swift.Startup.{
  StartSpec, Acquired, nothing_acquired, finish_reader, with_client, after_start, after_handles,
  after_routes, apply_routes,
}
use coakka_runtime_swift.Swift.Startup.Attempts.{
  any_call, is_get_handles, is_start, is_client_create, is_reader_create, known_as, IsAccounted,
  Attempted, Replied-Runs, step-Runs,
}

module _ (host : Host) (handle : Ptr) (p : ℕ) (complete : Complete host handle) (spec : StartSpec)
    (rt : ℕ) where
  abbrev pub Tries : M (Acquired × Result Session) → World → List Call → Type 0
  Tries m w before = Runs m w (λ r ds. Attempted host (some p) spec rt r (ds ++ before))

  -- What was acquired when the client is about to be looked at, and so on backwards.
  abbrev with_handles : HostHandles → Bool → Ptr → Acquired
  with_handles h started client = record {
    handles = some h;
    started = started;
    client = client;
    reader = none;
  }

  finish_reader-Attempted :
      (h : HostHandles) (c : ℕ) (r : Status × Ptr) (cs : List Call)
      → IsAccounted host spec rt (with_handles h true (some c)) cs
      → released cs ≡ []
      → any_call is_reader_create cs ≡ false
      → Replied host (Call.reader_create (some rt) (some spec.handles_address) (some none)) r
      → Attempted host
          (some p)
          spec
          rt
          (finish_reader (some p) rt c h (with_handles h true (some c)) r.0 r.1)
          (Call.reader_create (some rt) (some spec.handles_address) (some none) ∷ cs)
  unfolding finish_reader released
  finish_reader-Attempted h c (status, none) cs a quiet new replied = (
    record {
      handles = a.handles;
      started = a.started;
      client = a.client;
      reader = inr ((status, none), refl, replied, refl);
    },
    quiet,
    elim (Bool-cases (is_ok status)) [ inl e ↦ rw e tt | inr e ↦ rw e tt ],
  )
  finish_reader-Attempted h c (status, some q) cs a quiet new replied = (
    record {
      handles = a.handles;
      started = a.started;
      client = a.client;
      reader = inr ((status, some q), refl, replied, refl);
    },
    quiet,
    elim (Bool-cases (is_ok status)) [
      | inl e ↦ rw e (c, q, refl, refl, refl, (h, refl, refl))
      | inr e ↦ rw e tt
    ],
  )

  with_client-Tries :
      (h : HostHandles) (client : Ptr) (w : World) (before : List Call)
      → IsOpen host handle p w
      → IsAccounted host spec rt (with_handles h true client) before
      → released before ≡ []
      → any_call is_reader_create before ≡ false
      → Tries (with_client host (some p) spec rt h (with_handles h true none) client) w before
  unfolding with_client Client.reader_create
  with_client-Tries h none w before o a quiet new = pure-Runs _ w (a, quiet, tt)
  with_client-Tries h (some c) w before o a quiet new =
      let call : Call = Call.reader_create (some rt) (some spec.handles_address) (some none) in
      step-Runs host handle p complete call before (Attempted host (some p) spec rt) o
        (Replied-Runs host handle p complete Slot.reader_create call (λ r. (r.0, some r.1)) w o)
        (λ r w' o' (q, replied, e).
          pure-Runs _ w' (rw e (finish_reader-Attempted h c q before a quiet new replied)))

  after_start-Tries :
      (h : HostHandles) (status : Status) (w : World) (before : List Call)
      → IsOpen host handle p w
      → IsAccounted host spec rt (with_handles h (is_ok status) none) before
      → released before ≡ []
      → any_call is_reader_create before ≡ false
      → any_call is_client_create before ≡ false
      → Tries (after_start host (some p) spec rt h (with_handles h false none) status) w before
  unfolding after_start Client.ask_client_create released
  after_start-Tries h status w before o a quiet new new' =
      if-Runs (is_ok status)
        (λ fine.
          let call : Call = Call.ask_client_create (some rt) (some spec.handles_address) in
          step-Runs host handle p complete call before (Attempted host (some p) spec rt) o
            (call_slot-Runs host handle p complete Slot.ask_client_create call w o)
            (λ c w' o' replied.
              with_client-Tries h c w' (call ∷ before) o'
                (record {
                  handles = a.handles;
                  started =
                      known_as host _ false (Call.runtime_start (some rt)) (λ r. is_ok r) _ true
                        fine a.started;
                  client = inr (c, refl, replied, refl);
                  reader = a.reader;
                })
                quiet new))
        (λ failed. pure-Runs _ w (
          record {
            handles = a.handles;
            started =
                known_as host _ false (Call.runtime_start (some rt)) (λ r. is_ok r) _ false failed
                  a.started;
            client = a.client;
            reader = a.reader;
          },
          quiet,
          tt,
        ))

  -- Nothing of these calls has been made.
  pub record IsEarly (cs : List Call) : Type 0 where
    pub quiet : released cs ≡ []
    pub no_handles : any_call is_get_handles cs ≡ false
    pub no_start : any_call is_start cs ≡ false
    pub no_client : any_call is_client_create cs ≡ false
    pub no_reader : any_call is_reader_create cs ≡ false

  nothing-IsAccounted : (cs : List Call) → IsEarly cs → IsAccounted host spec rt nothing_acquired cs
  nothing-IsAccounted cs e = record {
    handles = inl (e.no_handles, refl);
    started = inl (e.no_start, refl);
    client = inl (e.no_client, refl);
    reader = inl (e.no_reader, refl);
  }

  pub nothing-Attempted :
      (x : RuntimeError) (w : World) (cs : List Call)
      → IsEarly cs
      → Tries (pure (nothing_acquired, thrown x)) w cs
  nothing-Attempted x w cs e = pure-Runs _ w (nothing-IsAccounted cs e, e.quiet, tt)

  after_handles-Tries :
      (r : Status × HostHandles) (w : World) (before : List Call)
      → IsOpen host handle p w
      → IsEarly before
      → Replied host (Call.get_host_handles (some rt) (empty_handles 0)) r
      → Tries
          (after_handles host (some p) spec rt r.0 (some r.1))
          w
          (Call.get_host_handles (some rt) (empty_handles 0) ∷ before)
  unfolding after_handles handles_at Lifecycle.start released
  after_handles-Tries r w before o e replied =
      let asked : Call = Call.get_host_handles (some rt) (empty_handles 0) in
      if-Runs (is_ok r.0)
        (λ fine.
          let call : Call = Call.runtime_start (some rt) in
          step-Runs host handle p complete call (asked ∷ before) (Attempted host (some p) spec rt) o
            (call_slot-Runs host handle p complete Slot.runtime_start call w o)
            (λ status w' o' replied'.
              after_start-Tries r.1 status w' (call ∷ asked ∷ before) o'
                (record {
                  handles = inr (r, refl, replied, rw fine refl);
                  started = inr (status, refl, replied', refl);
                  client = inl (e.no_client, refl);
                  reader = inl (e.no_reader, refl);
                })
                e.quiet e.no_reader e.no_client))
        (λ failed. pure-Runs _ w (
          record {
            handles = inr (r, refl, replied, rw failed refl);
            started = inl (e.no_start, refl);
            client = inl (e.no_client, refl);
            reader = inl (e.no_reader, refl);
          },
          e.quiet,
          tt,
        ))

  after_routes-Tries :
      (status : Status) (w : World) (before : List Call)
      → IsOpen host handle p w
      → IsEarly before
      → Tries (after_routes host (some p) spec rt status) w before
  unfolding after_routes Lifecycle.get_host_handles init_handles
  after_routes-Tries status w before o e =
      if-Runs (is_ok status)
        (λ fine.
          let call : Call = Call.get_host_handles (some rt) (empty_handles 0) in
          step-Runs host handle p complete call before (Attempted host (some p) spec rt) o
            (Replied-Runs host handle p complete Slot.get_host_handles call (λ r. (r.0, some r.1)) w
              o)
            (λ r w' o' (q, replied, same). rw same (after_handles-Tries q w' before o' e replied)))
        (λ failed. nothing-Attempted _ w before e)

  pub apply_routes-Tries :
      (w : World) (before : List Call)
      → IsOpen host handle p w
      → IsEarly before
      → Tries (apply_routes host (some p) spec rt) w before
  unfolding apply_routes Lifecycle.apply_snapshot released
  apply_routes-Tries w before o e =
      let call : Call = Call.apply_snapshot (some rt) (record {
        generation = spec.generation;
        routes = spec.routes;
        route_count = spec.route_count;
      }) in
      step-Runs host handle p complete call before (Attempted host (some p) spec rt) o
        (call_slot-Runs host handle p complete Slot.apply_snapshot call w o)
        (λ status w' o' replied. after_routes-Tries status w' (call ∷ before) o' (record {
          quiet = e.quiet;
          no_handles = e.no_handles;
          no_start = e.no_start;
          no_client = e.no_client;
          no_reader = e.no_reader;
        }))
