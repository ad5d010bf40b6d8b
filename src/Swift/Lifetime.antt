-- ===== src/Swift/Lifetime.antt =====
-- RuntimeHost from its start on: RuntimeHost.start (RuntimeHost.swift), and then the threads of the
-- session that it made (RuntimeSession.swift).
use coakka_runtime_swift.Prelude.{ℕ, some, List, [], ◌++◌, ◌≡◌, refl, append_nil, sym, subst, ◌∙◌}
use coakka_runtime_swift.Core.Records.{Ptr}
use coakka_runtime_swift.Core.Call.{Call}
use coakka_runtime_swift.Machine.Heap.{World, Host}
use coakka_runtime_swift.Machine.Effects.{M, pure, ◌>>=◌}
use coakka_runtime_swift.Bridge.Spec.{IsOpen}
use coakka_runtime_swift.Bridge.Safety.{Complete}
use coakka_runtime_swift.Swift.Errors.{Result, value, thrown}
use coakka_runtime_swift.Swift.Calls.{Runs, bind-Runs, pure-Runs}
use coakka_runtime_swift.Swift.Session.{Session, new_session}
use coakka_runtime_swift.Swift.Session.System.{System, new_system, Action, run}
use coakka_runtime_swift.Swift.Session.Traffic.{released, released-append}
use coakka_runtime_swift.Swift.Session.Sound.{Owners, IsSound, given_back}
use coakka_runtime_swift.Swift.Session.Schedules.{schedule-Sound}
use coakka_runtime_swift.Swift.Startup.{StartSpec, start}
use coakka_runtime_swift.Swift.Startup.Balanced.{StartOutcome, kept, creation, start-Balanced}

-- What happens to the session, if there is one.
unfoldable pub serve : Host → List Action → Result Session → M (Result System)
serve host actions (thrown e) = pure (thrown e)
serve host actions (value s) = do sys ← run host actions (new_system s); pure (value sys)

-- RuntimeHost.init, and what follows
unfoldable pub lifetime : Host → Ptr → StartSpec → List Action → M (Result System)
unfolding serve
lifetime host handle spec actions = start host handle spec >>= serve host actions

abbrev pub session_of : Owners → Session
session_of o = new_session (some o.library) o.runtime o.client o.handles o.reader

-- The calls of a start that throws, or those of a start and then of a session in a sound state, which
-- has given back the owners that it says.
abbrev pub Lived : Host → ℕ → StartSpec → Result System → List Call → Type 0
Lived host p spec (thrown e) cs = StartOutcome host (some p) spec (thrown e) cs
Lived host p spec (value sys) cs =
    (o : Owners) × (bs ds : List Call) × (o.library ≡ p)
    × StartOutcome host (some p) spec (value (session_of o)) bs
    × (cs ≡ ds ++ bs)
    × IsSound o sys
    × (released cs ≡ given_back o sys)

-- The owners of a session that a start returned.
started :
    (host : Host) (p : ℕ) (spec : StartSpec) (s : Session) (bs : List Call)
    → StartOutcome host (some p) spec (value s) bs
    → (o : Owners) × (o.library ≡ p) × (s ≡ session_of o) × (released bs ≡ [])
unfolding released
started host p spec s _
      (kept rt a _ cs made known quiet (client, reader, c, q, on, (h, hs, same))) =
    (
      record { library = p; runtime = rt; client = client; handles = h; reader = reader },
      refl,
      same,
      released-append cs (creation spec) ∙ (append_nil (released cs) ∙ quiet),
    )

module _ (host : Host) (handle : Ptr) (p : ℕ) (complete : Complete host handle) (spec : StartSpec)
    (actions : List Action) where
  owned-Runs :
      (o : Owners) (bs : List Call) (w : World)
      → IsOpen host handle o.library w
      → o.library ≡ p
      → StartOutcome host (some p) spec (value (session_of o)) bs
      → released bs ≡ []
      → Runs (serve host actions (value (session_of o))) w (λ r ds. Lived host p spec r (ds ++ bs))
  unfolding serve
  owned-Runs o bs w op here out quiet =
      bind-Runs host handle o.library op (schedule-Sound o host handle actions w complete op)
        (λ sys ds w' op' (sound, back). pure-Runs _ w' (
          o,
          bs,
          ds,
          here,
          out,
          refl,
          sound,
          released-append ds bs ∙ rw (quiet, back) (append_nil (given_back o sys)),
        ))

  serve-Runs :
      (r : Result Session) (bs : List Call) (w : World)
      → IsOpen host handle p w
      → StartOutcome host (some p) spec r bs
      → Runs (serve host actions r) w (λ q ds. Lived host p spec q (ds ++ bs))
  unfolding serve
  serve-Runs (thrown e) bs w op out = pure-Runs _ w out
  serve-Runs (value s) bs w op out =
      let (o, here, same, quiet) = started host p spec s bs out in
      subst
        (λ t.
          StartOutcome host (some p) spec (value t) bs
          → Runs (serve host actions (value t)) w (λ q ds. Lived host p spec q (ds ++ bs)))
        (sym same)
        (λ out'.
          owned-Runs o bs w (subst (λ q. IsOpen host handle q w) (sym here) op) here out' quiet)
        out

-- Over an open library of a complete module, a start and then any schedule of the session's threads,
-- with any replies of the Core library, run without a fault and change nothing but the log. If the
-- start throws, it has given back what it acquired. If it returns, the session is sound at the end,
-- and of all calls made since the start those that give an owner back are the reader's, once the
-- runner is done with it, and those of the client, the handles and the runtime, once the session is
-- retired, each made once.
pub lifetime-Lived :
    (host : Host) (handle : Ptr) (p : ℕ) (spec : StartSpec) (actions : List Action) (w : World)
    → Complete host handle
    → IsOpen host handle p w
    → Runs (lifetime host (some p) spec actions) w (λ r cs. Lived host p spec r cs)
unfolding lifetime
lifetime-Lived host handle p spec actions w complete o =
    bind-Runs host handle p o (start-Balanced host handle p spec w complete o)
      (λ r bs w' o' out. serve-Runs host handle p complete spec actions r bs w' o' out)
