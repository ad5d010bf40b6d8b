-- ===== src/Swift/Startup/Balanced.antt =====
-- RuntimeHost.start gives back what it acquired, or returns a session that owns it.
use coakka_runtime_swift.Prelude.{
  ℕ, true, false, none, some, List, [], ◌∷◌, ◌++◌, ◌≡◌, arith, append_nil, if◌then◌else◌, ◌==◌,
  is_null, not, ◌&&◌, pos,
}
use coakka_runtime_swift.Status.{Status}
use coakka_runtime_swift.Core.Records.{Ptr}
use coakka_runtime_swift.Core.Slot.{Slot}
use coakka_runtime_swift.Core.Call.{Call}
use coakka_runtime_swift.Machine.Heap.{World, Host}
use coakka_runtime_swift.Loader.Library.{is_ok}
use coakka_runtime_swift.Bridge.Spec.{IsOpen}
use coakka_runtime_swift.Bridge.Safety.{Complete}
use coakka_runtime_swift.Bridge.Lifecycle.{empty_handles, init_handles, network, runtime_config}
use coakka_runtime_swift.Bridge.Lifecycle
use coakka_runtime_swift.Bridge.Inspect
use coakka_runtime_swift.Swift.Errors.{Result, value, thrown, RuntimeError, unsupported_abi}
use coakka_runtime_swift.Swift.Calls.{
  Runs, Replied, bind-Runs, pure-Runs, if-Runs, weaken-Runs, call_slot-Runs,
}
use coakka_runtime_swift.Swift.Session.{Session}
use coakka_runtime_swift.Swift.Session.Traffic.{released}
use coakka_runtime_swift.Swift.Startup.{StartSpec, Acquired, expected_abi}
use coakka_runtime_swift.Swift.Startup.Attempts.{
  IsAccounted, Owns, Attempted, Replied-Runs, step-Runs,
}
use coakka_runtime_swift.Swift.Startup.{finish, with_runtime, create, start}
use coakka_runtime_swift.Swift.Startup.Undone.{undo_calls, undo-Gives}
use coakka_runtime_swift.Swift.Startup.Configured.{attempt-Runs}

-- The two calls that every start makes before it has a runtime, the latest first.
abbrev pub create_call : StartSpec → Call
create_call spec =
    Call.create_native
      (runtime_config spec.system_name spec.node_id (if spec.strict_no_drop then pos 1 else pos 0)
        spec.queue_capacity)
      spec.options (some none)

abbrev pub creation : StartSpec → List Call
creation spec = create_call spec ∷ Call.get_abi_version ∷ []

module _ (host : Host) (handle : Ptr) (spec : StartSpec) where
  -- The Core library made this runtime.
  abbrev pub Made : ℕ → Type 0
  Made rt =
      (status : Status) × Replied host (create_call spec) (status, some rt) × (is_ok status ≡ true)

  -- A start that has no runtime; one that returns a session; and one that throws, whose calls are
  -- those of its attempt, and then those of its catch block.
  pub data StartOutcome : Result Session → List Call → Type 0 where
    wrong_abi :
        (abi : ℕ)
        → Replied host Call.get_abi_version abi
        → (abi == expected_abi) ≡ false
        → StartOutcome (thrown (unsupported_abi abi)) (Call.get_abi_version ∷ [])
    not_made :
        (e : RuntimeError) (r : Status × Ptr)
        → Replied host (create_call spec) r
        → (is_ok r.0 && not (is_null r.1)) ≡ false
        → StartOutcome (thrown e) (creation spec)
    kept :
        (rt : ℕ) (a : Acquired) (s : Session) (cs : List Call)
        → Made rt
        → IsAccounted host spec rt a cs
        → released cs ≡ []
        → Owns handle rt a (value s)
        → StartOutcome (value s) (cs ++ creation spec)
    undone :
        (rt : ℕ) (a : Acquired) (e : RuntimeError) (cs ds : List Call)
        → Made rt
        → IsAccounted host spec rt a cs
        → released cs ≡ []
        → released ds ≡ undo_calls rt a
        → StartOutcome (thrown e) ((ds ++ cs) ++ creation spec)

module _ (host : Host) (handle : Ptr) (p : ℕ) (complete : Complete host handle) (spec : StartSpec)
    (rt : ℕ) where
  finish-Runs :
      (r : Acquired × Result Session) (w : World) (cs : List Call)
      → IsOpen host handle p w
      → Made host (some p) spec rt
      → Attempted host (some p) spec rt r cs
      → Runs
          (finish host (some p) spec rt r)
          w
          (λ q ds. StartOutcome host (some p) spec q ((ds ++ cs) ++ creation spec))
  unfolding finish
  finish-Runs (a, value s) w cs o made (known, quiet, owns) =
      pure-Runs (value s) w (kept rt a s cs made known quiet owns)
  finish-Runs (a, thrown e) w cs o made (known, quiet, owns) =
      bind-Runs host handle p o (undo-Gives host handle p complete spec rt a w o)
        (λ _ ds w' o' back. pure-Runs (thrown e) w' (undone rt a e cs ds made known quiet back))

module _ (host : Host) (handle : Ptr) (p : ℕ) (complete : Complete host handle)
    (spec : StartSpec) where
  with_runtime-Runs :
      (r : Status × Ptr) (w : World)
      → IsOpen host handle p w
      → is_ok r.0 ≡ true
      → Replied host (create_call spec) r
      → Runs
          (with_runtime host (some p) spec r.1)
          w
          (λ q ds. StartOutcome host (some p) spec q (ds ++ creation spec))
  unfolding with_runtime
  with_runtime-Runs (status, none) w o fine replied =
      pure-Runs _ w (not_made _ (status, none) replied ground arith)
  with_runtime-Runs (status, some rt) w o fine replied =
      bind-Runs host handle p o (attempt-Runs host handle p complete spec rt w o)
        (λ r cs w' o' tried.
          finish-Runs host handle p complete spec rt r w' cs o' (status, replied, fine) tried)

  create-Runs :
      (w : World)
      → IsOpen host handle p w
      → Runs
          (create host (some p) spec)
          w
          (λ q ds. StartOutcome host (some p) spec q (ds ++ Call.get_abi_version ∷ []))
  unfolding create Lifecycle.create_native
  create-Runs w o =
      step-Runs host handle p complete (create_call spec) (Call.get_abi_version ∷ [])
        (StartOutcome host (some p) spec) o
        (Replied-Runs host handle p complete Slot.create_native (create_call spec)
          (λ r. (r.0, some r.1)) w o)
        (λ r w' o' (q, replied, same). rw same (
          if-Runs (is_ok q.0) (λ fine. with_runtime-Runs q w' o' fine replied)
            (λ failed. pure-Runs _ w' (not_made _ q replied ground (arith, failed)))))

-- RuntimeHost.start, over an open library of a complete module and with any replies of the Core
-- library, does not fault, and nothing but the log changes. Its outcome is one of these: it throws
-- on another ABI version than the expected one, after one call; it throws on a creation that did not
-- succeed or gave no runtime, after one more; it returns a session, which owns the runtime made, its
-- handles, its client and its reader as the Core library gave them, with the runtime started and
-- nothing given back; or it throws after it has given back exactly what had been acquired, each
-- owner once: the reader, then the client, the handles and the runtime.
pub start-Balanced :
    (host : Host) (handle : Ptr) (p : ℕ) (spec : StartSpec) (w : World)
    → Complete host handle
    → IsOpen host handle p w
    → Runs (start host (some p) spec) w (λ r cs. StartOutcome host (some p) spec r cs)
unfolding start Inspect.get_abi_version
start-Balanced host handle p spec w complete o =
    weaken-Runs
      (step-Runs host handle p complete Call.get_abi_version [] (StartOutcome host (some p) spec) o
        (call_slot-Runs host handle p complete Slot.get_abi_version Call.get_abi_version w o)
        (λ abi w' o' replied.
          if-Runs (abi == expected_abi) (λ same. create-Runs host handle p complete spec w' o')
            (λ other. pure-Runs _ w' (wrong_abi abi replied other))))
      (λ r cs q. rw (← append_nil cs) q)
