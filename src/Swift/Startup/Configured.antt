-- ===== src/Swift/Startup/Configured.antt =====
-- What an attempt to start has acquired when it ends, from the network policy on.
use coakka_runtime_swift.Prelude.{
  ℕ, Option, none, some, List, [], ◌∷◌, ◌≡◌, refl, append_nil, int_eq, ℤ,
}
use coakka_runtime_swift.Status.{Status}
use coakka_runtime_swift.Core.Records.{Ptr, Output, cleared}
use coakka_runtime_swift.Core.Slot.{Slot}
use coakka_runtime_swift.Core.Call.{Call}
use coakka_runtime_swift.Machine.Heap.{World, Host}
use coakka_runtime_swift.Loader.Library.{is_ok}
use coakka_runtime_swift.Bridge.Access.{deref, native_text}
use coakka_runtime_swift.Bridge.Spec.{IsOpen}
use coakka_runtime_swift.Bridge.Safety.{Complete}
use coakka_runtime_swift.Bridge.Lifecycle.{empty_handles, init_handles, network, runtime_config}
use coakka_runtime_swift.Bridge.Lifecycle
use coakka_runtime_swift.Bridge.Inspect
use coakka_runtime_swift.Swift.Errors.{native_status, tcp_security_apply}
use coakka_runtime_swift.Swift.Calls.{Runs, if-Runs, weaken-Runs, call_slot-Runs}
use coakka_runtime_swift.Swift.Session.Traffic.{released}
use coakka_runtime_swift.Swift.Startup.{
  StartSpec, after_security, apply_security, attempt, uint32_member, after_result,
}
use coakka_runtime_swift.Swift.Startup.Attempts.{Attempted, Replied-Runs, step-Runs}
use coakka_runtime_swift.Swift.Startup.Outcomes.{
  IsEarly, Tries, nothing-Attempted, apply_routes-Tries,
}
use coakka_runtime_swift.Swift.Startup.{output_at, int32_member}
use coakka_runtime_swift.Abi.Transport.{tcp_security_apply_result}

module _ (host : Host) (handle : Ptr) (p : ℕ) (complete : Complete host handle) (spec : StartSpec)
    (rt : ℕ) where
  after_result-Tries :
      (applied : ℤ) (w : World) (before : List Call)
      → IsOpen host handle p w
      → IsEarly host handle p complete spec rt before
      → Tries host handle p complete spec rt (after_result host (some p) spec rt applied) w before
  unfolding after_result
  after_result-Tries applied w before o e =
      if-Runs (is_ok applied)
        (λ fine. apply_routes-Tries host handle p complete spec rt w before o e)
        (λ failed. nothing-Attempted host handle p complete spec rt tcp_security_apply w before e)

  after_security-Tries :
      (status : Status) (out : Output) (w : World) (before : List Call)
      → IsOpen host handle p w
      → IsEarly host handle p complete spec rt before
      → Tries host handle p complete spec rt
          (after_security host (some p) spec rt status out)
          w
          before
  unfolding after_security Inspect.transport_apply_reason_name released
  after_security-Tries status out w before o e =
      let applied = int32_member tcp_security_apply_result "apply_status" out in
      let call : Call =
        Call.core_reason_name (uint32_member tcp_security_apply_result "reason" out) in
      if-Runs (int_eq status applied)
        (λ same.
          step-Runs host handle p complete call before (Attempted host (some p) spec rt) o
            (Replied-Runs host handle p complete Slot.transport_apply_reason_name call
              (λ r. native_text r) w o)
            (λ r w' o' q. after_result-Tries applied w' (call ∷ before) o' (record {
              quiet = e.quiet;
              no_handles = e.no_handles;
              no_start = e.no_start;
              no_client = e.no_client;
              no_reader = e.no_reader;
            })))
        (λ other.
          nothing-Attempted host handle p complete spec rt
            (native_status status "security apply status mismatch") w before e)

  apply_security-Tries :
      (security : Option ℕ) (w : World) (before : List Call)
      → IsOpen host handle p w
      → IsEarly host handle p complete spec rt before
      → Tries host handle p complete spec rt
          (apply_security host (some p) spec rt security)
          w
          before
  unfolding apply_security Inspect.apply_tcp_security_options deref released
  apply_security-Tries none w before o e =
      apply_routes-Tries host handle p complete spec rt w before o e
  apply_security-Tries (some options) w before o e =
      let call : Call =
        Call.apply_tcp_security_options (some rt) (some options)
          (cleared tcp_security_apply_result) in
      step-Runs host handle p complete call before (Attempted host (some p) spec rt) o
        (Replied-Runs host handle p complete Slot.apply_tcp_security_options call
          (λ r. (r.0, some r.1)) w o)
        (λ r w' o' q.
          after_security-Tries r.0 (output_at host (some p) spec rt r.1) w' (call ∷ before) o'
            (record {
              quiet = e.quiet;
              no_handles = e.no_handles;
              no_start = e.no_start;
              no_client = e.no_client;
              no_reader = e.no_reader;
            }))

  only_network :
      (c : Call)
      → c
        ≡ Call.apply_network_options (some rt) (
            network spec.network_mode spec.bind_host spec.bind_port spec.advertise_host
              spec.advertise_port)
      → IsEarly host handle p complete spec rt (c ∷ [])
  unfolding released
  only_network c e = rw e (record {
    quiet = refl;
    no_handles = refl;
    no_start = refl;
    no_client = refl;
    no_reader = refl;
  })

  pub attempt-Runs :
      (w : World)
      → IsOpen host handle p w
      → Runs (attempt host (some p) spec rt) w (λ r cs. Attempted host (some p) spec rt r cs)
  unfolding attempt Lifecycle.apply_network released
  attempt-Runs w o =
      let call : Call = Call.apply_network_options (some rt) (
        network spec.network_mode spec.bind_host spec.bind_port spec.advertise_host
          spec.advertise_port) in
      weaken-Runs
        (step-Runs host handle p complete call [] (Attempted host (some p) spec rt) o
          (call_slot-Runs host handle p complete Slot.apply_network_options call w o)
          (λ status w' o' replied.
            if-Runs (is_ok status)
              (λ fine.
                apply_security-Tries spec.security w' (call ∷ []) o' (only_network call refl))
              (λ failed.
                nothing-Attempted host handle p complete spec rt
                  (native_status status "apply runtime network policy") w' (call ∷ [])
                  (only_network call refl))))
        (λ r cs q. rw (← append_nil cs) q)
