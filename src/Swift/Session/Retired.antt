-- ===== src/Swift/Session/Retired.antt =====
-- A session that is retired does not use what it owned any more.
use coakka_runtime_swift.Prelude.{
  AllOf, AllOf-append, ℕ, zero, suc, Bool, true, false, Option, none, some, List, [], ◌∷◌, length,
  ◌≡◌, refl, arith, if◌then◌else◌,
}
use coakka_runtime_swift.Core.Records.{Ptr}
use coakka_runtime_swift.Core.Call.{Call}
use coakka_runtime_swift.Machine.Heap.{World, Host}
use coakka_runtime_swift.Machine.Effects.{pure, ◌>>=◌, M}
use coakka_runtime_swift.Bridge.Spec.{IsOpen}
use coakka_runtime_swift.Bridge.Safety.{Complete}
use coakka_runtime_swift.Bridge.Client.{client_bytes_release}
use coakka_runtime_swift.Loader.Library.{is_ok}
use coakka_runtime_swift.Swift.Errors.{Result, RuntimeError, value, thrown, closed, native_status}
use coakka_runtime_swift.Swift.Native.{
  build_raw_request-Runs, client_bytes_release-Runs, client_bytes_release-none,
  deadletter_reason_name-Runs,
}
use coakka_runtime_swift.Swift.Calls.{Runs, bind-Runs, pure-Runs, if-Runs, weaken-Runs}
use coakka_runtime_swift.Swift.Session.{
  Session, request_retirement, close_request, close_locked, require_open, begin, begin_open,
  begin_built, begin_request, out_at, number_at, submit, submit_open,
}
use coakka_runtime_swift.Swift.Session.Ask.{Wait}
use coakka_runtime_swift.Swift.Session.Reader.{Runner, done}
use coakka_runtime_swift.Swift.Session.Sound.{Owners, IsSound, is_done}
use coakka_runtime_swift.Swift.Session.System.{
  System, Action, begin_ask, await_ticket, destroy_ticket, end_ask, name_deadletter, run_reader,
  submit_reply, call_close, join_close, drop_host, pick, admit, await_picked, destroy_picked,
  end_one, run_phase, act, run,
}
use coakka_runtime_swift.Status.{Status}

-- What holds of a retired session: nobody has anything to do with it.
pub record IsRetired (p : ℕ) (sys : System) : Type 0 where
  pub library : sys.session.handle ≡ some p
  pub gone : sys.session.runtime ≡ none
  pub shut : sys.session.closing ≡ true
  pub stopped : sys.session.stopped ≡ true
  pub runner_done : is_done sys.runner ≡ true
  pub none_waiting : sys.waiting ≡ []
  pub none_ending : sys.ending ≡ 0

length-zero {ℓ} : {A : Type ℓ} (xs : List A) → length xs ≡ 0 → xs ≡ []
length-zero [] e = refl
length-zero (x ∷ xs) e = absurd (omega arith)

pub IsSound-IsRetired :
    (o : Owners) (sys : System)
    → IsSound o sys
    → sys.session.runtime ≡ none
    → IsRetired o.library sys
IsSound-IsRetired o sys i gone =
    let over : sys.session.reader_retired ≡ true = ground (arith, i.retired, gone) in
    record {
      library = i.held.library;
      gone = gone;
      shut = i.held.admission_closed over;
      stopped = ground (arith, i.retired, gone);
      runner_done = ground (arith, i.held.runner_known, over);
      none_waiting = length-zero sys.waiting (ground (arith, i.retired, gone, i.held.counted));
      none_ending = ground (arith, i.retired, gone, i.held.counted);
    }

-- A call that is given no owner: neither the runtime, the client, the handles or the reader, nor a
-- ticket or a frame.
abbrev pub is_ownerless : Call → Bool
is_ownerless (Call.build_raw_request _ _ _) = true
is_ownerless (Call.client_bytes_release _) = true
is_ownerless (Call.core_reason_name _) = true
is_ownerless _ = false

abbrev pub IsOwnerless : Call → Type 0
IsOwnerless c = is_ownerless c ≡ true

-- Only such calls, and still retired.
abbrev pub Still : ℕ → System → List Call → Type 0
Still p sys cs = IsRetired p sys × AllOf IsOwnerless cs

one_call : (c : Call) (cs : List Call) → cs ≡ c ∷ [] → IsOwnerless c → AllOf IsOwnerless cs
one_call c cs e h = rw e (h, tt)

closed_gate : (s : Session) → s.closing ≡ true → require_open s ≡ thrown closed
unfolding require_open
closed_gate s e = ground (arith, e)

-- An ask is refused, and the session is as it was.
abbrev Refuses : System → Session × Result ℕ → List Call → Type 0
Refuses sys q cs = (e : RuntimeError) × (q ≡ (sys.session, thrown e)) × AllOf IsOwnerless cs

admit-Still :
    (p : ℕ) (sys : System) (q : Session × Result ℕ) (cs : List Call)
    → IsRetired p sys
    → Refuses sys q cs
    → Still p (admit sys q) cs
unfolding admit
admit-Still p sys q cs r (e, same, calls) = rw same (r, calls)

module _ (host : Host) (handle : Ptr) (p : ℕ) (complete : Complete host handle) (sys : System)
    (r : IsRetired p sys) where
  release_wire-Still :
      (wire : Ptr) (w : World)
      → IsOpen host handle p w
      → Runs (client_bytes_release host sys.session.handle wire) w (λ _ cs. AllOf IsOwnerless cs)
  release_wire-Still none w o =
      weaken-Runs (client_bytes_release-none host handle p complete w o r.library)
        (λ _ cs c. rw c tt)
  release_wire-Still (some q) w o =
      weaken-Runs (client_bytes_release-Runs host handle p complete w o r.library q)
        (λ _ cs c. one_call _ cs c refl)

  begin_open-Still :
      (frame : Ptr) (count : ℕ) (gate : Result ℕ) (w : World)
      → gate ≡ thrown closed
      → Runs (begin_open host frame count sys.session gate) w (λ q cs. Refuses sys q cs)
  unfolding begin_open
  begin_open-Still frame count (thrown e) w g = pure-Runs _ w (e, refl, tt)
  begin_open-Still frame count (value q) w g = absurd (cc)

  begin-Still :
      (frame : Ptr) (count : ℕ) (w : World)
      → Runs (begin host frame count sys.session) w (λ q cs. Refuses sys q cs)
  unfolding begin
  begin-Still frame count w =
      begin_open-Still frame count (require_open sys.session) w (closed_gate sys.session r.shut)

  begin_built-Still :
      (built : Status) (wire : Ptr) (length : ℕ) (w : World)
      → IsOpen host handle p w
      → Runs (begin_built host sys.session built wire length) w (λ q cs. Refuses sys q cs)
  unfolding begin_built
  begin_built-Still built wire length w o =
      if-Runs (is_ok built)
        (λ fine. bind-Runs host handle p o (begin-Still wire length w) (λ q cs w' o' h.
          bind-Runs host handle p o' (release_wire-Still wire w' o')
            (λ _ ds w'' o'' d. pure-Runs q w'' (h.0, h.1, AllOf-append IsOwnerless ds cs d h.2))))
        (λ failed.
          bind-Runs host handle p o (release_wire-Still wire w o)
            (λ _ ds w' o' d. pure-Runs _ w' (native_status built "build request", refl, d)))

  begin_request-Still :
      (spec : ℕ) (w : World)
      → IsOpen host handle p w
      → Runs (begin_request host spec sys.session) w (λ q cs. Refuses sys q cs)
  unfolding begin_request
  begin_request-Still spec w o =
      bind-Runs host handle p o (build_raw_request-Runs host handle p complete w o r.library spec)
        (λ b cs w' o' c.
          weaken-Runs (begin_built-Still b.0 (out_at b.1) (number_at b.2) w' o')
            (λ q ds h. (h.0, h.1, AllOf-append IsOwnerless ds cs h.2 (one_call _ cs c refl))))

module _ (p : ℕ) (host : Host) (sys : System) (r : IsRetired p sys) (w : World) where
  submit_open-Still :
      (reply : ℕ) (gate : Result ℕ)
      → gate ≡ thrown closed
      → Runs (do _ ← submit_open host reply sys.session gate; pure sys) w (Still p)
  unfolding submit_open
  submit_open-Still reply (thrown e) g = pure-Runs _ w (r, tt)
  submit_open-Still reply (value q) g = absurd (cc)

  run_phase-Still :
      (phase : Runner) → is_done phase ≡ true → Runs (run_phase host sys phase) w (Still p)
  unfolding run_phase
  run_phase-Still done e = pure-Runs _ w (r, tt)
  run_phase-Still _ e = absurd (ground arith)

  await_picked-Still :
      (n : ℕ) (a : Wait) (ts : List ℕ)
      → ts ≡ []
      → Runs (await_picked host sys a (pick n ts)) w (Still p)
  unfolding await_picked pick
  await_picked-Still n a [] e = pure-Runs _ w (r, tt)
  await_picked-Still n a (t ∷ ts) e = absurd (cc)

  destroy_picked-Still :
      (n : ℕ) (ts : List ℕ) → ts ≡ [] → Runs (destroy_picked host sys (pick n ts)) w (Still p)
  unfolding destroy_picked pick
  destroy_picked-Still n [] e = pure-Runs _ w (r, tt)
  destroy_picked-Still n (t ∷ ts) e = absurd (cc)

  end_one-Still : (n : ℕ) → n ≡ 0 → Runs (end_one host sys n) w (Still p)
  unfolding end_one
  end_one-Still zero e = pure-Runs _ w (r, tt)
  end_one-Still (suc n) e = absurd (omega arith)

  -- close after a stop that succeeded
  stopped_close :
      (b : Bool) (failure : Option Status) (other : M (Session × Option Status))
      → b ≡ true
      → Runs
          (do
            q ← if b then pure (sys.session, failure) else other
            pure (record sys { session = q.0 }))
          w
          (Still p)
  stopped_close true failure other e = pure-Runs _ w (r, tt)
  stopped_close false failure other e = absurd (cc)

  act-Still :
      (handle : Ptr)
      → Complete host handle
      → IsOpen host handle p w
      → (a : Action) → Runs (act host a sys) w (Still p)
  unfolding act submit close_request request_retirement close_locked
  act-Still handle complete o (begin_ask spec) =
      bind-Runs host handle p o (begin_request-Still host handle p complete sys r spec w o)
        (λ q cs w' o' h. pure-Runs _ w' (admit-Still p sys q cs r h))
  act-Still handle complete o (name_deadletter reason) =
      bind-Runs host handle p o
        (deadletter_reason_name-Runs host handle p complete w o r.library reason)
        (λ _ cs w' o' c. pure-Runs sys w' (r, one_call _ cs c refl))
  act-Still handle complete o (await_ticket n a) = await_picked-Still n a sys.waiting r.none_waiting
  act-Still handle complete o (destroy_ticket n) = destroy_picked-Still n sys.waiting r.none_waiting
  act-Still handle complete o end_ask = end_one-Still sys.ending r.none_ending
  act-Still handle complete o run_reader = run_phase-Still sys.runner r.runner_done
  act-Still handle complete o (submit_reply reply) =
      submit_open-Still reply (require_open sys.session) (closed_gate sys.session r.shut)
  act-Still handle complete o (call_close true busy) = pure-Runs _ w (r, tt)
  act-Still handle complete o (call_close false true) = pure-Runs _ w (r, tt)
  act-Still handle complete o (call_close false false) = pure-Runs _ w (ground arith, tt)
  act-Still handle complete o join_close =
      if-Runs sys.session.reader_retired (λ _. stopped_close sys.session.stopped _ _ r.stopped)
        (λ _. pure-Runs _ w (r, tt))
  act-Still handle complete o drop_host = pure-Runs _ w (ground arith, tt)

run-Still :
    (p : ℕ) (host : Host) (handle : Ptr) (complete : Complete host handle) (actions : List Action)
    (sys : System) (w : World)
    → IsOpen host handle p w
    → IsRetired p sys
    → Runs (run host actions sys) w (Still p)
unfolding run
run-Still p host handle complete [] sys w op r = pure-Runs sys w (r, tt)
run-Still p host handle complete (a ∷ rest) sys w op r =
    bind-Runs host handle p op (act-Still p host sys r w handle complete op a) (λ sys₁ cs w₁ op₁ k.
      weaken-Runs (run-Still p host handle complete rest sys₁ w₁ op₁ k.0)
        (λ sys₂ ds l. (l.0, AllOf-append IsOwnerless ds cs l.1 k.1)))

-- From a sound state of a session in which it is retired, over an open library of a complete module,
-- any schedule runs to its end without a fault, and the session stays retired. It calls the Core
-- library at most to build the request of an ask, to free its bytes, and to name the reason of a
-- deadletter: no call is given the runtime, the client, the handles, the reader, a ticket or a frame.
pub retired-Untouched :
    (o : Owners) (host : Host) (handle : Ptr) (actions : List Action) (sys : System) (w : World)
    → Complete host handle
    → IsOpen host handle o.library w
    → IsSound o sys
    → sys.session.runtime ≡ none
    → Runs
        (run host actions sys)
        w
        (λ sys' cs. AllOf IsOwnerless cs × (sys'.session.runtime ≡ none))
retired-Untouched o host handle actions sys w complete op i gone =
    weaken-Runs
      (run-Still o.library host handle complete actions sys w op (IsSound-IsRetired o sys i gone))
      (λ sys' cs k. (k.1, k.0.gone))
