-- ===== src/Swift/Session/Sound.antt =====
-- The invariant of a session and its threads.
use coakka_runtime_swift.Prelude.{
  ℕ, ◌+◌, ◌≤◌, Bool, true, false, none, some, List, [], ◌∷◌, ◌++◌, length, ◌≡◌, refl, arith,
  is_null, if◌then◌else◌,
}
use coakka_runtime_swift.Core.Records.{HostHandles}
use coakka_runtime_swift.Core.Call.{Call}
use coakka_runtime_swift.Swift.Session.{new_session, max_active_asks}
use coakka_runtime_swift.Swift.Session.Reader.{Runner, done}
use coakka_runtime_swift.Swift.Session.Outcomes.{is_over, retire_calls}
use coakka_runtime_swift.Swift.Session.Rounds.{has_reader}
use coakka_runtime_swift.Swift.Session.System.{System, new_system}

abbrev pub is_done : Runner → Bool
is_done done = true
is_done _ = false

-- What a session was made of.
pub record Owners : Type 0 where
  pub library : ℕ
  pub runtime : ℕ
  pub client : ℕ
  pub handles : HostHandles
  pub reader : ℕ

-- The owners that a session has given back, the latest first: nothing, then the reader, then also
-- the client, the handles and the runtime.
abbrev pub given_back : Owners → System → List Call
given_back o sys =
    (if is_null sys.session.runtime then retire_calls o.client o.runtime o.handles else [])
    ++ (if has_reader sys.runner then [] else Call.reader_destroy (some o.reader) ∷ [])

-- What holds also between a change of the session and the retirement that it makes due.
pub record IsHeld (o : Owners) (sys : System) : Type 0 where
  -- the fields that never change
  pub library : sys.session.handle ≡ some o.library
  pub client : sys.session.client ≡ o.client
  pub reader : sys.session.reader ≡ o.reader
  -- the runtime and the handles are the first ones, or the runtime is gone
  pub owned :
      (r : ℕ) → sys.session.runtime ≡ some r → (r ≡ o.runtime) × (sys.session.handles ≡ o.handles)
  -- the asks that are counted are those of live tickets and of askers about to end
  pub bounded : sys.session.active_asks ≤ max_active_asks
  pub counted : sys.session.active_asks ≡ length sys.waiting + sys.ending
  pub runner_known : sys.session.reader_retired ≡ is_done sys.runner
  pub admission_closed : sys.session.reader_retired ≡ true → sys.session.closing ≡ true
  pub only_over : is_null sys.session.runtime ≡ true → is_over sys.session ≡ true
  pub stop_known : sys.session.stopped ≡ true → sys.session.stop_failure ≡ none

-- A session is retired exactly if all is over.
pub record IsSound (o : Owners) (sys : System) : Type 0 where
  pub held : IsHeld o sys
  pub retired : is_null sys.session.runtime ≡ is_over sys.session

pub new_system-IsSound :
    (o : Owners)
    → IsSound o (new_system (new_session (some o.library) o.runtime o.client o.handles o.reader))
unfolding new_session
new_system-IsSound o = record {
  held = record {
    library = refl;
    client = refl;
    reader = refl;
    owned = λ r e. ground arith;
    bounded = omega arith;
    counted = refl;
    runner_known = refl;
    admission_closed = λ e. cc;
    only_over = λ e. cc;
    stop_known = λ e. refl;
  };
  retired = refl;
}
