-- ===== src/Swift/Session/Kept.antt =====
-- How the outcomes of the parts of a session carry its invariant and what is given back.
use coakka_runtime_swift.Prelude.{
  ℕ, zero, suc, true, false, some, List, [], ◌∷◌, ◌++◌, length, ◌≡◌, refl, arith, ◌∙◌, append_assoc,
  inl, inr, Option-cases, Bool-cases,
}
use coakka_runtime_swift.Core.Call.{Call}
use coakka_runtime_swift.Machine.Heap.{Host, Event}
use coakka_runtime_swift.Swift.Errors.{Result}
use coakka_runtime_swift.Swift.Session.{Session}
use coakka_runtime_swift.Swift.Session.Reader.{Runner, reading, dispatching, leaving, joining, done}
use coakka_runtime_swift.Swift.Session.Outcomes.{EndOutcome, ended, RetireOutcome}
use coakka_runtime_swift.Swift.Session.Traffic.{
  released, released-append, IsHarmless, BeginOutcome, refused, begun,
}
use coakka_runtime_swift.Swift.Session.Rounds.{has_reader}
use coakka_runtime_swift.Swift.Session.Sound.{Owners, IsHeld, IsSound, given_back, is_done}
use coakka_runtime_swift.Swift.Session.Settled.{stopped-Held, settled-Sound, with_session}
use coakka_runtime_swift.Swift.Session.System.{System, pick, admit}

-- From a sound system, to a sound one, with calls that account for what is given back.
abbrev pub Keeps : Owners → System → System → List Call → Type 0
Keeps o sys sys' cs = IsSound o sys' × (given_back o sys' ≡ released cs ++ given_back o sys)

pub pick-length :
    (n : ℕ) (ts : List ℕ) (r : ℕ × List ℕ) → pick n ts ≡ some r → length ts ≡ suc (length r.1)
unfolding pick
pick-length n [] r e = cc
pick-length zero (t ∷ ts) r e = ground arith
pick-length (suc n) (t ∷ ts) r e = elim (Option-cases (pick n ts)) [
  | inl nowhere ↦ absurd (ground (arith, nowhere, e))
  | inr (q, there) ↦ ground (arith, there, e, pick-length n ts q there)
]

module _ (o : Owners) where
  -- A session that is not closing has its reader.
  pub open_reader :
      (sys : System)
      → IsSound o sys
      → sys.session.closing ≡ false
      → sys.session.reader_retired ≡ false
  open_reader sys i going = elim (Bool-cases sys.session.reader_retired) [
    | inl gone ↦ absurd (ground (arith, i.held.admission_closed gone, going))
    | inr here ↦ here
  ]

  pub has_reader-done : (phase : Runner) → has_reader phase ≡ true → is_done phase ≡ false
  has_reader-done reading e = refl
  has_reader-done (dispatching f) e = refl
  has_reader-done leaving e = refl
  has_reader-done joining e = absurd (ground arith)
  has_reader-done done e = absurd (ground arith)

  pub harmless :
      (sys sys' : System) (cs : List Call)
      → IsSound o sys'
      → IsHarmless cs
      → given_back o sys' ≡ given_back o sys
      → Keeps o sys sys' cs
  harmless sys sys' cs i h e = (i, rw (h, e) refl)

  pub begun-Keeps :
      (sys : System) (r : Session × Result ℕ) (cs : List Call)
      → IsSound o sys
      → BeginOutcome sys.session r
      → IsHarmless cs
      → Keeps o sys (admit sys r) cs
  unfolding admit
  begun-Keeps sys _ cs i (refused e) h = harmless sys sys cs i h refl
  begun-Keeps sys _ cs i (begun t going few) h =
      harmless sys _ cs (ground (arith, open_reader sys i going)) h refl

  -- A retirement that is due is made at the end of the action.
  pub settled-Keeps :
      (sys before : System) {s' : Session} (cs : List Call)
      → IsHeld o before
      → given_back o before ≡ given_back o sys
      → RetireOutcome before.session s' cs
      → Keeps o sys (with_session before s') cs
  settled-Keeps sys before cs held e r =
      let (sound, more) = settled-Sound o before r held in (sound, rw (more, e) refl)

  pub ended-Keeps :
      (sys before : System) (host : Host) {log : List Event} {s' : Session} (cs : List Call)
      → IsHeld o before
      → given_back o before ≡ given_back o sys
      → EndOutcome host log before.session s' cs
      → Keeps o sys (with_session before s') cs
  ended-Keeps sys before host _ held e (ended {s₁ = s₁} {cs = cs} {ds = ds} a b) =
      let (h, quiet, kept) = stopped-Held o before host a held in
      let (sound, more) = settled-Keeps sys (with_session before s₁) ds h (kept ∙ e) b in
      (
        sound,
        rw (more, released-append ds cs, quiet) (append_assoc (released ds) [] (given_back o sys)),
      )
