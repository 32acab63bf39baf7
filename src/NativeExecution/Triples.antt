-- ===== src/NativeExecution/Triples.antt =====
-- What holds where an attempt ends, one call after the other.
use baseline_ops.Prelude.{
  ◌≡◌, refl, String, Bool, true, false, Option, none, some, Outcome, ok, err,
}
use baseline_ops.WindowsUpdate.{WindowsUpdateObservation}
use baseline_ops.NativeExecution.{ActionOutcome}
use baseline_ops.NativeExecution.Attempt.{
  Attempt, proceed, or_return, check, reject, expect, complete_observation, ok_after, settle,
}
use baseline_ops.NativeExecution.Checks.{require_complete}
use baseline_ops.NativeExecution.Monitor.{Stage, Monitored, seen}

module _ {W : Type 0} (R : ActionOutcome → Stage → Option WindowsUpdateObservation → Type 0) where
  -- An outcome that is returned, early or not, agrees with the state; nothing panics.
  unfoldable pub Ends : Outcome (Option ActionOutcome) ActionOutcome × Monitored W → Type 0
  Ends (ok outcome, s) = R outcome s.stage s.last
  Ends (err (some outcome), s) = R outcome s.stage s.last
  Ends (err none, s) = ⊥

  pub Ends-ok :
      (outcome : ActionOutcome) (s : Monitored W) → R outcome s.stage s.last → Ends (ok outcome, s)
  unfolding Ends
  Ends-ok outcome s h = h

  pub Ends-proceed :
      {A B : Type 0} (k : A → Attempt (Monitored W) B)
      (next : B → Attempt (Monitored W) ActionOutcome)
      (r : Outcome (Option ActionOutcome) A × Monitored W)
      → Ends (proceed (λ a s. proceed next (k a s)) r)
      → Ends (proceed next (proceed k r))
  unfolding Ends proceed
  Ends-proceed k next (err (some outcome), s) h = h
  Ends-proceed k next (err none, s) h = h
  Ends-proceed k next (ok a, s) h = h

  pub Ends-proceed-ok :
      {A : Type 0} (next : A → Attempt (Monitored W) ActionOutcome) (a : A) (s : Monitored W)
      → Ends (next a s)
      → Ends (proceed next (ok a, s))
  unfolding proceed
  Ends-proceed-ok next a s h = h

  pub Ends-settle :
      (r : Outcome (Option ActionOutcome) ActionOutcome × Monitored W)
      → Ends r
      → (outcome : ActionOutcome) × ((settle r).0 ≡ some outcome)
        × R outcome (settle r).1.stage (settle r).1.last
  unfolding Ends settle
  Ends-settle (ok outcome, s) h = (outcome, refl, h)
  Ends-settle (err (some outcome), s) h = (outcome, refl, h)
  Ends-settle (err none, s) h = absurd h

  pub Ends-check :
      {A : Type 0} (result : Outcome String A) (exit : String → ActionOutcome)
      (next : A → Attempt (Monitored W) ActionOutcome) (s : Monitored W)
      → ((e : String) → R (exit e) s.stage s.last)
      → ((a : A) → result ≡ ok a → Ends (next a s))
      → Ends (proceed next (check result exit s))
  unfolding Ends proceed check
  Ends-check (err e) exit next s left right = left e
  Ends-check (ok a) exit next s left right = right a refl

  pub Ends-reject :
      (test : Bool) (outcome : ActionOutcome) (next : Attempt (Monitored W) ActionOutcome)
      (s : Monitored W)
      → R outcome s.stage s.last
      → (test ≡ false → Ends (next s))
      → Ends (proceed (λ _. next) (reject test outcome s))
  unfolding Ends proceed reject
  Ends-reject true outcome next s left right = left
  Ends-reject false outcome next s left right = right refl

  pub Ends-expect :
      {A : Type 0} (value : Option A) (next : A → Attempt (Monitored W) ActionOutcome)
      (s : Monitored W) (a : A)
      → value ≡ some a
      → ((b : A) → Ends (next b s))
      → Ends (proceed next (expect value s))
  unfolding Ends proceed expect
  Ends-expect none next s a h right = absurd (cc h)
  Ends-expect (some b) next s a h right = right b

  -- A call that moves the stage on.
  pub Ends-call :
      (r : Outcome String (Unit {0}) × W) (exit : String → ActionOutcome)
      (next : Attempt (Monitored W) ActionOutcome) (after : Outcome String (Unit {0}) → Stage)
      (last : Option WindowsUpdateObservation)
      → ((e : String) → R (exit e) (after (err e)) last)
      → ((w : W) → Ends (next (record { world = w; stage = after (ok tt); last = last })))
      → Ends (
          proceed
            (λ _. next)
            (or_return exit (r.0, record { world = r.1; stage = after r.0; last = last })))
  unfolding Ends proceed or_return
  Ends-call (err e, w) exit next after last left right = left e
  Ends-call (ok _, w) exit next after last left right = right w

  -- An observation, and the check that it is complete.
  pub Ends-observe :
      (r : Outcome String WindowsUpdateObservation × W) (label : String)
      (exit : String → ActionOutcome)
      (next : WindowsUpdateObservation → Attempt (Monitored W) ActionOutcome) (stage : Stage)
      (last : Option WindowsUpdateObservation)
      → ((e : String) (l : Option WindowsUpdateObservation) → R (exit e) stage l)
      → ((o : WindowsUpdateObservation) (w : W)
          → require_complete o label ≡ ok tt
          → Ends (next o (record { world = w; stage = stage; last = some o })))
      → Ends (
          proceed next (
            or_return exit (
              complete_observation label
                (r.0, record { world = r.1; stage = stage; last = seen last r.0 }))))
  unfolding Ends proceed or_return complete_observation
  Ends-observe (err e, w) label exit next stage last left right = left _ last
  Ends-observe (ok o, w) label exit next stage last left right = go (require_complete o label) refl
    where
      go :
          (result : Outcome String (Unit {0}))
          → require_complete o label ≡ result
          → Ends (
              proceed next (
                or_return exit
                  (ok_after o result, record { world = w; stage = stage; last = some o })))
      go (err e) h = left e (some o)
      go (ok _) h = right o w h
