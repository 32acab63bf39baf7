-- ===== src/NativeExecution/Attempt.antt =====
-- The early returns and the outcomes of native_execution/action.rs. An early return with an outcome
-- is an `err` that holds it, a panic an `err` that holds none.
use Prim.Native.String.{◌++◌}
use baseline_ops.Prelude.{
  String, Bool, true, false, if◌then◌else◌, Option, none, some, Outcome, ok, err,
}
use baseline_ops.WindowsUpdate.{WindowsUpdateObservation}
use baseline_ops.NativeExecution.{FailurePhase, journal, ActionFailure, ActionOutcome}
use baseline_ops.NativeExecution.Checks.{require_complete}

abbrev pub Attempt : Type 0 → Type 0 → Type 0
Attempt W A = W → Outcome (Option ActionOutcome) A × W

unfoldable pub proceed :
    {W A B : Type 0}
    → (A → Attempt W B)
    → Outcome (Option ActionOutcome) A × W
    → Outcome (Option ActionOutcome) B × W
proceed next (err exit, w) = (err exit, w)
proceed next (ok a, w) = next a w

infixl 5 ◌>>=◌ ◌>>◌
abbrev pub ◌>>=◌ : {W A B : Type 0} → Attempt W A → (A → Attempt W B) → Attempt W B
(m >>= next) w = proceed next (m w)

abbrev pub ◌>>◌ : {W B : Type 0} → Attempt W (Unit {0}) → Attempt W B → Attempt W B
m >> next = m >>= λ _. next

-- `match result { Ok(value) => value, Err(error) => return exit(error) }`
unfoldable pub or_return :
    {W A : Type 0}
    → (String → ActionOutcome)
    → Outcome String A × W
    → Outcome (Option ActionOutcome) A × W
or_return exit (err e, w) = (err (some (exit e)), w)
or_return exit (ok a, w) = (ok a, w)

abbrev pub try :
    {W A : Type 0} → (W → Outcome String A × W) → (String → ActionOutcome) → Attempt W A
try call exit w = or_return exit (call w)

unfoldable pub check : {W A : Type 0} → Outcome String A → (String → ActionOutcome) → Attempt W A
check (err e) exit w = (err (some (exit e)), w)
check (ok a) exit w = (ok a, w)

unfoldable pub reject : {W : Type 0} → Bool → ActionOutcome → Attempt W (Unit {0})
reject test outcome w = (if test then err (some outcome) else ok tt, w)

-- `option.expect(..)`
unfoldable pub expect : {W A : Type 0} → Option A → Attempt W A
expect none w = (err none, w)
expect (some a) w = (ok a, w)

-- What the outermost function returns: `none` where it panics.
unfoldable pub settle :
    {W : Type 0} → Outcome (Option ActionOutcome) ActionOutcome × W → Option ActionOutcome × W
settle (err exit, w) = (exit, w)
settle (ok outcome, w) = (some outcome, w)

abbrev pub failed_before_start : FailurePhase → String → ActionOutcome
failed_before_start phase detail = record {
  receipt = none;
  failure = some (record { phase = phase; detail = detail; mutation_attempted = false });
  reboot_possible = false;
  may_finish_run = true;
}

abbrev pub unmatched_start : FailurePhase → String → Bool → ActionOutcome
unmatched_start phase detail mutation_attempted = record {
  receipt = none;
  failure =
      some (record { phase = phase; detail = detail; mutation_attempted = mutation_attempted });
  reboot_possible = mutation_attempted;
  may_finish_run = false;
}

abbrev pub journal_failure : Bool → String → ActionOutcome
journal_failure mutation_attempted detail =
    unmatched_start journal ("could not append durable action journal event: " ++ detail)
      mutation_attempted

-- `check?; Ok(value)`
abbrev pub ok_after : {A : Type 0} → A → Outcome String (Unit {0}) → Outcome String A
ok_after a (err e) = err e
ok_after a (ok _) = ok a

-- The `Err` of a call or of a check on what it returned.
unfoldable pub complete_observation :
    {W : Type 0}
    → String
    → Outcome String WindowsUpdateObservation × W
    → Outcome String WindowsUpdateObservation × W
complete_observation label (err e, w) =
    (err ("could not observe Windows Update " ++ label ++ ": " ++ e), w)
complete_observation label (ok observation, w) =
    (ok_after observation (require_complete observation label), w)

-- `failure.map(|(phase, detail)| ActionFailure { .. })`
abbrev pub action_failure : Option (FailurePhase × String) → Bool → Option ActionFailure
action_failure none mutation_attempted = none
action_failure (some (phase, detail)) mutation_attempted =
    some (record { phase = phase; detail = detail; mutation_attempted = mutation_attempted })

-- `match apply_mutation(..) { Ok(()) => rest, Err(detail) => return failure(detail) }`
abbrev pub match_mutation :
    {W : Type 0}
    → Attempt W ActionOutcome
    → (String → Attempt W ActionOutcome)
    → Outcome String (Unit {0})
    → Attempt W ActionOutcome
match_mutation rest failure (ok _) = rest
match_mutation rest failure (err detail) = failure detail
