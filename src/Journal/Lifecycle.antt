-- ===== src/Journal/Lifecycle.antt =====
-- journal/lifecycle.rs. The set of completed actions is only asked what it holds.
pub mod Laws
pub mod Recovery
use Prim.Native.String.{len}
use baseline_ops.Prelude.{
  ℕ, ◌==◌, ltb, String, Bool, true, false, not, ◌&&◌, ◌||◌, any, same, String-discrete, Option,
  none, some, List, [], ◌∷◌, Outcome, ok, err, done, reject_if, ◌>>=◌, ◌>>◌,
}
use baseline_ops.Domain.Results.{ActionStatus, ActionStatus-discrete}
use baseline_ops.Journal.Event.{
  JournalEvent, plan_approved, action_started, action_finished, run_finished, JournalError,
  invalid_lifecycle, action_recovery_required,
}

pub record Lifecycle : Type 0 where
  pub approved : Bool
  pub finished : Bool
  pub stopped : Bool
  pub active : Option String
  pub completed : List String

-- `Lifecycle::default()`
abbrev pub new_lifecycle : Lifecycle
new_lifecycle = record {
  approved = false;
  finished = false;
  stopped = false;
  active = none;
  completed = [];
}

abbrev pub is_active : Option String → Bool
is_active none = false
is_active (some action_id) = true

-- `self.active.as_deref() == Some(action_id)`
abbrev pub is_active_as : Option String → String → Bool
is_active_as none action_id = false
is_active_as (some active) action_id = same String-discrete active action_id

abbrev pub contains : List String → String → Bool
contains completed action_id = any (λ c. same String-discrete c action_id) completed

unfoldable pub validate_approval : Lifecycle → Outcome JournalError Unit
validate_approval state =
    reject_if state.approved (invalid_lifecycle "approval must occur exactly once")

unfoldable pub validate_start : Lifecycle → String → Outcome JournalError Unit
validate_start state action_id = do
  reject_if (not state.approved || is_active state.active || state.stopped)
      (invalid_lifecycle "action start requires approval, no active action, and no failure")
  reject_if (len action_id == 0 || contains state.completed action_id)
      (invalid_lifecycle "action identity is empty or already completed")

unfoldable pub validate_finish : Lifecycle → String → Outcome JournalError Unit
validate_finish state action_id =
    reject_if (not (is_active_as state.active action_id))
      (invalid_lifecycle "action completion does not match the active action")

unfoldable pub validate_run_finish : Lifecycle → Outcome JournalError Unit
validate_run_finish state =
    reject_if (not state.approved || is_active state.active)
      (invalid_lifecycle "run completion requires approval and no active action")

-- the `match event` of `Lifecycle::validate`
unfoldable pub validate_event : Lifecycle → JournalEvent → Outcome JournalError Unit
unfolding validate_approval validate_start validate_finish validate_run_finish
validate_event state (plan_approved plan_id plan_digest) = validate_approval state
validate_event state (action_started action_id pre_state_digest) = validate_start state action_id
validate_event state (action_finished action_id status receipt_digest) =
    validate_finish state action_id
validate_event state (run_finished result_id result_digest) = validate_run_finish state

unfoldable pub validate : Lifecycle → JournalEvent → Outcome JournalError Unit
unfolding validate_event
validate state event = do
  reject_if state.finished (invalid_lifecycle "events cannot follow run completion")
  validate_event state event

unfoldable pub accept : Lifecycle → JournalEvent → Lifecycle
accept state (plan_approved plan_id plan_digest) = record state { approved = true }
accept state (action_started action_id pre_state_digest) = record state { active = some action_id }
accept state (action_finished action_id status receipt_digest) = record state {
  stopped = not (same ActionStatus-discrete status ActionStatus.succeeded);
  completed = action_id ∷ state.completed;
  active = none;
}
accept state (run_finished result_id result_digest) = record state { finished = true }

-- The loop of `Lifecycle::from_snapshot`, over the events of the records.
unfoldable pub replay : Lifecycle → List JournalEvent → Outcome JournalError Lifecycle
unfolding validate accept
replay state [] = ok state
replay state (event ∷ events) = do validate state event; replay (accept state event) events

unfoldable pub require_resumable : Lifecycle → Outcome JournalError Unit
require_resumable state = elim state.active [
  | none ↦ done
  | some action_id ↦ err (action_recovery_required action_id)
]

unfoldable pub validate_recovery : Lifecycle → (trailing_bytes : ℕ) → Outcome JournalError Unit
unfolding require_resumable
validate_recovery state trailing_bytes = do
  reject_if (state.finished && not (trailing_bytes == 0))
      (invalid_lifecycle "bytes cannot follow run completion")
  require_resumable state
