-- ===== src/Scheduler/State.antt =====
-- rust/crates/baselineops-engine/src/scheduler.rs: the policy, the ports and the state of an
-- execution, and how an outcome changes the state.
use Prim.Native.String.{◌++◌ as text_append}
use baseline_ops.Prelude.{
  String, if◌then◌else◌, Bool, true, false, not, ◌&&◌, ◌||◌, any, Option, none, some, List, [], ◌∷◌,
  ◌++◌, lookup, insert, Outcome,
}
use baseline_ops.Domain.Ids.{ActionId, DateTime}
use baseline_ops.Domain.Json.{JsonMap, string, end, member}
use baseline_ops.Domain.Primitives.{Operation}
use baseline_ops.Domain.Action.{PlannedAction, Artifact}
use baseline_ops.Domain.Results.{
  ActionStatus, succeeded, findings, blocked, skipped, failed, ActionResult, Finding,
}
use baseline_ops.Scheduler.Index.{SchedulerError, invalid_graph, capability}

pub record ExecutionPolicy : Type 0 where
  pub operation : Operation
  pub continue_on_error : Bool

-- `self.operation == Operation::Apply`
abbrev pub is_apply : Operation → Bool
is_apply Operation.apply = true
is_apply Operation.plan = false
is_apply Operation.audit = false

unfoldable pub should_stop_after_failure : ExecutionPolicy → PlannedAction → Bool
should_stop_after_failure policy action =
    is_apply policy.operation || not (policy.continue_on_error || action.continue_on_error)

pub record ActionExecution : Type 0 where
  pub status : ActionStatus
  pub findings : List Finding
  pub artifacts : List Artifact
  pub metadata : JsonMap

pub record ExecutionSummary : Type 0 where
  pub actions : List ActionResult
  pub findings : List Finding
  pub artifacts : List Artifact
  pub cancelled : Bool

-- The ports: `ActionRunner::run`, `CancellationToken::is_cancelled` and the clock.
pub record Environment (W : Type 0) : Type 0 where
  pub run : PlannedAction → W → Outcome SchedulerError ActionExecution × W
  pub is_cancelled : W → Bool × W
  pub clock : W → DateTime × W

pub record ExecutionState : Type 0 where
  pub statuses : List (ActionId × ActionStatus)
  pub results : List ActionResult
  pub findings : List Finding
  pub artifacts : List Artifact
  pub stopped : Bool
  pub cancelled : Bool

abbrev pub new_state : ExecutionState
new_state = record {
  statuses = [];
  results = [];
  findings = [];
  artifacts = [];
  stopped = false;
  cancelled = false;
}

-- `matches!(status, Some(Failed | Blocked | Skipped))`
abbrev pub is_incomplete : Option ActionStatus → Bool
is_incomplete (some failed) = true
is_incomplete (some blocked) = true
is_incomplete (some skipped) = true
is_incomplete (some succeeded) = false
is_incomplete (some findings) = false
is_incomplete none = false

unfoldable pub dependency_failed : ExecutionState → PlannedAction → Bool
dependency_failed state action =
    any (λ dependency. is_incomplete (lookup dependency state.statuses)) action.depends_on

abbrev pub is_failure : ActionStatus → Bool
is_failure failed = true
is_failure blocked = true
is_failure skipped = false
is_failure succeeded = false
is_failure findings = false

unfoldable pub accept_execution :
    PlannedAction
    → ExecutionPolicy
    → ActionExecution
    → ExecutionState
    → (ActionStatus × JsonMap) × ExecutionState
unfolding should_stop_after_failure
accept_execution action policy execution state = (
  (execution.status, execution.metadata),
  record state {
    findings = state.findings ++ execution.findings;
    artifacts = state.artifacts ++ execution.artifacts;
    stopped =
        if is_failure execution.status && should_stop_after_failure policy action
        then true
        else state.stopped;
  },
)

-- `SchedulerError`'s `Display`
abbrev pub display : SchedulerError → String
display (invalid_graph reason) = text_append "invalid action graph: " reason
display (capability reason) = text_append "capability execution failed: " reason

unfoldable pub accept_error :
    PlannedAction
    → ExecutionPolicy
    → SchedulerError
    → ExecutionState
    → (ActionStatus × JsonMap) × ExecutionState
unfolding should_stop_after_failure
accept_error action policy error state = (
  (failed, member "engineError" (string (display error)) end),
  record state {
    stopped = if should_stop_after_failure policy action then true else state.stopped;
  },
)

-- `ExecutionState::record`
unfoldable pub record_result :
    PlannedAction
    → ActionStatus
    → JsonMap
    → (started_at completed_at : DateTime) → ExecutionState
    → ExecutionState
record_result action status metadata started_at completed_at state = record state {
  statuses = insert action.id status state.statuses;
  results =
      state.results
      ++ record {
        action_id = action.id;
        capability = action.capability;
        status = status;
        started_at = started_at;
        completed_at = completed_at;
        metadata = metadata;
      }
        ∷ [];
}

unfoldable pub finish : ExecutionState → ExecutionSummary
finish state = record {
  actions = state.results;
  findings = state.findings;
  artifacts = state.artifacts;
  cancelled = state.cancelled;
}
