-- ===== src/Scheduler/Run.antt =====
-- rust/crates/baselineops-engine/src/scheduler.rs: the sequential execution of ordered actions. What
-- lies outside (the capability runner, the cancellation flag that another thread may set, the clock)
-- is a parameter over a state of the world.
pub mod Results
pub mod Backed
pub mod Calls
pub mod Laws
use Prim.Native.String.{◌++◌ as text_append}
use baseline_ops.Prelude.{
  ℕ, suc, String, ◌==◌, if◌then◌else◌, Bool, true, false, not, ◌&&◌, ◌||◌, any, Option, none, some,
  List, [], ◌∷◌, ◌++◌, lookup, insert, Outcome, ok, err, same,
}
use baseline_ops.Domain.Ids.{ActionId, DateTime}
use baseline_ops.Domain.Json.{JsonMap, string, end, member}
use baseline_ops.Domain.Primitives.{Operation, Operation-discrete}
use baseline_ops.Domain.Action.{PlannedAction, Artifact}
use baseline_ops.Domain.Results.{
  ActionStatus, succeeded, findings, blocked, skipped, failed, ActionResult, Finding,
}
use baseline_ops.Scheduler.Index.{SchedulerError, invalid_graph, capability}
use baseline_ops.Scheduler.Order.{topological_order}
use baseline_ops.Scheduler.State.{
  ActionExecution, Environment, ExecutionPolicy, ExecutionState, ExecutionSummary, accept_error,
  accept_execution, dependency_failed, display, finish, is_apply, is_failure, is_incomplete,
  new_state, record_result, should_stop_after_failure,
}

-- `by_id[&action_id]`, and the `find` of orchestrator.rs. Which of two actions with one identifier
-- the map would keep does not matter: an order exists only where no identifier stands twice.
unfoldable pub find_action : ActionId → List PlannedAction → Option PlannedAction
find_action id [] = none
find_action id (action ∷ actions) = if id == action.id then some action else find_action id actions

module _ {W : Type 0} (env : Environment W) where
  -- the `match runner.run(action, cancellation)`
  unfoldable pub dispatch :
      PlannedAction
      → ExecutionPolicy
      → ExecutionState
      → W
      → (ActionStatus × JsonMap) × ExecutionState × W
  unfolding accept_execution accept_error
  dispatch action policy state w =
      let (answer, w') = env.run action w in
      elim answer [
        | ok execution ↦
            let (outcome, state') = accept_execution action policy execution state in
            (outcome, state', w')
        | err error ↦
            let (outcome, state') = accept_error action policy error state in (outcome, state', w')
      ]

  unfoldable pub next_outcome :
      PlannedAction
      → ExecutionPolicy
      → ExecutionState
      → W
      → (ActionStatus × JsonMap) × ExecutionState × W
  unfolding dependency_failed dispatch
  next_outcome action policy state w =
      let (stop, w') = env.is_cancelled w in
      if stop
      then ((skipped, end), record state { cancelled = true; stopped = true }, w')
      else if state.stopped || dependency_failed state action
      then ((skipped, end), state, w')
      else dispatch action policy state w'

  -- one round of the loop of `execute_actions`
  unfoldable pub execute_action :
      PlannedAction → ExecutionPolicy → ExecutionState → W → ExecutionState × W
  unfolding next_outcome record_result
  execute_action action policy state w =
      let (started_at, w₁) = env.clock w in
      let ((status, metadata), state', w₂) = next_outcome action policy state w₁ in
      let (completed_at, w₃) = env.clock w₂ in
      (record_result action status metadata started_at completed_at state', w₃)

  -- `for action_id in order`; an identifier without an action is a panic.
  unfoldable pub execute_order :
      List PlannedAction
      → ExecutionPolicy
      → List ActionId
      → ExecutionState
      → W
      → Option (ExecutionState × W)
  unfolding find_action execute_action
  execute_order actions policy [] state w = some (state, w)
  execute_order actions policy (action_id ∷ order) state w = elim (find_action action_id actions) [
    | none ↦ none
    | some action ↦
        let (state', w') = execute_action action policy state w in
        execute_order actions policy order state' w'
  ]

  unfoldable pub execute_from :
      List PlannedAction
      → ExecutionPolicy
      → Outcome SchedulerError (List ActionId)
      → W
      → Option (Outcome SchedulerError ExecutionSummary × W)
  unfolding execute_order finish
  execute_from actions policy (err error) w = some (err error, w)
  execute_from actions policy (ok order) w = elim (execute_order actions policy order new_state w) [
    | none ↦ none
    | some (state, w') ↦ some (ok (finish state), w')
  ]

  unfoldable pub execute_actions :
      List PlannedAction
      → ExecutionPolicy
      → W
      → Option (Outcome SchedulerError ExecutionSummary × W)
  unfolding execute_from
  execute_actions actions policy w = execute_from actions policy (topological_order actions) w
