-- ===== src/Scheduler/Run/Calls.antt =====
-- The calls that an execution makes of its runner.
use baseline_ops.Prelude.{
  ◌≡◌, ◌≢◌, ◌||◌, Bool-cases, Option-cases, inl, inr, true, false, some, List, [], ◌∷◌, All,
  Outcome, ok, err, arith,
}
use baseline_ops.Domain.Ids.{ActionId}
use baseline_ops.Domain.Primitives.{Operation}
use baseline_ops.Domain.Action.{PlannedAction}
use baseline_ops.Domain.Results.{ActionStatus, succeeded, findings, blocked, skipped, failed}
use baseline_ops.Scheduler.Index.{SchedulerError}
use baseline_ops.Scheduler.State.{
  ActionExecution, Environment, ExecutionPolicy, ExecutionState, ExecutionSummary, new_state,
  is_failure, should_stop_after_failure, dependency_failed, accept_execution, accept_error,
  record_result,
}
use baseline_ops.Scheduler.Run.{
  dispatch, next_outcome, execute_action, execute_order, execute_from, find_action,
}

-- An action that the runner was called with, and its answer.
abbrev pub Call : Type 0
Call = PlannedAction × Outcome SchedulerError ActionExecution

pub record Logged (W : Type 0) : Type 0 where
  pub world : W
  pub calls : List Call

-- The environment with every call of its runner put down, the latest first.
abbrev pub logged : {W : Type 0} → Environment W → Environment (Logged W)
logged env = record {
  run = λ action s.
      let r = env.run action s.world in
      (r.0, record { world = r.1; calls = (action, r.0) ∷ s.calls });
  is_cancelled =
      λ s. let r = env.is_cancelled s.world in (r.0, record { world = r.1; calls = s.calls });
  clock = λ s. let r = env.clock s.world in (r.0, record { world = r.1; calls = s.calls });
}

-- The runner answered, and neither with a failure nor with a block.
abbrev pub HasSucceeded : Call → Type 0
HasSucceeded (action, err error) = ⊥
HasSucceeded (action, ok execution) = (execution.status ≢ failed) × (execution.status ≢ blocked)

-- Every call but the latest succeeded.
abbrev pub OnlyLastMayFail : List Call → Type 0
OnlyLastMayFail [] = Unit
OnlyLastMayFail (latest ∷ earlier) = All HasSucceeded earlier

succeeded_of :
    (status : ActionStatus) → is_failure status ≡ false → (status ≢ failed) × (status ≢ blocked)
succeeded_of succeeded h = (λ e. cc, λ e. cc)
succeeded_of findings h = (λ e. cc, λ e. cc)
succeeded_of skipped h = (λ e. cc, λ e. cc)
succeeded_of failed h = absurd (cc h)
succeeded_of blocked h = absurd (cc h)

-- While the execution goes on every call succeeded.
abbrev IsLogged : ExecutionState → List Call → Type 0
IsLogged state calls = (state.stopped ≡ false → All HasSucceeded calls) × OnlyLastMayFail calls

module _ {W : Type 0} (env : Environment W) (policy : ExecutionPolicy)
    (applies : policy.operation ≡ Operation.apply) where
  stops_always : (action : PlannedAction) → should_stop_after_failure policy action ≡ true
  unfolding should_stop_after_failure
  stops_always action = ground (arith, applies)

  dispatch-IsLogged :
      (action : PlannedAction) (state : ExecutionState) (s : Logged W)
      → All HasSucceeded s.calls
      → (let r = dispatch (logged env) action policy state s in IsLogged r.1 r.2.calls)
  unfolding dispatch accept_execution accept_error
  dispatch-IsLogged action state s before = go (env.run action s.world)
    where
      go :
          (r : Outcome SchedulerError ActionExecution × W)
          → (let answered =
                dispatch
                  (record (logged env) {
                    run = λ a t. (r.0, record { world = r.1; calls = (a, r.0) ∷ t.calls });
                  })
                  action
                  policy
                  state
                  s in
              IsLogged answered.1 answered.2.calls)
      go (err error, w) = (λ h. absurd (ground (arith, h, stops_always action)), before)
      go (ok execution, w) = (
        λ h.
            let good : is_failure execution.status ≡ false =
              ground (arith, h, stops_always action) in
            (succeeded_of execution.status good, before),
        before,
      )

  next_outcome-IsLogged :
      (action : PlannedAction) (state : ExecutionState) (s : Logged W)
      → IsLogged state s.calls
      → (let r = next_outcome (logged env) action policy state s in IsLogged r.1 r.2.calls)
  unfolding next_outcome
  next_outcome-IsLogged action state s so_far = elim (Bool-cases (env.is_cancelled s.world).0) [
    | inl stop ↦ rw stop (λ h. absurd (cc h), so_far.1)
    | inr goes ↦ elim (Bool-cases (state.stopped || dependency_failed state action)) [
      | inl skip ↦ rw (goes, skip) so_far
      | inr run ↦
          let open_yet : state.stopped ≡ false = ground (arith, run) in
          rw (goes, run)
            (dispatch-IsLogged action state
              (record { world = (env.is_cancelled s.world).1; calls = s.calls })
              (so_far.0 open_yet))
    ]
  ]

  execute_action-IsLogged :
      (action : PlannedAction) (state : ExecutionState) (s : Logged W)
      → IsLogged state s.calls
      → (let r = execute_action (logged env) action policy state s in IsLogged r.0 r.1.calls)
  unfolding execute_action record_result
  execute_action-IsLogged action state s so_far =
      next_outcome-IsLogged action state (record { world = (env.clock s.world).1; calls = s.calls })
        so_far

  execute_order-IsLogged :
      (actions : List PlannedAction) (order : List ActionId) (state : ExecutionState) (s : Logged W)
      {state' : ExecutionState} {s' : Logged W}
      → IsLogged state s.calls
      → execute_order (logged env) actions policy order state s ≡ some (state', s')
      → OnlyLastMayFail s'.calls
  unfolding execute_order
  execute_order-IsLogged actions [] state s {state'} {s'} so_far h =
      let same : s ≡ s' = cc h in rw (← same) so_far.1
  execute_order-IsLogged actions (id ∷ order) state s so_far h =
      elim (Option-cases (find_action id actions)) [
        | inl e ↦ absurd (ground (arith, e))
        | inr (action, e) ↦
            let r = execute_action (logged env) action policy state s in
            execute_order-IsLogged actions order r.0 r.1
              (execute_action-IsLogged action state s so_far) (rw (e, execute_order) at h)
      ]

  pub execute_from-OnlyLastMayFail :
      (actions : List PlannedAction) (r : Outcome SchedulerError (List ActionId)) (w : W)
      {summary : ExecutionSummary} {s' : Logged W}
      → execute_from (logged env) actions policy r (record { world = w; calls = [] })
        ≡ some (ok summary, s')
      → OnlyLastMayFail s'.calls
  unfolding execute_from
  execute_from-OnlyLastMayFail actions (err error) w h = absurd (cc h)
  execute_from-OnlyLastMayFail actions (ok order) w {summary} {s'} h =
      let s : Logged W = record { world = w; calls = [] } in
      elim (Option-cases (execute_order (logged env) actions policy order new_state s)) [
        | inl e ↦ absurd (ground (arith, e))
        | inr ((state, s''), e) ↦
            let same : s'' ≡ s' = ground (arith, e, h) in
            rw (← same) (execute_order-IsLogged actions order new_state s (λ _. tt, tt) e)
      ]
