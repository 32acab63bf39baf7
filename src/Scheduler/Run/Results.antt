-- ===== src/Scheduler/Run/Results.antt =====
-- What the results of a run say of failures, dependencies and cancellation.
use baseline_ops.Prelude.{
  ◌≡◌, refl, sym, ap, ◌∙◌, ◌⊎◌, inl, inr, Bool, true, false, none, some, List, [], ◌∷◌, ◌++◌, map,
  All, insert, arith, Option-cases,
}
use mathlib.Core.List.{append_assoc, append-nil}
use baseline_ops.Domain.Ids.{ActionId}
use baseline_ops.Domain.Primitives.{Operation}
use baseline_ops.Domain.Action.{PlannedAction}
use baseline_ops.Domain.Results.{
  ActionStatus, succeeded, findings, blocked, skipped, failed, ActionResult,
}
use baseline_ops.Scheduler.State.{
  ExecutionPolicy, ExecutionState, Environment, is_failure, dependency_failed,
}
use baseline_ops.Scheduler.Run.{execute_action, execute_order, find_action, next_outcome}

abbrev pub is_skipped : ActionStatus → Bool
is_skipped skipped = true
is_skipped succeeded = false
is_skipped findings = false
is_skipped blocked = false
is_skipped failed = false

abbrev pub HasFailed : ActionStatus → Type 0
HasFailed status = (status ≡ failed) ⊎ (status ≡ blocked)

-- Behind the first failed or blocked result everything is skipped.
abbrev pub StopsAfterFailure : List ActionResult → Type 0
StopsAfterFailure [] = Unit
StopsAfterFailure (r ∷ rs) =
    (HasFailed r.status → All (λ later. later.status ≡ skipped) rs) × StopsAfterFailure rs

is_failure-of : (status : ActionStatus) → HasFailed status → is_failure status ≡ true
is_failure-of status (inl e) = rw e
is_failure-of status (inr e) = rw e

is_skipped-eq : (status : ActionStatus) → is_skipped status ≡ true → status ≡ skipped
is_skipped-eq skipped h = refl
is_skipped-eq succeeded h = absurd (cc h)
is_skipped-eq findings h = absurd (cc h)
is_skipped-eq blocked h = absurd (cc h)
is_skipped-eq failed h = absurd (cc h)

All-is_skipped :
    (results : List ActionResult)
    → All (λ r. is_skipped r.status ≡ true) results
    → All (λ r. r.status ≡ skipped) results
All-is_skipped [] h = tt
All-is_skipped (r ∷ results) (here, rest) =
    (is_skipped-eq r.status here, All-is_skipped results rest)

module _ {W : Type 0} (env : Environment W) (policy : ExecutionPolicy) where
  -- One round of the loop.
  pub record Stepped (action : PlannedAction) (state state' : ExecutionState) : Type 0 where
    pub result : ActionResult
    pub ident : result.action_id ≡ action.id
    pub appended : state'.results ≡ state.results ++ result ∷ []
    pub recorded : state'.statuses ≡ insert action.id result.status state.statuses
    pub when_stopped : state.stopped ≡ true → is_skipped result.status ≡ true
    pub stays_stopped : state.stopped ≡ true → state'.stopped ≡ true
    pub failing :
        policy.operation ≡ Operation.apply → is_failure result.status ≡ true → state'.stopped ≡ true
    pub ran : (is_skipped result.status ≡ true) ⊎ (dependency_failed state action ≡ false)
    pub cancels : state'.cancelled ≡ true → (state.cancelled ≡ true) ⊎ (state'.stopped ≡ true)

  -- Only `record` writes results and statuses.
  untouched :
      (action : PlannedAction) (state : ExecutionState) (w : W)
      → ((next_outcome env action policy state w).1.results ≡ state.results)
        × ((next_outcome env action policy state w).1.statuses ≡ state.statuses)
  unfolding next_outcome
  untouched action state w = ground arith

  pub stepped :
      (action : PlannedAction) (state : ExecutionState) (w : W)
      → Stepped action state (execute_action env action policy state w).0
  unfolding execute_action
  stepped action state w =
      let (started_at, w₁) = env.clock w in
      let ((status, metadata), state', w₂) = next_outcome env action policy state w₁ in
      record {
        result = record {
          action_id = action.id;
          capability = action.capability;
          status = status;
          started_at = started_at;
          completed_at = (env.clock w₂).0;
          metadata = metadata;
        };
        ident = refl;
        appended = rw (untouched action state w₁).0;
        recorded = rw (untouched action state w₁).1;
        when_stopped = λ h. ground arith;
        stays_stopped = λ h. ground arith;
        failing = λ h k. ground arith;
        ran = ground arith;
        cancels = λ h. ground arith;
      }

  -- A run of the loop and the results that it adds. `Backed` is what a result says of the
  -- statuses recorded before it.
  module _ (actions : List PlannedAction) where
    pub record Ran (order : List ActionId) (state state' : ExecutionState) : Type 0 where
      pub new : List ActionResult
      pub appended : state'.results ≡ state.results ++ new
      pub idents : map (λ r. r.action_id) new ≡ order
      pub when_stopped : state.stopped ≡ true → All (λ r. is_skipped r.status ≡ true) new
      pub fail_fast : policy.operation ≡ Operation.apply → StopsAfterFailure new

    pub find_action_lem :
        (id : ActionId) (items : List PlannedAction) (action : PlannedAction)
        → find_action id items ≡ some action
        → action.id ≡ id
    unfolding find_action
    find_action_lem id [] action h = cc
    find_action_lem id (a ∷ items) action h = ground (arith, find_action_lem id items action)

    Ran-cons :
        (action : PlannedAction) (order : List ActionId) (state middle state' : ExecutionState)
        → Stepped action state middle
        → Ran order middle state'
        → Ran (action.id ∷ order) state state'
    Ran-cons action order state middle state' step rest = record {
      new = step.result ∷ rest.new;
      appended =
          rest.appended
          ∙ ap (λ l. l ++ rest.new) step.appended
          ∙ append_assoc state.results (step.result ∷ []) rest.new;
      idents = λ i. step.ident i ∷ rest.idents i;
      when_stopped = λ h. (step.when_stopped h, rest.when_stopped (step.stays_stopped h));
      fail_fast = λ a. (
        λ f.
            All-is_skipped rest.new
              (rest.when_stopped (step.failing a (is_failure-of step.result.status f))),
        rest.fail_fast a,
      );
    }

    pub execute_order-Ran :
        (order : List ActionId) (state : ExecutionState) (w : W) (state' : ExecutionState) (w' : W)
        → execute_order env actions policy order state w ≡ some (state', w')
        → Ran order state state'
    unfolding execute_order
    execute_order-Ran [] state w state' w' h =
        let same : state ≡ state' = ap (λ o. elim o [ none ↦ state | some p ↦ p.0 ]) h in
        record {
          new = [];
          appended = ap (λ s. s.results) (sym same) ∙ sym (append-nil state.results);
          idents = refl;
          when_stopped = λ k. tt;
          fail_fast = λ k. tt;
        }
    execute_order-Ran (id ∷ order) state w state' w' h =
        elim (Option-cases (find_action id actions)) [
          | inl e ↦ absurd (ground (arith, e))
          | inr (action, e) ↦
              let h' : execute_order env actions policy order
                    (execute_action env action policy state w).0
                    (execute_action env action policy state w).1
                  ≡ some (state', w') =
                rw (e, execute_order) at h in
              let rest =
                execute_order-Ran order (execute_action env action policy state w).0
                  (execute_action env action policy state w).1 state' w' h' in
              rw (find_action_lem id actions action e) at (
                Ran-cons action order state (execute_action env action policy state w).0 state'
                  (stepped action state w) rest)
        ]
