-- ===== src/Examples/Scheduling.antt =====
-- The scheduler at concrete actions.
use baseline_ops.Prelude.{
  ℕ, err, ◌≡◌, ◌↔◌, refl, List, [], ◌∷◌, map, count, IsDistinct, is_empty, false, Holds, some, ok,
  value_of-eq,
}
use baseline_ops.Domain.Ids.{ActionId}
use baseline_ops.Domain.Json.{end, member, string}
use baseline_ops.Domain.Results.{ActionStatus}
use baseline_ops.Scheduler.Index.{ids_of, capability}
use baseline_ops.Scheduler.Order.{topological_order}
use baseline_ops.Scheduler.Order.Total.{ordered_run, ordered_run_total}
use baseline_ops.Scheduler.Order.Laws.{
  IsDependencyOrder, IsAcyclic, topological_order-sorts, topological_order_accepts,
}
use baseline_ops.Scheduler.State.{ExecutionSummary}
use baseline_ops.Scheduler.Run.{execute_actions}
use baseline_ops.Scheduler.Run.Calls.{Logged, logged, OnlyLastMayFail}
use baseline_ops.Scheduler.Run.Results.{StopsAfterFailure}
use baseline_ops.Scheduler.Run.Backed.{AreBacked}
use baseline_ops.Scheduler.Run.Laws.{
  execute_actions_total, execute_actions-reports_all, execute_actions-stops,
  execute_actions-AreBacked,
}
use baseline_ops.Examples.Samples.{action_with, two_actions, failing_on, apply_policy}

pub two_actions_order : topological_order two_actions ≡ ok (9 ∷ 7 ∷ [])
unfolding topological_order ordered_run baseline_ops.Graph.discharge
two_actions_order = value_of-eq (ordered_run two_actions) (ordered_run_total two_actions) refl

topological_order-sorts_example :
    ((x : ActionId) → count x (9 ∷ 7 ∷ []) ≡ count x (ids_of two_actions))
    × IsDistinct (9 ∷ 7 ∷ [])
    × IsDependencyOrder two_actions (9 ∷ 7 ∷ [])
topological_order-sorts_example = topological_order-sorts two_actions (9 ∷ 7 ∷ []) two_actions_order

topological_order_accepts_example :
    ((order : List ActionId) × (topological_order two_actions ≡ ok order))
    ↔ ((is_empty two_actions ≡ false) × IsDistinct (ids_of two_actions) × IsAcyclic two_actions)
topological_order_accepts_example = topological_order_accepts two_actions

-- The action 9 fails, so that the action 7 is skipped.
abbrev failed_summary : ExecutionSummary
failed_summary = record {
  actions =
      record {
        action_id = 9;
        capability = "windows.update";
        status = ActionStatus.failed;
        started_at = 0;
        completed_at = 1;
        metadata = member "engineError" (string "capability execution failed: access denied") end;
      }
      ∷ record {
        action_id = 7;
        capability = "windows.update";
        status = ActionStatus.skipped;
        started_at = 2;
        completed_at = 3;
        metadata = end;
      }
      ∷ [];
  findings = [];
  artifacts = [];
  cancelled = false;
}

failed_run : execute_actions (failing_on 9) two_actions apply_policy 0 ≡ some (ok failed_summary, 4)
unfolding execute_actions
failed_run = rw two_actions_order refl

execute_actions_total_example : Holds (execute_actions (failing_on 9) two_actions apply_policy 0)
execute_actions_total_example = execute_actions_total (failing_on 9) apply_policy two_actions 0

execute_actions-reports_all_example :
    (order : List ActionId) × (topological_order two_actions ≡ ok order)
    × (map (λ r. r.action_id) failed_summary.actions ≡ order)
execute_actions-reports_all_example =
    execute_actions-reports_all (failing_on 9) apply_policy two_actions 0 4 failed_summary
      failed_run

-- The only call of the runner.
abbrev logged_call : Logged ℕ
logged_call = record {
  world = 4;
  calls = (action_with 9 [], err (capability "access denied")) ∷ [];
}

logged_run :
    execute_actions
      (logged (failing_on 9))
      two_actions
      apply_policy
      (record { world = 0; calls = [] })
    ≡ some (ok failed_summary, logged_call)
unfolding execute_actions
logged_run = rw two_actions_order refl

execute_actions-stops_example :
    OnlyLastMayFail logged_call.calls × StopsAfterFailure failed_summary.actions
execute_actions-stops_example =
    execute_actions-stops (failing_on 9) apply_policy two_actions 0 logged_call failed_summary refl
      logged_run

-- Nothing fails.
abbrev finished_summary : ExecutionSummary
finished_summary = record {
  actions =
      record {
        action_id = 9;
        capability = "windows.update";
        status = ActionStatus.succeeded;
        started_at = 0;
        completed_at = 1;
        metadata = end;
      }
      ∷ record {
        action_id = 7;
        capability = "windows.update";
        status = ActionStatus.succeeded;
        started_at = 2;
        completed_at = 3;
        metadata = end;
      }
      ∷ [];
  findings = [];
  artifacts = [];
  cancelled = false;
}

finished_run :
    execute_actions (failing_on 1) two_actions apply_policy 0 ≡ some (ok finished_summary, 4)
unfolding execute_actions
finished_run = rw two_actions_order refl

execute_actions-AreBacked_example : AreBacked two_actions [] finished_summary.actions
execute_actions-AreBacked_example =
    execute_actions-AreBacked (failing_on 1) apply_policy two_actions 0 4 finished_summary
      finished_run
