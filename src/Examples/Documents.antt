-- ===== src/Examples/Documents.antt =====
-- The checks at concrete documents.
use baseline_ops.Prelude.{
  ℕ, ◌+◌, ◌≤◌, ◌≡◌, ◌↔◌, refl, List, [], ◌∷◌, map, has, keys, count, IsDistinct, All, ok,
  value_of-eq,
}
use baseline_ops.Domain.Ids.{ActionId}
use baseline_ops.Domain.Json.{string, array, cons, nil, end, member}
use baseline_ops.Scheduler.Index.{ids_of}
use baseline_ops.Scheduler.Order.{topological_order}
use baseline_ops.Scheduler.Order.Laws.{IsDependencyOrder}
use baseline_ops.Validate.Json.{max_nodes, validate_value, validate_json_map}
use baseline_ops.Validate.Json.Bounds.{
  size, IsBounded, IsBoundedMap, validate_value_iff, validate_json_map_iff,
}
use baseline_ops.Validate.Graph.Total.{graph_run, graph_run_total}
use baseline_ops.Validate.Plan.{
  validate_planned_action, validate_planned_actions, validate_structure,
  validate_plan_observation_bindings, verify_for_execution,
}
use baseline_ops.Validate.Plan.Laws.{IsCurrent, verify_for_execution_iff}
use baseline_ops.Validate.Plan.Observations.{IsBound, validate_plan_observation_bindings_lem}
use baseline_ops.Validate.Evidence.Results.{IsReport, validate_result_iff}
use baseline_ops.Validate.Evidence.{validate_result, validate_artifacts}
use baseline_ops.Validate.Evidence.Laws.{IsArtifact, validate_artifacts_iff}
use baseline_ops.Validate.Worker.{validate_worker_result}
use baseline_ops.Validate.Worker.Laws.{IsConsistent, validate_worker_result_iff}
use baseline_ops.Agreement.Plan.{
  validate_planned_actions-topological_order, validate_structure-topological_order,
}
use baseline_ops.Examples.Samples.{
  two_actions, canonical, plan, context, artifact, run_result, worker_result,
}

validate_value_iff_example : (validate_value (array (cons (string "a") nil)) 16 4094 ≡ ok 4096) ↔ (
    IsBounded 16 (array (cons (string "a") nil))
    × (4096 ≡ 4094 + size (array (cons (string "a") nil)))
    × (4096 ≤ max_nodes))
validate_value_iff_example = validate_value_iff (array (cons (string "a") nil)) 16 4094 4096

validate_json_map_iff_example :
    (validate_json_map "facts" (member "mode" (string "strict") end) ≡ ok tt)
    ↔ IsBoundedMap (member "mode" (string "strict") end)
validate_json_map_iff_example = validate_json_map_iff "facts" (member "mode" (string "strict") end)

validate_planned_actions-topological_order_example :
    (validate_planned_actions canonical two_actions ≡ ok (9 ∷ 7 ∷ [])) ↔ (
      (topological_order two_actions ≡ ok (9 ∷ 7 ∷ []))
      × All (λ a. validate_planned_action a ≡ ok tt) two_actions
      × All (λ a. IsDistinct a.depends_on) two_actions)
validate_planned_actions-topological_order_example =
    validate_planned_actions-topological_order canonical two_actions (9 ∷ 7 ∷ [])

plan_actions_order : validate_planned_actions canonical two_actions ≡ ok (9 ∷ 7 ∷ [])
unfolding validate_planned_actions graph_run baseline_ops.Graph.discharge validate_planned_action
    baseline_ops.Validate.Text.validate_nonempty baseline_ops.Validate.Text.is_blank
    validate_json_map validate_value
plan_actions_order =
    value_of-eq
      (graph_run canonical.show_action (λ action. action.id) (λ action. action.depends_on)
        validate_planned_action two_actions)
      (graph_run_total canonical.show_action (λ action. action.id) (λ action. action.depends_on)
        validate_planned_action two_actions)
      refl

pub plan_structure : validate_structure canonical plan ≡ ok (9 ∷ 7 ∷ [])
unfolding validate_structure baseline_ops.Validate.Text.validate_nonempty
    baseline_ops.Validate.Text.is_blank validate_json_map baseline_ops.Prelude.String-discrete
plan_structure = rw plan_actions_order refl

validate_structure-topological_order_example :
    (topological_order two_actions ≡ ok (9 ∷ 7 ∷ []))
    × ((x : ActionId) → count x (9 ∷ 7 ∷ []) ≡ count x (ids_of two_actions))
    × IsDistinct (9 ∷ 7 ∷ [])
    × IsDependencyOrder two_actions (9 ∷ 7 ∷ [])
validate_structure-topological_order_example =
    validate_structure-topological_order canonical plan (9 ∷ 7 ∷ []) plan_structure

verify_for_execution_iff_example : (verify_for_execution canonical plan context ≡ ok plan) ↔ (
    (plan ≡ plan)
    × ((order : List ActionId) × (validate_structure canonical plan ≡ ok order))
    × IsCurrent plan context)
verify_for_execution_iff_example = verify_for_execution_iff canonical plan context plan

plan_bindings : validate_plan_observation_bindings canonical plan ≡ ok tt
unfolding validate_plan_observation_bindings baseline_ops.Prelude.String-discrete
plan_bindings = refl

validate_plan_observation_bindings_lem_example :
    All (IsBound canonical plan plan.observed_state.digest plan.observed_state.values) plan.actions
    × IsDistinct (map (λ a. a.source_step) plan.actions)
    × ((step : ActionId)
        → has step (keys plan.observed_state.values)
          ≡ has step (map (λ a. a.source_step) plan.actions))
validate_plan_observation_bindings_lem_example =
    validate_plan_observation_bindings_lem canonical plan plan_bindings

validate_artifacts_iff_example :
    (validate_artifacts (artifact ∷ []) ≡ ok tt)
    ↔ (IsDistinct (map (λ a. a.id) (artifact ∷ [])) × All IsArtifact (artifact ∷ []))
validate_artifacts_iff_example = validate_artifacts_iff (artifact ∷ [])

validate_worker_result_iff_example :
    (validate_worker_result worker_result ≡ ok tt) ↔ IsConsistent worker_result
validate_worker_result_iff_example = validate_worker_result_iff worker_result

validate_result_iff_example :
    (validate_result canonical run_result ≡ ok tt) ↔ IsReport canonical run_result
validate_result_iff_example = validate_result_iff canonical run_result
