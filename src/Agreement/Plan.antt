-- ===== src/Agreement/Plan.antt =====
-- The order of a valid plan, in the domain crate and in the scheduler.
use baseline_ops.Prelude.{◌≡◌, ◌↔◌, List, count, IsDistinct, All, ok, >>=-eq-ok, >>-eq-ok}
use baseline_ops.Domain.Ids.{ActionId}
use baseline_ops.Domain.Action.{PlannedAction, Plan}
use baseline_ops.Scheduler.Index.{ids_of}
use baseline_ops.Scheduler.Order.{topological_order}
use baseline_ops.Scheduler.Order.Laws.{IsDependencyOrder, topological_order-sorts}
use baseline_ops.Validate.Identity.{Canonical}
use baseline_ops.Validate.Plan.{
  validate_planned_action, validate_planned_actions, validate_structure,
  validate_plan_static_fields, validate_plan_observation_bindings,
}
use baseline_ops.Agreement.Laws.{agreement}

module _ (c : Canonical) where
  -- The domain checks return an order of planned actions exactly when the scheduler returns the
  -- same order, every action is valid by itself, and no action names a dependency twice.
  pub validate_planned_actions-topological_order :
      (actions : List PlannedAction) (order : List ActionId)
      → (validate_planned_actions c actions ≡ ok order) ↔ (
          (topological_order actions ≡ ok order)
          × All (λ a. validate_planned_action a ≡ ok tt) actions
          × All (λ a. IsDistinct a.depends_on) actions)
  unfolding validate_planned_actions
  validate_planned_actions-topological_order actions order =
      agreement c.show_action validate_planned_action actions order

  -- The order of a plan whose structure is valid is the order in which the scheduler runs it: it
  -- holds each action once, and every dependency before the action that declares it.
  pub validate_structure-topological_order :
      (plan : Plan) (order : List ActionId)
      → validate_structure c plan ≡ ok order
      → (topological_order plan.actions ≡ ok order)
        × ((x : ActionId) → count x order ≡ count x (ids_of plan.actions))
        × IsDistinct order
        × IsDependencyOrder plan.actions order
  unfolding validate_structure
  validate_structure-topological_order plan order h =
      let (_, h') = >>-eq-ok (validate_plan_static_fields c plan) _ h in
      let (order', first, h'') = >>=-eq-ok (validate_planned_actions c plan.actions) _ h' in
      let (_, h''') = >>-eq-ok (validate_plan_observation_bindings c plan) _ h'' in
      let same : validate_planned_actions c plan.actions ≡ ok order = cc (first, h''') in
      let (ordered, _, _) =
        (validate_planned_actions-topological_order plan.actions order).0 same in
      let (counts, distinct, dependencies) = topological_order-sorts plan.actions order ordered in
      (ordered, counts, distinct, dependencies)
