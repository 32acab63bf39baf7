-- ===== src/Scheduler/Index.antt =====
-- rust/crates/baselineops-engine/src/scheduler/order.rs: `action_positions` and the dependency index.
use baseline_ops.Prelude.{
  ℕ, suc, ◌==◌, if◌then◌else◌, String, List, [], ◌∷◌, ◌++◌, map, length, replicate, set, is_empty,
  lookup, Outcome, ok, err, ok_or, ◌>>=◌,
}
use baseline_ops.Domain.Ids.{ActionId}
use baseline_ops.Domain.Action.{PlannedAction}
use baseline_ops.Graph.Network.{row}
use baseline_ops.Graph.Positions.{index_positions}

-- scheduler.rs
pub data SchedulerError : Type 0 where
  invalid_graph : String → SchedulerError
  capability : String → SchedulerError

abbrev pub ids_of : List PlannedAction → List ActionId
ids_of actions = map (λ action. action.id) actions

abbrev pub dependencies_of : List PlannedAction → List (List ActionId)
dependencies_of actions = map (λ action. action.depends_on) actions

abbrev pub incomplete_graph : SchedulerError
incomplete_graph = invalid_graph "dependencies are missing or cyclic"

unfoldable pub action_positions : List PlannedAction → Outcome SchedulerError (List (ActionId × ℕ))
unfolding index_positions
action_positions actions =
    if is_empty actions
    then err (invalid_graph "no actions were supplied")
    else (let positions = index_positions 0 (ids_of actions) [] in
        if length positions == length actions
        then ok positions
        else err (invalid_graph "duplicate action IDs"))

pub record DependencyIndex : Type 0 where
  pub pending : List ℕ
  pub dependents : List (List ℕ)

-- `index.dependents[parent].push(position)`
abbrev pub push : List (List ℕ) → ℕ → ℕ → List (List ℕ)
push dependents parent position = set dependents parent (row dependents parent ++ position ∷ [])

unfoldable pub add_dependencies :
    List (ActionId × ℕ) → ℕ → List ActionId → List (List ℕ) → Outcome SchedulerError (List (List ℕ))
add_dependencies positions position [] dependents = ok dependents
add_dependencies positions position (dependency ∷ rest) dependents = do
  parent ← ok_or (lookup dependency positions) incomplete_graph
  add_dependencies positions position rest (push dependents parent position)

unfoldable pub add_actions :
    List (ActionId × ℕ)
    → ℕ
    → List (List ActionId)
    → List (List ℕ)
    → Outcome SchedulerError (List (List ℕ))
add_actions positions position [] dependents = ok dependents
add_actions positions position (depends_on ∷ rest) dependents = do
  dependents' ← add_dependencies positions position depends_on dependents
  add_actions positions (suc position) rest dependents'

-- `DependencyIndex::build`
unfoldable pub build :
    List PlannedAction → List (ActionId × ℕ) → Outcome SchedulerError DependencyIndex
unfolding add_actions add_dependencies
build actions positions = do
  dependents ← add_actions positions 0 (dependencies_of actions) (replicate (length actions) [])
  ok (record {
    pending = map (λ action. length action.depends_on) actions;
    dependents = dependents;
  })
