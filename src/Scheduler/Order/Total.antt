-- ===== src/Scheduler/Order/Total.antt =====
-- `topological_order` on fuel, and that it neither panics nor runs out.
use baseline_ops.Prelude.{
  ℕ, zero, suc, ◌≡◌, refl, sym, ap, ◌==◌, if◌then◌else◌, false, Option, none, some, List, [], ◌∷◌,
  map, length, length-map, replicate, is_empty, IsDistinct, Outcome, ok, err, ◌>>=◌, >>=-eq-ok,
  Holds, value_of, arith,
}
use baseline_ops.Domain.Ids.{ActionId}
use baseline_ops.Domain.Action.{PlannedAction}
use baseline_ops.Graph.Discharge.{at}
use baseline_ops.Graph.Network.{row, missing, IsNetwork}
use baseline_ops.Graph.Positions.{index_positions, length-index_positions_iff}
use baseline_ops.Graph.Invariant.{IsSound, drain_lem}
use baseline_ops.Graph.Sorted.{ready_positions, start-IsSound}
use baseline_ops.Scheduler.Index.{
  SchedulerError, DependencyIndex, ids_of, dependencies_of, incomplete_graph, action_positions,
  build, add_actions,
}
use baseline_ops.Scheduler.Loop.{order_ready, order_ready-drain}
use baseline_ops.Scheduler.Network.{index_positions-IsIndex, add_actions-IsNetwork}

-- `action_positions(actions)?` and `DependencyIndex::build(actions, &by_id)?`
unfoldable pub prepared : List PlannedAction → Outcome SchedulerError DependencyIndex
unfolding action_positions build
prepared actions = do by_id ← action_positions actions; build actions by_id

-- A position becomes ready once at most: one round more than there are actions is enough.
unfoldable pub order_index : List PlannedAction → DependencyIndex → Option (List ActionId)
unfolding order_ready ready_positions
order_index actions graph =
    order_ready actions graph.dependents (suc (length actions)) graph.pending
      (ready_positions 0 graph.pending) []

unfoldable pub checked_order :
    List PlannedAction → List ActionId → Outcome SchedulerError (List ActionId)
checked_order actions order =
    if length order == length actions then ok order else err incomplete_graph

unfoldable pub finished :
    List PlannedAction
    → Outcome SchedulerError DependencyIndex
    → Option (Outcome SchedulerError (List ActionId))
unfolding checked_order order_index
finished actions (err e) = some (err e)
finished actions (ok graph) = elim (order_index actions graph) [
  | none ↦ none
  | some order ↦ some (checked_order actions order)
]

unfoldable pub ordered_run : List PlannedAction → Option (Outcome SchedulerError (List ActionId))
unfolding finished prepared
ordered_run actions = finished actions (prepared actions)

-- What a successful preparation holds.
pub record Prepared (actions : List PlannedAction) (graph : DependencyIndex) : Type 0 where
  pub nonempty : is_empty actions ≡ false
  pub distinct : IsDistinct (ids_of actions)
  pub network : IsNetwork (ids_of actions) (dependencies_of actions) graph.dependents
  pub pending : graph.pending ≡ map (λ action. length action.depends_on) actions
  pub rows :
      add_actions
        (index_positions 0 (ids_of actions) [])
        0
        (dependencies_of actions)
        (replicate (length (ids_of actions)) [])
      ≡ ok graph.dependents

action_positions_lem :
    (actions : List PlannedAction) (positions : List (ActionId × ℕ))
    → action_positions actions ≡ ok positions
    → (is_empty actions ≡ false)
      × (length positions ≡ length actions)
      × (positions ≡ index_positions 0 (ids_of actions) [])
unfolding action_positions
action_positions_lem actions positions h = ground arith

pub prepared-Prepared :
    (actions : List PlannedAction) (graph : DependencyIndex)
    → prepared actions ≡ ok graph
    → Prepared actions graph
unfolding prepared
prepared-Prepared actions graph h =
    let (positions, first, second) =
      >>=-eq-ok (action_positions actions) (λ p. build actions p) h in
    let (dependents, third, fourth) =
      >>=-eq-ok (add_actions positions 0 (dependencies_of actions) (replicate (length actions) []))
        (λ d.
          ok
            (record { pending = map (λ action. length action.depends_on) actions; dependents = d }))
        second in
    let (nonempty, len, same) = action_positions_lem actions positions first in
    let distinct = (length-index_positions_iff (ids_of actions)).0 (
      ground (
        arith,
        len,
        same,
        length-map {0, 0} actions (λ (a : PlannedAction). a.id),
        ap (length {0} {A = ℕ × ℕ}) same,
      )) in
    let deps_length : length (dependencies_of actions) ≡ length (ids_of actions) = omega (
      arith,
      length-map {0, 0} actions (λ (a : PlannedAction). a.id),
      length-map {0, 0} actions (λ (a : PlannedAction). a.depends_on),
    ) in
    let rows : add_actions (index_positions 0 (ids_of actions) []) 0 (dependencies_of actions)
          (replicate (length (ids_of actions)) [])
        ≡ ok dependents =
      ground (
        arith,
        third,
        same,
        ap (λ n. replicate {A = List ℕ} n []) (length-map actions (λ (a : PlannedAction). a.id)),
      ) in
    let here : dependents ≡ graph.dependents = ground (arith, fourth) in
    record {
      nonempty = nonempty;
      distinct = distinct;
      network = rw here at (
          add_actions-IsNetwork (index_positions-IsIndex (ids_of actions) distinct)
            (dependencies_of actions) dependents deps_length rows);
      pending = ground (arith, fourth);
      rows = rw here at rows;
    }

pub missing_none : (ds : List ℕ) → missing [] ds ≡ length ds
missing_none [] = refl
missing_none (d ∷ ds) = ap suc (missing_none ds)

pub at-pending :
    (actions : List PlannedAction) (i : ℕ)
    → at (map (λ action. length action.depends_on) actions) i
      ≡ missing [] (row (dependencies_of actions) i)
at-pending [] i = refl
at-pending (a ∷ actions) zero = sym (missing_none a.depends_on)
at-pending (a ∷ actions) (suc i) = at-pending actions i

-- The run of the loop, and the state that it ends in.
pub record Ordered (actions : List PlannedAction) (graph : DependencyIndex) : Type 0 where
  pub left : List ℕ
  pub order : List ActionId
  pub run : order_index actions graph ≡ some order
  pub sound : IsSound (ids_of actions) (dependencies_of actions) graph.dependents left [] order

pub order_index-Ordered :
    (actions : List PlannedAction) (graph : DependencyIndex)
    → Prepared actions graph
    → Ordered actions graph
unfolding order_index
order_index-Ordered actions graph p =
    let len = length-map actions (λ a. a.id) in
    let start =
      start-IsSound p.network graph.pending (rw (p.pending, length-map, length-map) refl)
        (λ i. rw p.pending (at-pending actions i)) in
    let d =
      drain_lem p.network (suc (length actions)) graph.pending (ready_positions 0 graph.pending) []
        start (omega (arith, len)) in
    record {
      left = d.pending';
      order = d.order';
      run = ground (
        arith,
        order_ready-drain actions graph.dependents (suc (length actions)) graph.pending
            (ready_positions 0 graph.pending) [],
        d.run,
      );
      sound = d.sound;
    }

finished_total :
    (actions : List PlannedAction) (r : Outcome SchedulerError DependencyIndex)
    → prepared actions ≡ r
    → Holds (finished actions r)
unfolding finished
finished_total actions (err e) h = (err e, refl)
finished_total actions (ok graph) h =
    let o = order_index-Ordered actions graph (prepared-Prepared actions graph h) in
    (checked_order actions o.order, ground (arith, o.run))

pub ordered_run_total : (actions : List PlannedAction) → Holds (ordered_run actions)
unfolding ordered_run
ordered_run_total actions = finished_total actions (prepared actions) refl

-- `topological_order`
unfoldable pub topological_order : List PlannedAction → Outcome SchedulerError (List ActionId)
unfolding ordered_run value_of
topological_order actions = value_of (ordered_run actions) (ordered_run_total actions)
