-- ===== src/Scheduler/Order/Laws.antt =====
-- What `topological_order` promises its callers.
use baseline_ops.Prelude.{
  ℕ, zero, suc, ◌<◌, ◌≡◌, refl, ap, ◌↔◌, true, false, some, List, [], ◌∷◌, map, length, length-map,
  is_empty, has, count, IsDistinct, Subset-full, length-le_of_subset, Outcome, ok, err, value_of-eq,
  value_of_run, arith, replicate,
}
use baseline_ops.Domain.Ids.{ActionId}
use baseline_ops.Domain.Action.{PlannedAction}
use baseline_ops.Graph.Discharge.{at}
use baseline_ops.Graph.Network.{row, missing-zero, has-at}
use baseline_ops.Graph.Edges.{
  before, EveryEdge, EveryEdge-at, EveryEdge-of_at, IsOrdered-before, length-before, has-before,
}
use baseline_ops.Graph.Invariant.{IsSound}
use baseline_ops.Graph.Positions.{length-index_positions_iff}
use baseline_ops.Graph.Sorted.{full_counts, reached_all}
use baseline_ops.Scheduler.Index.{SchedulerError, DependencyIndex, ids_of, dependencies_of}
use baseline_ops.Scheduler.Network.{index_positions-IsIndex, add_actions_total}
use baseline_ops.Scheduler.Order.{topological_order}
use baseline_ops.Scheduler.Order.Total.{
  ordered_run, ordered_run_total, prepared, finished, checked_order, order_index, Prepared,
  prepared-Prepared, order_index-Ordered,
}

-- Every dependency stands before the action that declares it.
abbrev pub IsDependencyOrder : List PlannedAction → List ActionId → Type 0
IsDependencyOrder actions order =
    EveryEdge (λ a. a.id) (λ a. a.depends_on) (λ x d. has d (before x order) ≡ true) actions

-- Every dependency is one of the actions, and ranks fall along the dependencies.
abbrev pub IsAcyclic : List PlannedAction → Type 0
IsAcyclic actions =
    (rank : ActionId → ℕ) × EveryEdge (λ a. a.id) (λ a. a.depends_on)
      (λ x d. (has d (ids_of actions) ≡ true) × (rank d < rank x)) actions

module _ (actions : List PlannedAction) where
  -- A successful run, taken apart.
  pub record Success (order : List ActionId) : Type 0 where
    pub graph : DependencyIndex
    pub preparation : Prepared actions graph
    pub left : List ℕ
    pub sound : IsSound (ids_of actions) (dependencies_of actions) graph.dependents left [] order
    pub run : order_index actions graph ≡ some order
    pub full : length order ≡ length (ids_of actions)

  Success-of :
      (r : Outcome SchedulerError DependencyIndex) (order : List ActionId)
      → prepared actions ≡ r
      → finished actions r ≡ some (ok order)
      → Success order
  unfolding finished
  Success-of (err e) order h k = cc
  Success-of (ok graph) order h k =
      let p = prepared-Prepared actions graph h in
      let o = order_index-Ordered actions graph p in
      let checked : checked_order actions o.order ≡ ok order = ground (arith, k, o.run) in
      let same : o.order ≡ order = ground (arith, checked) in
      record {
        graph = graph;
        preparation = p;
        left = o.left;
        sound = rw same at o.sound;
        run = rw same at o.run;
        full = ground (
          arith,
          checked,
          length-map {0, 0} actions (λ (a : PlannedAction). a.id),
          ap (length {A = ActionId}) same,
        );
      }

  pub success : (order : List ActionId) → topological_order actions ≡ ok order → Success order
  unfolding ordered_run
  success order h = Success-of (prepared actions) order refl (
      unfold topological_order in
      ground (arith, h, value_of_run (ordered_run actions) (ordered_run_total actions)))

  Success-before : (order : List ActionId) → Success order → IsDependencyOrder actions order
  Success-before order w =
      let whole = Subset-full order (ids_of actions) w.sound.distinct w.sound.known w.full in
      EveryEdge-of_at (λ a. a.id) (λ a. a.depends_on) (λ x d. has d (before x order) ≡ true) actions
        λ i d lt e.
          let lt' = rw (← length-map actions (λ a. a.id)) at lt in
          missing-zero (before (at (ids_of actions) i) order) (row (dependencies_of actions) i) d
            (IsOrdered-before (ids_of actions) (dependencies_of actions) [] order
              (before (at (ids_of actions) i) order) i w.sound.ordered lt'
              (whole (at (ids_of actions) i) (has-at (ids_of actions) i lt')) (λ z. refl))
            e

  -- An order that is returned holds each action exactly as often as it was given, which is once,
  -- and every dependency of an action stands before the action.
  pub topological_order-sorts :
      (order : List ActionId)
      → topological_order actions ≡ ok order
      → ((x : ActionId) → count x order ≡ count x (ids_of actions))
        × IsDistinct order
        × IsDependencyOrder actions order
  topological_order-sorts order h =
      let w = success order h in
      (full_counts w.preparation.network w.sound w.full, w.sound.distinct, Success-before order w)

  pub position-row : (i d : ℕ) → has d (row (dependencies_of actions) i) ≡ true → i < length actions
  position-row = go actions
    where
      go :
          (items : List PlannedAction) (i d : ℕ)
          → has d (row (dependencies_of items) i) ≡ true
          → i < length items
      go [] i d h = cc
      go (a ∷ items) zero d h = omega arith
      go (a ∷ items) (suc i) d h = omega (arith, go items i d h)

  pub prepared_of :
      is_empty actions ≡ false
      → IsDistinct (ids_of actions)
      → ((i d : ℕ) → has d (row (dependencies_of actions) i) ≡ true → has d (ids_of actions) ≡ true)
      → (graph : DependencyIndex) × (prepared actions ≡ ok graph)
  unfolding prepared
  prepared_of nonempty distinct known =
      let index = index_positions-IsIndex (ids_of actions) distinct in
      let (dependents, run) =
        add_actions_total index 0 (dependencies_of actions) (replicate (length actions) []) known in
      (
        record {
          pending = map (λ action. length action.depends_on) actions;
          dependents = dependents;
        },
        ground (
          arith,
          nonempty,
          run,
          (length-index_positions_iff (ids_of actions)).1 distinct,
          length-map {0, 0} actions (λ (a : PlannedAction). a.id),
        ),
      )

  order_of :
      is_empty actions ≡ false
      → IsDistinct (ids_of actions)
      → IsAcyclic actions
      → (order : List ActionId) × (topological_order actions ≡ ok order)
  unfolding topological_order finished
  order_of nonempty distinct (rank, falls) =
      let falls_at =
        EveryEdge-at (λ a. a.id) (λ a. a.depends_on)
          (λ x d. (has d (ids_of actions) ≡ true) × (rank d < rank x)) actions in
      let (graph, run) =
        prepared_of nonempty distinct (λ i d e. (falls_at i d falls (position-row i d e) e).0) in
      let p = prepared-Prepared actions graph run in
      let o = order_index-Ordered actions graph p in
      let all =
        reached_all p.network o.sound rank
          (λ i d lt e. falls_at i d falls (position-row i d e) e) in
      let more = length-le_of_subset (ids_of actions) o.order distinct all in
      let less = length-le_of_subset o.order (ids_of actions) o.sound.distinct o.sound.known in
      let len = length-map actions (λ a. a.id) in
      let full : length o.order ≡ length actions = omega (arith, more, less, len) in
      (
        o.order,
        value_of-eq (ordered_run actions) (ordered_run_total actions)
            (rw run (ground (arith, o.run, full))),
      )

  pub IsAcyclic-of : (order : List ActionId) → Success order → IsAcyclic actions
  IsAcyclic-of order w = (
    λ x. length (before x order),
    EveryEdge-of_at (λ a. a.id) (λ a. a.depends_on)
        (λ x d.
          (has d (ids_of actions) ≡ true) × (length (before d order) < length (before x order)))
        actions
        λ i d lt e.
          let earlier =
            EveryEdge-at (λ a. a.id) (λ a. a.depends_on) (λ x d. has d (before x order) ≡ true)
              actions i d (Success-before order w) lt e in
          (
            w.sound.known d (has-before (at (ids_of actions) i) d order earlier),
            length-before (at (ids_of actions) i) d order earlier,
          ),
  )

  -- There is an order exactly when there are actions, no identifier stands twice, every dependency
  -- is one of the actions, and no dependency leads round in a cycle.
  pub topological_order_accepts :
      ((order : List ActionId) × (topological_order actions ≡ ok order))
      ↔ ((is_empty actions ≡ false) × IsDistinct (ids_of actions) × IsAcyclic actions)
  topological_order_accepts = (
    λ (order, h).
        let w = success order h in
        (w.preparation.nonempty, w.preparation.distinct, IsAcyclic-of order w),
    λ (nonempty, distinct, acyclic). order_of nonempty distinct acyclic,
  )
