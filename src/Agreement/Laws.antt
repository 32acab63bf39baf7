-- ===== src/Agreement/Laws.antt =====
-- The domain crate and the engine crate order a plan alike.
use baseline_ops.Prelude.{
  ℕ, suc, ◌<◌, ◌≡◌, refl, sym, ap, ◌∙◌, ◌↔◌, true, some, String, List, [], map, length, length-map,
  length-replicate, replicate, has, has_key, IsDistinct, All, ok, err, value_of-eq, value_of_run,
  arith, Bool-cases, inl, inr,
}
use baseline_ops.Domain.Ids.{ActionId}
use baseline_ops.Domain.Action.{PlannedAction}
use baseline_ops.Domain.Json.{DomainResult}
use baseline_ops.Graph.{drain}
use baseline_ops.Graph.Discharge.{at}
use baseline_ops.Graph.Network.{row}
use baseline_ops.Graph.Edges.{EveryEdge-at}
use baseline_ops.Graph.Positions.{
  index_positions, index_positions-lookup_other, IsNew-IsDistinct, IsDistinct-IsNew,
}
use baseline_ops.Graph.Sorted.{ready_positions}
use baseline_ops.Scheduler.Index.{ids_of, dependencies_of, DependencyIndex as SchedulerIndex}
use baseline_ops.Scheduler.Loop.{order_ready-drain}
use baseline_ops.Scheduler.Network.{index_positions-IsIndex, row-replicate}
use baseline_ops.Scheduler.Order.Total.{
  topological_order, ordered_run, ordered_run_total, finished, checked_order, order_index, Prepared,
  prepared-Prepared, at-pending, missing_none,
}
use baseline_ops.Scheduler.Order.Laws.{success, prepared_of, IsAcyclic-of, position-row}
use baseline_ops.Validate.Graph.Index.{DependencyIndex, children_of, index_dependencies}
use baseline_ops.Validate.Graph.Sort.{sort_ready-drain}
use baseline_ops.Validate.Graph.Network.{validate_and_index_total}
use baseline_ops.Validate.Graph.Counts.{index_items_total}
use baseline_ops.Validate.Graph.Total.{
  topological_sort, dependency_cycle, checked, indexed, sorted, graph_run, graph_run_total, Indexed,
  indexed-Indexed, Indexed-Sorted, validate_dependency_graph, row-children, at-zeros,
}
use baseline_ops.Agreement.Rows.{rows_ext, at_ext, add_actions-AreSame}

-- What a map of positions knows are the identifiers.
has_key-index_positions :
    (ids : List ActionId) (d : ActionId)
    → IsDistinct ids
    → has_key d (index_positions 0 ids []) ≡ has d ids
has_key-index_positions ids d distinct =
    let index = index_positions-IsIndex ids distinct in
    elim (Bool-cases (has d ids)) [
      | inl known ↦ let (q, e) = index.finds d known in ground (arith, e)
      | inr other ↦ ground (arith, index_positions-lookup_other 0 ids [] d other)
    ]

module _ (show : ActionId → String) (validate : PlannedAction → DomainResult (Unit {0}))
    (actions : List PlannedAction) where
  abbrev pub check : List PlannedAction → DomainResult (List ActionId)
  unfolding validate_dependency_graph
  check = validate_dependency_graph show (λ a. a.id) (λ a. a.depends_on) validate

  module _ {checked_graph : DependencyIndex} {graph : SchedulerIndex}
      (w : Indexed show
        (λ (a : PlannedAction). a.id)
        (λ a. a.depends_on)
        validate
        actions
        checked_graph)
      (p : Prepared actions graph) where
    same_children : map (children_of checked_graph.children) (ids_of actions) ≡ graph.dependents
    same_children =
        let index = index_positions-IsIndex (ids_of actions) p.distinct in
        let len = length-replicate (length (ids_of actions)) [] in
        let (len', same) =
          add_actions-AreSame index show validate 0 actions (replicate (length (ids_of actions)) [])
            graph.dependents _ checked_graph len (λ q lt. row-replicate (length (ids_of actions)) q)
            p.rows (rw w.entered.entries at w.run) in
        rows_ext (map (children_of checked_graph.children) (ids_of actions)) graph.dependents
          (length-map (ids_of actions) (children_of checked_graph.children) ∙ sym len')
          λ q lt.
            let lt' : q < length (ids_of actions) =
              rw (length-map (ids_of actions) (children_of checked_graph.children)) at lt in
            row-children show (λ (a : PlannedAction). a.id) (λ a. a.depends_on) validate
              checked_graph.children (ids_of actions) q lt'
            ∙ sym (same q lt')

    same_counts : checked_graph.remaining ≡ graph.pending
    same_counts =
        at_ext checked_graph.remaining graph.pending
          (ground (
            arith,
            w.counted.kept,
            p.pending,
            ap (length {A = ℕ}) p.pending,
            length-map {0, 0} actions (λ (a : PlannedAction). length a.depends_on),
            length-replicate {0} {A = ℕ} (length actions) 0,
          ))
          λ q. ground (
            arith,
            w.counted.added q,
            at-zeros show (λ (a : PlannedAction). a.id) (λ a. a.depends_on) validate
                (length actions) q,
            p.pending,
            ap (λ l. at l q) p.pending,
            at-pending actions q,
            missing_none (row (dependencies_of actions) q),
          )

    same_run :
        (left : List ℕ) (order : List ActionId)
        → topological_sort show (λ a. a.id) (λ a. a.depends_on) validate actions checked_graph
          ≡ some (left, order)
        → order_index actions graph ≡ some order
    unfolding topological_sort order_index
    same_run left order h =
        let drained : drain (ids_of actions) graph.dependents (suc (length actions)) graph.pending
              (ready_positions 0 graph.pending) []
            ≡ some (left, order) =
          rw (← same_children, ← same_counts)
            (sym (
                sort_ready-drain (λ (a : PlannedAction). a.id) actions checked_graph.children
                  (suc (length actions)) checked_graph.remaining
                  (ready_positions 0 checked_graph.remaining) [])
              ∙ h) in
        rw
          (
            order_ready-drain actions graph.dependents (suc (length actions)) graph.pending
                (ready_positions 0 graph.pending) [],
            drained,
          )
          refl

  scheduled_of :
      (order : List ActionId) (r : DomainResult DependencyIndex)
      → indexed show (λ a. a.id) (λ a. a.depends_on) validate actions ≡ r
      → sorted show (λ a. a.id) (λ a. a.depends_on) validate actions r ≡ some (ok order)
      → (topological_order actions ≡ ok order)
        × All (λ a. validate a ≡ ok tt) actions
        × All (λ a. IsDistinct a.depends_on) actions
  unfolding sorted topological_order
  scheduled_of order (err e) h k = cc
  scheduled_of order (ok checked_graph) h k =
      let w =
        indexed-Indexed show (λ a. a.id) (λ a. a.depends_on) validate actions checked_graph h in
      let o =
        Indexed-Sorted show (λ a. a.id) (λ a. a.depends_on) validate actions checked_graph w in
      let distinct = (IsNew-IsDistinct (ids_of actions) [] w.entered.fresh).0 in
      let known : (i d : ℕ)
          → has d (row (dependencies_of actions) i) ≡ true
          → has d (ids_of actions) ≡ true =
        λ i d e.
          sym (has_key-index_positions (ids_of actions) d distinct)
          ∙ ap (has_key d) (sym w.entered.entries)
          ∙ w.counted.known i d e in
      let (graph, run) = prepared_of actions w.nonempty distinct known in
      let p = prepared-Prepared actions graph run in
      let ordered = same_run w p o.left o.order o.run in
      let full : (length o.order ≡ length actions) × (o.order ≡ order) =
        unfold checked dependency_cycle in ground (arith, k, o.run) in
      (
        value_of-eq (ordered_run actions) (ordered_run_total actions)
            (unfold ordered_run finished checked_order in rw run (ground (arith, ordered, full))),
        w.entered.valid,
        w.counted.distinct,
      )

  -- what the checks of the domain crate need
  ordered_of :
      (order : List ActionId)
      → topological_order actions ≡ ok order
      → All (λ a. validate a ≡ ok tt) actions
      → All (λ a. IsDistinct a.depends_on) actions
      → check actions ≡ ok order
  unfolding check graph_run
  ordered_of order h valid distinct =
      let s = success actions order h in
      let p = s.preparation in
      let entering =
        validate_and_index_total show (λ (a : PlannedAction). a.id) (λ a. a.depends_on) validate 0
          actions [] (IsDistinct-IsNew (ids_of actions) [] p.distinct (λ z k. refl)) valid in
      let falls =
        EveryEdge-at (λ a. a.id) (λ a. a.depends_on) (λ x d. (has d (ids_of actions) ≡ true) × _)
          actions in
      let known : (i d : ℕ)
          → has d (row (dependencies_of actions) i) ≡ true
          → has_key d (index_positions 0 (ids_of actions) []) ≡ true =
        λ i d e.
          has_key-index_positions (ids_of actions) d p.distinct
          ∙ (falls i d (IsAcyclic-of actions order s).1 (position-row actions i d e) e).0 in
      let (checked_graph, counting) =
        index_items_total show (λ (a : PlannedAction). a.id) (λ a. a.depends_on) validate 0 actions
          (index_positions 0 (ids_of actions) [])
          (record { remaining = replicate (length actions) 0; children = [] }) distinct known in
      let run : indexed show (λ a. a.id) (λ a. a.depends_on) validate actions ≡ ok checked_graph =
        unfold indexed index_dependencies in ground (arith, p.nonempty, entering, counting) in
      let w =
        indexed-Indexed show (λ a. a.id) (λ a. a.depends_on) validate actions checked_graph run in
      let o =
        Indexed-Sorted show (λ a. a.id) (λ a. a.depends_on) validate actions checked_graph w in
      let same : o.order ≡ order = ground (arith, same_run w p o.left o.order o.run, s.run) in
      value_of-eq (graph_run show (λ a. a.id) (λ a. a.depends_on) validate actions)
        (graph_run_total show (λ a. a.id) (λ a. a.depends_on) validate actions)
        (rw run (
          unfold sorted checked in
          ground (
            arith,
            o.run,
            same,
            s.full,
            length-map {0, 0} actions (λ (a : PlannedAction). a.id),
            ap (length {A = ActionId}) same,
          )))

  pub agreement :
      (order : List ActionId)
      → (check actions ≡ ok order) ↔ (
          (topological_order actions ≡ ok order)
          × All (λ a. validate a ≡ ok tt) actions
          × All (λ a. IsDistinct a.depends_on) actions)
  unfolding check graph_run
  agreement order = (
    λ h. scheduled_of order (indexed show (λ a. a.id) (λ a. a.depends_on) validate actions) refl (
        value_of_run (graph_run show (λ a. a.id) (λ a. a.depends_on) validate actions)
          (graph_run_total show (λ a. a.id) (λ a. a.depends_on) validate actions)
        ∙ ap some h),
    λ (h, valid, distinct). ordered_of order h valid distinct,
  )
