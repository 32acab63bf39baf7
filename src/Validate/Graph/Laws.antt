-- ===== src/Validate/Graph/Laws.antt =====
-- What the order of `validate_dependency_graph` is.
use baseline_ops.Prelude.{
  ℕ, ◌≡◌, refl, ap, true, String, some, List, [], map, length, length-map, has, count, IsDistinct,
  Subset-full, err, ok, value_of_run, arith,
}
use baseline_ops.Domain.Ids.{ActionId}
use baseline_ops.Domain.Json.{DomainResult}
use baseline_ops.Graph.Discharge.{at}
use baseline_ops.Graph.Network.{row, missing-zero, has-at, IsNetwork}
use baseline_ops.Graph.Edges.{before, EveryEdge, EveryEdge-of_at, IsOrdered-before}
use baseline_ops.Graph.Invariant.{IsSound}
use baseline_ops.Graph.Sorted.{full_counts}
use baseline_ops.Validate.Graph.Index.{DependencyIndex, children_of}
use baseline_ops.Validate.Graph.Total.{
  checked, dependency_cycle, indexed, sorted, graph_run, graph_run_total, indexed-Indexed,
  Indexed-IsNetwork, Indexed-Sorted, validate_dependency_graph,
}

module _ (show : ActionId → String) {T : Type 0} (id : T → ActionId)
    (dependencies : T → List ActionId) (validate : T → DomainResult (Unit {0}))
    (items : List T) where
  -- A successful run, taken apart.
  record Success (order : List ActionId) : Type 0 where
    graph : DependencyIndex
    left : List ℕ
    network :
        IsNetwork
          (map id items)
          (map dependencies items)
          (map (children_of graph.children) (map id items))
    sound :
        IsSound
          (map id items)
          (map dependencies items)
          (map (children_of graph.children) (map id items))
          left
          []
          order
    full : length order ≡ length (map id items)

  Success-of :
      (r : DomainResult DependencyIndex) (order : List ActionId)
      → indexed show id dependencies validate items ≡ r
      → sorted show id dependencies validate items r ≡ some (ok order)
      → Success order
  unfolding sorted
  Success-of (err e) order h k = cc
  Success-of (ok graph) order h k =
      let w = indexed-Indexed show id dependencies validate items graph h in
      let o = Indexed-Sorted show id dependencies validate items graph w in
      let full : (length o.order ≡ length items) × (o.order ≡ order) =
        unfold checked dependency_cycle in ground (arith, k, o.run) in
      record {
        graph = graph;
        left = o.left;
        network = Indexed-IsNetwork show id dependencies validate items graph w;
        sound = rw full.1 at o.sound;
        full = ground (arith, full, ap (length {A = ActionId}) full.1, length-map items id);
      }

  success :
      (order : List ActionId)
      → validate_dependency_graph show id dependencies validate items ≡ ok order
      → Success order
  unfolding graph_run
  success order h = Success-of (indexed show id dependencies validate items) order refl (
      unfold validate_dependency_graph in
      ground (
        arith,
        h,
        value_of_run (graph_run show id dependencies validate items)
            (graph_run_total show id dependencies validate items),
      ))

  -- The order holds every item exactly as often as it was given, which is once, and every
  -- dependency of an item before the item.
  pub validate_dependency_graph-sorts :
      (order : List ActionId)
      → validate_dependency_graph show id dependencies validate items ≡ ok order
      → ((x : ActionId) → count x order ≡ count x (map id items))
        × IsDistinct order
        × EveryEdge id dependencies (λ x d. has d (before x order) ≡ true) items
  validate_dependency_graph-sorts order h =
      let w = success order h in
      let whole = Subset-full order (map id items) w.sound.distinct w.sound.known w.full in
      (
        full_counts w.network w.sound w.full,
        w.sound.distinct,
        EveryEdge-of_at id dependencies (λ x d. has d (before x order) ≡ true) items
            λ i d lt e.
              let lt' = rw (← length-map items id) at lt in
              missing-zero (before (at (map id items) i) order) (row (map dependencies items) i) d
                (IsOrdered-before (map id items) (map dependencies items) [] order
                  (before (at (map id items) i) order) i w.sound.ordered lt'
                  (whole (at (map id items) i) (has-at (map id items) i lt')) (λ z. refl))
                e,
      )
