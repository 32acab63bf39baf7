-- ===== src/Validate/Graph/Total.antt =====
-- `validate_dependency_graph` of validate/graph.rs on fuel, and that it neither panics nor runs out.
use Prim.Native.String.{◌++◌ as text_append}
use baseline_ops.Prelude.{
  ℕ, zero, suc, ◌<◌, ◌≡◌, refl, ◌∙◌, ap, ◌==◌, if◌then◌else◌, false, String, Option, none, some,
  List, [], ◌∷◌, map, length, length-map, length-replicate, replicate, is_empty, ok, err, ◌>>=◌,
  ◌>>◌, reject_if, >>=-eq-ok, >>-eq-ok, Holds, value_of, arith,
}
use baseline_ops.Domain.Ids.{ActionId}
use baseline_ops.Domain.Json.{DomainResult, validation}
use baseline_ops.Graph.Discharge.{at}
use baseline_ops.Graph.Network.{row, missing, IsNetwork}
use baseline_ops.Graph.Positions.{IsNew-IsDistinct}
use baseline_ops.Graph.Invariant.{IsSound, drain_lem}
use baseline_ops.Graph.Sorted.{ready_positions, start-IsSound}
use baseline_ops.Validate.Graph.Index.{
  DependencyIndex, children_of, validate_and_index, index_items, index_dependencies,
}
use baseline_ops.Validate.Graph.Sort.{sort_ready, sort_ready-drain}
use baseline_ops.Validate.Graph.Network.{Entered, validate_and_index-Entered}
use baseline_ops.Validate.Graph.Counts.{CountedAll, index_items-CountedAll}

-- `.collect::<Vec<_>>().join(", ")`
unfoldable pub join : List String → String
join [] = ""
join (s ∷ []) = s
join (s ∷ t ∷ rest) = text_append s (text_append ", " (join (t ∷ rest)))

module _ (show : ActionId → String) {T : Type 0} (id : T → ActionId)
    (dependencies : T → List ActionId) (validate : T → DomainResult (Unit {0})) where
  -- A position becomes ready once at most: one round more than there are items is enough.
  unfoldable pub topological_sort : List T → DependencyIndex → Option (List ℕ × List ActionId)
  unfolding sort_ready ready_positions
  topological_sort items graph =
      sort_ready id items graph.children (suc (length items)) graph.remaining
        (ready_positions 0 graph.remaining) []

  unfoldable pub cycle_members : ℕ → List T → List ℕ → List String
  cycle_members position [] remaining = []
  cycle_members position (item ∷ items) remaining =
      let rest = cycle_members (suc position) items remaining in
      if at remaining position == 0 then rest else show (id item) ∷ rest

  unfoldable pub dependency_cycle : List T → List ℕ → DomainResult (List ActionId)
  unfolding cycle_members join
  dependency_cycle items remaining = err (
      validation (
        text_append "action dependency graph contains a cycle: "
          (join (cycle_members 0 items remaining))))

  unfoldable pub checked : List T → List ℕ × List ActionId → DomainResult (List ActionId)
  unfolding dependency_cycle
  checked items (remaining, order) =
      if length order == length items then ok order else dependency_cycle items remaining

  unfoldable pub indexed : List T → DomainResult DependencyIndex
  unfolding validate_and_index index_dependencies
  indexed items = do
    reject_if (is_empty items) (validation "profiles and plans must contain at least one action")
    index ← validate_and_index show id dependencies validate 0 items []
    index_dependencies show id dependencies validate items index

  unfoldable pub sorted :
      List T → DomainResult DependencyIndex → Option (DomainResult (List ActionId))
  unfolding checked topological_sort
  sorted items (err e) = some (err e)
  sorted items (ok graph) = elim (topological_sort items graph) [
    | none ↦ none
    | some r ↦ some (checked items r)
  ]

  unfoldable pub graph_run : List T → Option (DomainResult (List ActionId))
  unfolding sorted indexed
  graph_run items = sorted items (indexed items)

  -- What a successful index holds.
  pub record Indexed (items : List T) (graph : DependencyIndex) : Type 0 where
    pub nonempty : is_empty items ≡ false
    pub index : List (ActionId × ℕ)
    pub entered : Entered show id dependencies validate 0 items [] index
    pub entering : validate_and_index show id dependencies validate 0 items [] ≡ ok index
    pub run :
        index_items show id dependencies validate 0 items index
          (record { remaining = replicate (length items) 0; children = [] })
        ≡ ok graph
    pub counted :
        CountedAll show id dependencies validate 0 items index
          (record { remaining = replicate (length items) 0; children = [] })
          graph

  pub indexed-Indexed :
      (items : List T) (graph : DependencyIndex) → indexed items ≡ ok graph → Indexed items graph
  unfolding indexed index_dependencies
  indexed-Indexed items graph h =
      let (nonempty, h') = >>-eq-ok (reject_if (is_empty items) _) _ h in
      let (index, first, second) =
        >>=-eq-ok (validate_and_index show id dependencies validate 0 items []) _ h' in
      record {
        nonempty = ground arith;
        index = index;
        entered = validate_and_index-Entered show id dependencies validate 0 items [] index first;
        entering = first;
        run = second;
        counted =
            index_items-CountedAll show id dependencies validate 0 items index _ graph
              (omega (arith, length-replicate {0} {A = ℕ} (length items) 0)) second;
      }

  pub row-children :
      (children : List (ActionId × List ℕ)) (ids : List ActionId) (p : ℕ)
      → p < length ids
      → row (map (children_of children) ids) p ≡ children_of children (at ids p)
  row-children children [] p h = absurd (omega arith)
  row-children children (x ∷ ids) zero h = refl
  row-children children (x ∷ ids) (suc p) h = row-children children ids p (omega arith)

  pub Indexed-IsNetwork :
      (items : List T) (graph : DependencyIndex)
      → Indexed items graph
      → IsNetwork
          (map id items)
          (map dependencies items)
          (map (children_of graph.children) (map id items))
  Indexed-IsNetwork items graph w = record {
    distinct = (IsNew-IsDistinct (map id items) [] w.entered.fresh).0;
    deps_length = rw (length-map, length-map) refl;
    children_length = rw (length-map) refl;
    edges = λ p i lt. ground (
      arith,
      row-children graph.children (map id items) p lt,
      w.counted.waiting (at (map id items) p) i,
    );
  }

  missing_none : (ds : List ℕ) → missing [] ds ≡ length ds
  missing_none [] = refl
  missing_none (d ∷ ds) = ap suc (missing_none ds)

  pub at-zeros : (n i : ℕ) → at (replicate n 0) i ≡ 0
  at-zeros zero i = refl
  at-zeros (suc n) zero = refl
  at-zeros (suc n) (suc i) = at-zeros n i

  -- The run of the loop, and the state that it ends in.
  pub record Sorted (items : List T) (graph : DependencyIndex) : Type 0 where
    pub left : List ℕ
    pub order : List ActionId
    pub run : topological_sort items graph ≡ some (left, order)
    pub sound :
        IsSound
          (map id items)
          (map dependencies items)
          (map (children_of graph.children) (map id items))
          left
          []
          order

  pub Indexed-Sorted :
      (items : List T) (graph : DependencyIndex) → Indexed items graph → Sorted items graph
  unfolding topological_sort
  Indexed-Sorted items graph w =
      let net = Indexed-IsNetwork items graph w in
      let len = length-map items id in
      let start =
        start-IsSound net graph.remaining
          (rw (w.counted.kept, length-map) (length-replicate (length items) 0))
          (λ i. ground (
            arith,
            w.counted.added i,
            at-zeros (length items) i,
            missing_none (row (map dependencies items) i),
          )) in
      let d =
        drain_lem net (suc (length items)) graph.remaining (ready_positions 0 graph.remaining) []
          start (omega (arith, len)) in
      record {
        left = d.pending';
        order = d.order';
        run =
            sort_ready-drain id items graph.children (suc (length items)) graph.remaining
              (ready_positions 0 graph.remaining) []
            ∙ d.run;
        sound = d.sound;
      }

  sorted_total :
      (items : List T) (r : DomainResult DependencyIndex)
      → indexed items ≡ r
      → Holds (sorted items r)
  unfolding sorted
  sorted_total items (err e) h = (err e, refl)
  sorted_total items (ok graph) h =
      let o = Indexed-Sorted items graph (indexed-Indexed items graph h) in
      (checked items (o.left, o.order), ground (arith, o.run))

  pub graph_run_total : (items : List T) → Holds (graph_run items)
  unfolding graph_run
  graph_run_total items = sorted_total items (indexed items) refl

  unfoldable pub validate_dependency_graph : List T → DomainResult (List ActionId)
  unfolding graph_run value_of
  validate_dependency_graph items = value_of (graph_run items) (graph_run_total items)
