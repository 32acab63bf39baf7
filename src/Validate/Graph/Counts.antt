-- ===== src/Validate/Graph/Counts.antt =====
-- What index_dependencies counts and who waits for whom, for any items.
use baseline_ops.Prelude.{
  ℕ, zero, suc, ◌+◌, ◌-◌, ◌≤◌, ◌<◌, ◌≡◌, refl, ap, ◌∙◌, ◌==◌, leb, if◌then◌else◌, true, not, String,
  List, [], ◌∷◌, ◌++◌, map, length, length-set, set, lookup-insert, has, has_key, count,
  count-append, IsDistinct, All, ok, reject_if, >>=-eq-ok, >>-eq-ok, arith, inl, inr, zero_or_suc,
  insert_key,
}
use baseline_ops.Domain.Ids.{ActionId}
use baseline_ops.Domain.Json.{DomainResult}
use baseline_ops.Graph.Discharge.{at}
use baseline_ops.Graph.Network.{row}
use baseline_ops.Graph.Positions.{IsNew, IsNew-IsDistinct, IsDistinct-IsNew}
use baseline_ops.Validate.Graph.Index.{
  DependencyIndex, children_of, increment, push_child, index_item_dependencies, index_items,
}

at-set :
    (xs : List ℕ) (i j v : ℕ) → i < length xs → at (set xs i v) j ≡ (if j == i then v else at xs j)
at-set [] i j v h = absurd (omega arith)
at-set (x ∷ xs) zero zero v h = refl
at-set (x ∷ xs) zero (suc j) v h = ground arith
at-set (x ∷ xs) (suc i) zero v h = ground arith
at-set (x ∷ xs) (suc i) (suc j) v h = ground (arith, at-set xs i j v (omega arith))

pub children_of-push :
    (children : List (ActionId × List ℕ)) (d position x : ℕ)
    → children_of (push_child children d position) x
      ≡ (if x == d then children_of children d ++ position ∷ [] else children_of children x)
children_of-push children d position x =
    ground (arith, lookup-insert x d (children_of children d ++ position ∷ []) children)

module _ (show : ActionId → String) {T : Type 0} (id : T → ActionId)
    (dependencies : T → List ActionId) (validate : T → DomainResult (Unit {0})) where
  -- What the dependencies of one item add to the index.
  pub record Counted (position : ℕ) (ds seen : List ActionId) (index : List (ActionId × ℕ))
      (state state' : DependencyIndex) : Type 0 where
    pub kept : length state'.remaining ≡ length state.remaining
    pub added :
        (i : ℕ)
        → at state'.remaining i ≡ at state.remaining i + (if i == position then length ds else 0)
    pub waiting :
        (x i : ℕ)
        → count i (children_of state'.children x)
          ≡ count i (children_of state.children x) + (if i == position then count x ds else 0)
    pub fresh : IsNew ds seen
    pub known : (d : ℕ) → has d ds ≡ true → has_key d index ≡ true

  index_item_dependencies-Counted :
      (item : T) (position : ℕ) (index : List (ActionId × ℕ)) (seen ds : List ActionId)
      (state state' : DependencyIndex)
      → position < length state.remaining
      → index_item_dependencies show id dependencies validate item position index seen ds state
        ≡ ok state'
      → Counted position ds seen index state state'
  unfolding index_item_dependencies
  index_item_dependencies-Counted item position index seen [] state state' lt h =
      let same : state ≡ state' = cc in
      record {
        kept = rw (← same) refl;
        added = λ i. rw (← same) (ground arith);
        waiting = λ x i. rw (← same) (ground arith);
        fresh = tt;
        known = λ d h. cc;
      }
  index_item_dependencies-Counted item position index seen (d ∷ ds) state state' lt h =
      let (fresh, h') = >>-eq-ok (reject_if (has d seen) _) _ h in
      let (known, h'') = >>-eq-ok (reject_if (not (has_key d index)) _) _ h' in
      let len = length-set state.remaining position (at state.remaining position + 1) in
      let rest =
        index_item_dependencies-Counted item position index (insert_key d seen) ds _ state'
          (omega (arith, len)) h'' in
      record {
        kept = rest.kept ∙ len;
        added = λ i. ground (
          arith,
          rest.added i,
          at-set state.remaining position i (at state.remaining position + 1) lt,
        );
        waiting = λ x i. ground (
          arith,
          rest.waiting x i,
          children_of-push state.children d position x,
          count-append i (children_of state.children d) (position ∷ []),
        );
        fresh = (ground arith, rest.fresh);
        known = λ x k. ground (arith, rest.known x);
      }

  -- What the items from a position on add to the index.
  pub record CountedAll (position : ℕ) (items : List T) (index : List (ActionId × ℕ))
      (state state' : DependencyIndex) : Type 0 where
    pub kept : length state'.remaining ≡ length state.remaining
    pub added :
        (i : ℕ)
        → at state'.remaining i
          ≡ at state.remaining i
            + (if leb position i then length (row (map dependencies items) (i - position)) else 0)
    pub waiting :
        (x i : ℕ)
        → count i (children_of state'.children x)
          ≡ count i (children_of state.children x)
            + (if leb position i then count x (row (map dependencies items) (i - position)) else 0)
    pub distinct : All (λ item. IsDistinct (dependencies item)) items
    pub known : (i d : ℕ) → has d (row (map dependencies items) i) ≡ true → has_key d index ≡ true

  pub index_items-CountedAll :
      (position : ℕ) (items : List T) (index : List (ActionId × ℕ)) (state state' : DependencyIndex)
      → position + length items ≤ length state.remaining
      → index_items show id dependencies validate position items index state ≡ ok state'
      → CountedAll position items index state state'
  unfolding index_items
  index_items-CountedAll position [] index state state' le h =
      let same : state ≡ state' = cc in
      record {
        kept = rw (← same) refl;
        added = λ i. rw (← same) (ground arith);
        waiting = λ x i. rw (← same) (ground arith);
        distinct = tt;
        known = λ i d h. cc;
      }
  index_items-CountedAll position (item ∷ items) index state state' le h =
      let (middle, first, second) =
        >>=-eq-ok
          (index_item_dependencies show id dependencies validate item position index []
            (dependencies item) state)
          _ h in
      let a =
        index_item_dependencies-Counted item position index [] (dependencies item) state middle
          (omega arith) first in
      let b =
        index_items-CountedAll (suc position) items index middle state' (omega (arith, a.kept))
          second in
      record {
        kept = b.kept ∙ a.kept;
        added = λ i. elim (zero_or_suc (i - position)) [
          | inl e ↦
              ground (arith, a.added i, b.added i, ap (row (map dependencies (item ∷ items))) e)
          | inr (k, e) ↦
              let shift : i - suc position ≡ k = omega arith in
              ground (
                arith,
                a.added i,
                b.added i,
                ap (row (map dependencies items)) shift,
                ap (row (map dependencies (item ∷ items))) e,
              )
        ];
        waiting = λ x i. elim (zero_or_suc (i - position)) [
          | inl e ↦
              ground
                (arith, a.waiting x i, b.waiting x i, ap (row (map dependencies (item ∷ items))) e)
          | inr (k, e) ↦
              let shift : i - suc position ≡ k = omega arith in
              ground (
                arith,
                a.waiting x i,
                b.waiting x i,
                ap (row (map dependencies items)) shift,
                ap (row (map dependencies (item ∷ items))) e,
              )
        ];
        distinct = ((IsNew-IsDistinct (dependencies item) [] a.fresh).0, b.distinct);
        known = λ i d. elim (zero_or_suc i) [
          | inl e ↦ λ k. a.known d (rw e at k)
          | inr (j, e) ↦ λ k. b.known j d (rw e at k)
        ];
      }

  index_item_dependencies_total :
      (item : T) (position : ℕ) (index : List (ActionId × ℕ)) (seen ds : List ActionId)
      (state : DependencyIndex)
      → IsNew ds seen
      → ((d : ℕ) → has d ds ≡ true → has_key d index ≡ true)
      → (state' : DependencyIndex) × (index_item_dependencies show id dependencies validate item
            position index seen ds state
          ≡ ok state')
  unfolding index_item_dependencies
  index_item_dependencies_total item position index seen [] state fresh known = (state, refl)
  index_item_dependencies_total item position index seen (d ∷ ds) state fresh known =
      let (state', run) =
        index_item_dependencies_total item position index (insert_key d seen) ds
          (record {
            remaining = increment state.remaining position;
            children = push_child state.children d position;
          })
          fresh.1 (λ x k. known x (ground arith)) in
      (state', ground (arith, fresh.0, known d (ground arith), run))

  pub index_items_total :
      (position : ℕ) (items : List T) (index : List (ActionId × ℕ)) (state : DependencyIndex)
      → All (λ item. IsDistinct (dependencies item)) items
      → ((i d : ℕ) → has d (row (map dependencies items) i) ≡ true → has_key d index ≡ true)
      → (state' : DependencyIndex) × (index_items show id dependencies validate position items index
            state
          ≡ ok state')
  unfolding index_items
  index_items_total position [] index state distinct known = (state, refl)
  index_items_total position (item ∷ items) index state distinct known =
      let (middle, first) =
        index_item_dependencies_total item position index [] (dependencies item) state
          (IsDistinct-IsNew (dependencies item) [] distinct.0 (λ z k. refl)) (λ d. known 0 d) in
      let (state', second) =
        index_items_total (suc position) items index middle distinct.1 (λ i d. known (suc i) d) in
      (state', ground (arith, first, second))
