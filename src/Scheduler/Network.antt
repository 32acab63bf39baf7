-- ===== src/Scheduler/Network.antt =====
-- The dependency index that `build` makes holds every edge once for each time it is declared.
use baseline_ops.Prelude.{
  ℕ, zero, suc, ◌+◌, ◌-◌, ◌<◌, ◌≡◌, refl, ap, ◌∙◌, ◌==◌, leb, if◌then◌else◌, true, some, List, [],
  ◌∷◌, ◌++◌, length, length-replicate, length-set, replicate, set, lookup, has, count, count-append,
  IsDistinct, ok, >>=-eq-ok, arith, Bool-cases, Option-cases, inl, inr, zero_or_suc,
}
use baseline_ops.Graph.Discharge.{at}
use baseline_ops.Graph.Network.{row, at_inj, position_of, IsNetwork}
use baseline_ops.Graph.Positions.{
  index_positions, index_positions-lookup-at, index_positions-lookup_other,
}
use baseline_ops.Scheduler.Index.{push, add_dependencies, add_actions}

-- What a map of positions says of the identifiers.
pub record IsIndex (ids : List ℕ) (positions : List (ℕ × ℕ)) : Type 0 where
  pub distinct : IsDistinct ids
  pub found : (d q : ℕ) → lookup d positions ≡ some q → (q < length ids) × (at ids q ≡ d)
  pub finds : (d : ℕ) → has d ids ≡ true → (q : ℕ) × (lookup d positions ≡ some q)

pub index_positions-IsIndex :
    (ids : List ℕ) → IsDistinct ids → IsIndex ids (index_positions 0 ids [])
index_positions-IsIndex ids d = record {
  distinct = d;
  found = λ x q e. elim (Bool-cases (has x ids)) [
    | inl known ↦
        let (i, lt, here) = position_of ids x known in
        let there = index_positions-lookup-at 0 ids [] i d lt in
        ground (arith, lt, here, there, e, ap (λ k. lookup k (index_positions 0 ids [])) here)
    | inr other ↦ cc (e, index_positions-lookup_other 0 ids [] x other)
  ];
  finds = λ x known.
      let (i, lt, here) = position_of ids x known in
      let there = index_positions-lookup-at 0 ids [] i d lt in
      (i, ground (arith, there, here, ap (λ k. lookup k (index_positions 0 ids [])) here));
}

pub row-set :
    (rows : List (List ℕ)) (i j : ℕ) (r : List ℕ)
    → i < length rows
    → row (set rows i r) j ≡ (if j == i then r else row rows j)
row-set [] i j r h = absurd (omega arith)
row-set (x ∷ rows) zero zero r h = refl
row-set (x ∷ rows) zero (suc j) r h = ground arith
row-set (x ∷ rows) (suc i) zero r h = ground arith
row-set (x ∷ rows) (suc i) (suc j) r h = ground (arith, row-set rows i j r (omega arith))

count-push :
    (rows : List (List ℕ)) (parent position q i : ℕ)
    → parent < length rows
    → count i (row (push rows parent position) q)
      ≡ count i (row rows q) + (if q == parent then (if i == position then 1 else 0) else 0)
count-push rows parent position q i h = ground (
  arith,
  row-set rows parent q (row rows parent ++ position ∷ []) h,
  count-append i (row rows parent) (position ∷ []),
)

pub row-replicate : (n q : ℕ) → row (replicate n []) q ≡ []
row-replicate zero q = refl
row-replicate (suc n) zero = refl
row-replicate (suc n) (suc q) = row-replicate n q

module _ {ids : List ℕ} {positions : List (ℕ × ℕ)} (index : IsIndex ids positions) where
  pub same_position :
      (d parent q : ℕ)
      → lookup d positions ≡ some parent
      → q < length ids
      → (at ids q == d) ≡ (q == parent)
  same_position d parent q e lt =
      let (lt', here) = index.found d parent e in
      elim (Bool-cases (q == parent)) [
        | inl s ↦ ground arith
        | inr n ↦ elim (Bool-cases (at ids q == d)) [
          | inl m ↦
              absurd (ground (arith, at_inj ids q parent index.distinct lt lt' (ground arith)))
          | inr m ↦ ground arith
        ]
      ]

  pub record Added (position : ℕ) (ds : List ℕ) (before after : List (List ℕ)) : Type 0 where
    pub kept : length after ≡ length before
    pub counted :
        (q i : ℕ)
        → q < length ids
        → count i (row after q)
          ≡ count i (row before q) + (if i == position then count (at ids q) ds else 0)

  add_dependencies-Added :
      (position : ℕ) (ds : List ℕ) (before after : List (List ℕ))
      → length before ≡ length ids
      → add_dependencies positions position ds before ≡ ok after
      → Added position ds before after
  unfolding add_dependencies
  add_dependencies-Added position [] before after len h =
      let same : before ≡ after = cc in
      record { kept = ground arith; counted = λ q i lt. ground arith }
  add_dependencies-Added position (d ∷ ds) before after len h =
      elim (Option-cases (lookup d positions)) [
        | inl e ↦ absurd (ground (arith, e))
        | inr (parent, e) ↦
            let h' : add_dependencies positions position ds (push before parent position)
                ≡ ok after =
              ground (arith, e) in
            let lt' = (index.found d parent e).0 in
            let len' = length-set before parent (row before parent ++ position ∷ []) in
            let rest =
              add_dependencies-Added position ds (push before parent position) after (len' ∙ len)
                h' in
            record {
              kept = rest.kept ∙ len';
              counted = λ q i lt. ground (
                arith,
                rest.counted q i lt,
                count-push before parent position q i (omega arith),
                same_position d parent q e lt,
              );
            }
      ]

  pub record AddedAll (position : ℕ) (deps before after : List (List ℕ)) : Type 0 where
    pub kept : length after ≡ length before
    pub counted :
        (q i : ℕ)
        → q < length ids
        → count i (row after q)
          ≡ count i (row before q)
            + (if leb position i then count (at ids q) (row deps (i - position)) else 0)

  add_actions-AddedAll :
      (position : ℕ) (deps before after : List (List ℕ))
      → length before ≡ length ids
      → add_actions positions position deps before ≡ ok after
      → AddedAll position deps before after
  unfolding add_actions
  add_actions-AddedAll position [] before after len h =
      let same : before ≡ after = cc in
      record { kept = ground arith; counted = λ q i lt. ground arith }
  add_actions-AddedAll position (ds ∷ deps) before after len h =
      let (middle, first, second) =
        >>=-eq-ok (add_dependencies positions position ds before)
          (λ m. add_actions positions (suc position) deps m) h in
      let a = add_dependencies-Added position ds before middle len first in
      let b = add_actions-AddedAll (suc position) deps middle after (a.kept ∙ len) second in
      record {
        kept = b.kept ∙ a.kept;
        counted = λ q i lt. elim (zero_or_suc (i - position)) [
          | inl e ↦ ground (arith, a.counted q i lt, b.counted q i lt, ap (row (ds ∷ deps)) e)
          | inr (k, e) ↦
              let shift : i - suc position ≡ k = omega arith in
              ground (
                arith,
                a.counted q i lt,
                b.counted q i lt,
                ap (row deps) shift,
                ap (row (ds ∷ deps)) e,
              )
        ];
      }

  -- The dependents that stand in the index.
  pub add_actions-IsNetwork :
      (deps after : List (List ℕ))
      → length deps ≡ length ids
      → add_actions positions 0 deps (replicate (length ids) []) ≡ ok after
      → IsNetwork ids deps after
  add_actions-IsNetwork deps after len h =
      let all =
        add_actions-AddedAll 0 deps (replicate (length ids) []) after
          (length-replicate {0} (length ids) []) h in
      record {
        distinct = index.distinct;
        deps_length = len;
        children_length = all.kept ∙ length-replicate (length ids) [];
        edges = λ p i lt.
            ground (arith, all.counted p i lt, ap (count i) (row-replicate (length ids) p));
      }

  add_dependencies_total :
      (position : ℕ) (ds : List ℕ) (before : List (List ℕ))
      → ((d : ℕ) → has d ds ≡ true → has d ids ≡ true)
      → (after : List (List ℕ)) × (add_dependencies positions position ds before ≡ ok after)
  unfolding add_dependencies
  add_dependencies_total position [] before known = (before, refl)
  add_dependencies_total position (d ∷ ds) before known =
      let (parent, e) = index.finds d (known d (ground arith)) in
      let (after, run) =
        add_dependencies_total position ds (push before parent position)
          (λ x h. known x (ground arith)) in
      (after, ground (arith, e, run))

  -- It is built when every dependency is known.
  pub add_actions_total :
      (position : ℕ) (deps before : List (List ℕ))
      → ((i d : ℕ) → has d (row deps i) ≡ true → has d ids ≡ true)
      → (after : List (List ℕ)) × (add_actions positions position deps before ≡ ok after)
  unfolding add_actions
  add_actions_total position [] before known = (before, refl)
  add_actions_total position (ds ∷ deps) before known =
      let (middle, first) = add_dependencies_total position ds before (λ d. known 0 d) in
      let (after, second) = add_actions_total (suc position) deps middle (λ i d. known (suc i) d) in
      (after, ground (arith, first, second))
