-- ===== src/Validate/Graph/Sort.antt =====
-- rust/crates/baselineops-domain/src/validate/graph.rs: `release_dependents` and the loop of
-- `topological_sort`, on fuel.
use baseline_ops.Prelude.{
  ℕ, zero, suc, ◌≡◌, refl, Option, none, some, List, [], ◌∷◌, ◌++◌, map, get_elem?, lookup, arith,
  Option-cases, inl, inr,
}
use baseline_ops.Prelude.Maybe.{◌>>=◌}
use baseline_ops.Domain.Ids.{ActionId}
use baseline_ops.Graph.{discharge, drain}
use baseline_ops.Validate.Graph.Index.{children_of}

unfoldable pub release_dependents :
    ActionId → List (ActionId × List ℕ) → (remaining ready : List ℕ) → Option (List ℕ × List ℕ)
unfolding discharge
release_dependents item_id children remaining ready = elim (lookup item_id children) [
  | none ↦ some (remaining, ready)
  | some dependents ↦ discharge dependents remaining ready
]

module _ {T : Type 0} (id : T → ActionId) where
  unfoldable pub sort_ready :
      List T
      → List (ActionId × List ℕ)
      → (fuel : ℕ) → (remaining ready : List ℕ) → (order : List ActionId)
      → Option (List ℕ × List ActionId)
  unfolding release_dependents
  sort_ready items children zero remaining ready order = none
  sort_ready items children (suc fuel) remaining [] order = some (remaining, order)
  sort_ready items children (suc fuel) remaining (position ∷ ready) order = do
    item ← get_elem? items position
    (remaining', ready') ← release_dependents (id item) children remaining ready
    sort_ready items children fuel remaining' ready' (order ++ id item ∷ [])

  get_elem?-map :
      (items : List T) (p : ℕ)
      → get_elem? (map id items) p ≡ (get_elem? items p >>= λ item. some (id item))
  get_elem?-map [] p = refl
  get_elem?-map (item ∷ items) zero = refl
  get_elem?-map (item ∷ items) (suc p) = get_elem?-map items p

  get_elem?-children :
      (children : List (ActionId × List ℕ)) (items : List T) (p : ℕ)
      → get_elem? (map (children_of children) (map id items)) p
        ≡ (get_elem? items p >>= λ item. some (children_of children (id item)))
  get_elem?-children children [] p = refl
  get_elem?-children children (item ∷ items) zero = refl
  get_elem?-children children (item ∷ items) (suc p) = get_elem?-children children items p

  release-discharge :
      (x : ActionId) (children : List (ActionId × List ℕ)) (remaining ready : List ℕ)
      → release_dependents x children remaining ready
        ≡ discharge (children_of children x) remaining ready
  unfolding release_dependents discharge
  release-discharge x children remaining ready = elim (Option-cases (lookup x children)) [
    | inl e ↦ ground (arith, e)
    | inr (w, e) ↦ ground (arith, e)
  ]

  -- The loop is the sort of the identifiers.
  pub sort_ready-drain :
      (items : List T) (children : List (ActionId × List ℕ)) (fuel : ℕ)
      (remaining ready order : List ℕ)
      → sort_ready items children fuel remaining ready order
        ≡ drain
            (map id items)
            (map (children_of children) (map id items))
            fuel
            remaining
            ready
            order
  unfolding sort_ready drain
  sort_ready-drain items children zero remaining ready order = refl
  sort_ready-drain items children (suc fuel) remaining [] order = refl
  sort_ready-drain items children (suc fuel) remaining (p ∷ ready) order =
      rw (get_elem?-map items p, get_elem?-children children items p)
        (elim (Option-cases (get_elem? items p)) [
          | inl e ↦ rw e
          | inr (item, e) ↦
              rw (e, release-discharge (id item) children remaining ready)
                (elim (Option-cases (discharge (children_of children (id item)) remaining ready)) [
                  | inl e ↦ rw e
                  | inr ((remaining', ready'), e) ↦ rw e (
                      sort_ready-drain items children fuel remaining' ready'
                        (order ++ id item ∷ []))
                ])
        ])
