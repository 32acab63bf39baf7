-- ===== src/Agreement/Rows.antt =====
-- Both indexes hold the same positions in the same order.
use baseline_ops.Prelude.{
  ℕ, suc, ◌<◌, ◌≡◌, refl, ap, ◌∙◌, not, some, String, List, [], ◌∷◌, ◌++◌, length, length-set,
  lookup, has, has_key, ok, reject_if, >>=-eq-ok, >>-eq-ok, arith, Option-cases, inl, inr,
  insert_key,
}
use baseline_ops.Domain.Ids.{ActionId}
use baseline_ops.Domain.Action.{PlannedAction}
use baseline_ops.Domain.Json.{DomainResult}
use baseline_ops.Graph.Discharge.{at}
use baseline_ops.Graph.Network.{row}
use baseline_ops.Scheduler.Index.{push, add_dependencies, add_actions, dependencies_of}
use baseline_ops.Scheduler.Network.{IsIndex, row-set, same_position}
use baseline_ops.Validate.Graph.Index.{
  DependencyIndex, children_of, push_child, index_item_dependencies, index_items,
}
use baseline_ops.Validate.Graph.Counts.{children_of-push}

pub rows_ext :
    (a b : List (List ℕ))
    → length a ≡ length b
    → ((q : ℕ) → q < length a → row a q ≡ row b q)
    → a ≡ b
rows_ext [] [] e h = refl
rows_ext [] (y ∷ b) e h = absurd (omega arith)
rows_ext (x ∷ a) [] e h = absurd (omega arith)
rows_ext (x ∷ a) (y ∷ b) e h =
    cc (h 0 (omega arith), rows_ext a b (omega arith) (λ q lt. h (suc q) (omega arith)))

pub at_ext : (a b : List ℕ) → length a ≡ length b → ((q : ℕ) → at a q ≡ at b q) → a ≡ b
at_ext [] [] e h = refl
at_ext [] (y ∷ b) e h = absurd (omega arith)
at_ext (x ∷ a) [] e h = absurd (omega arith)
at_ext (x ∷ a) (y ∷ b) e h = cc (h 0, at_ext a b (omega arith) (λ q. h (suc q)))

module _ {ids : List ℕ} {positions : List (ActionId × ℕ)} (index : IsIndex ids positions)
    (show : ActionId → String) (validate : PlannedAction → DomainResult (Unit {0})) where
  -- What waits for an identifier, by its position and by its name.
  abbrev pub AreSame : List (List ℕ) → List (ActionId × List ℕ) → Type 0
  AreSame dependents children =
      (q : ℕ) → q < length ids → row dependents q ≡ children_of children (at ids q)

  push-AreSame :
      (dependents : List (List ℕ)) (children : List (ActionId × List ℕ)) (d parent position : ℕ)
      → length dependents ≡ length ids
      → lookup d positions ≡ some parent
      → AreSame dependents children
      → AreSame (push dependents parent position) (push_child children d position)
  push-AreSame dependents children d parent position len e same q lt =
      let (in_range, here) = index.found d parent e in
      ground (
        arith,
        row-set dependents parent q (row dependents parent ++ position ∷ []) (omega arith),
        children_of-push children d position (at ids q),
        same_position index d parent q e lt,
        same q lt,
        same parent in_range,
        here,
        ap (children_of children) here,
      )

  add_dependencies-AreSame :
      (item : PlannedAction) (position : ℕ) (ds seen : List ActionId) (before after : List (List ℕ))
      (state state' : DependencyIndex)
      → length before ≡ length ids
      → AreSame before state.children
      → add_dependencies positions position ds before ≡ ok after
      → index_item_dependencies show
          (λ a. a.id)
          (λ a. a.depends_on)
          validate
          item
          position
          positions
          seen
          ds
          state
        ≡ ok state'
      → (length after ≡ length ids) × AreSame after state'.children
  unfolding add_dependencies index_item_dependencies
  add_dependencies-AreSame item position [] seen before after state state' len same h k =
      let left : before ≡ after = cc in
      let right : state ≡ state' = cc in (rw (← left) len, λ q lt. rw (← left, ← right) (same q lt))
  add_dependencies-AreSame item position (d ∷ ds) seen before after state state' len same h k =
      let (fresh, k') = >>-eq-ok (reject_if (has d seen) _) _ k in
      let (known, k'') = >>-eq-ok (reject_if (not (has_key d positions)) _) _ k' in
      elim (Option-cases (lookup d positions)) [
        | inl e ↦ absurd (ground (arith, e))
        | inr (parent, e) ↦
            add_dependencies-AreSame item position ds (insert_key d seen)
              (push before parent position) after _ state'
              (length-set before parent (row before parent ++ position ∷ []) ∙ len)
              (push-AreSame before state.children d parent position len e same) (ground (arith, e))
              k''
      ]

  pub add_actions-AreSame :
      (position : ℕ) (items : List PlannedAction) (before after : List (List ℕ))
      (state state' : DependencyIndex)
      → length before ≡ length ids
      → AreSame before state.children
      → add_actions positions position (dependencies_of items) before ≡ ok after
      → index_items show (λ a. a.id) (λ a. a.depends_on) validate position items positions state
        ≡ ok state'
      → (length after ≡ length ids) × AreSame after state'.children
  unfolding add_actions index_items
  add_actions-AreSame position [] before after state state' len same h k =
      let left : before ≡ after = cc in
      let right : state ≡ state' = cc in (rw (← left) len, λ q lt. rw (← left, ← right) (same q lt))
  add_actions-AreSame position (item ∷ items) before after state state' len same h k =
      let (middle, first, second) =
        >>=-eq-ok (add_dependencies positions position item.depends_on before) _ h in
      let (state'', third, fourth) =
        >>=-eq-ok
          (index_item_dependencies show (λ a. a.id) (λ a. a.depends_on) validate item position
            positions [] item.depends_on state)
          _ k in
      let (len', same') =
        add_dependencies-AreSame item position item.depends_on [] before middle state state'' len
          same first third in
      add_actions-AreSame (suc position) items middle after state'' state' len' same' second fourth
