-- ===== src/Scheduler/Loop.antt =====
-- rust/crates/baselineops-engine/src/scheduler/order.rs: `DependencyIndex::complete` and the loop of
-- `topological_order`.
use baseline_ops.Prelude.{
  ℕ, zero, suc, ◌≡◌, refl, Option, none, some, List, [], ◌∷◌, ◌++◌, get_elem?, Option-cases, inl,
  inr,
}
use baseline_ops.Prelude.Maybe.{◌>>=◌}
use baseline_ops.Domain.Ids.{ActionId}
use baseline_ops.Domain.Action.{PlannedAction}
use baseline_ops.Graph.{discharge, drain}
use baseline_ops.Scheduler.Index.{ids_of}

-- `DependencyIndex::complete`
unfoldable pub complete :
    (dependents : List (List ℕ)) (position : ℕ) (pending ready : List ℕ) → Option (List ℕ × List ℕ)
complete dependents position pending ready = do
  waiting ← get_elem? dependents position
  discharge waiting pending ready

-- `while let Some(position) = ready.pop_first()`, on fuel.
unfoldable pub order_ready :
    (actions : List PlannedAction) (dependents : List (List ℕ)) (fuel : ℕ) (pending ready : List ℕ)
    (order : List ActionId)
    → Option (List ActionId)
unfolding complete
order_ready actions dependents zero pending ready order = none
order_ready actions dependents (suc fuel) pending [] order = some order
order_ready actions dependents (suc fuel) pending (position ∷ ready) order = do
  action ← get_elem? actions position
  (pending', ready') ← complete dependents position pending ready
  order_ready actions dependents fuel pending' ready' (order ++ action.id ∷ [])

get_elem?-ids_of :
    (actions : List PlannedAction) (p : ℕ)
    → get_elem? (ids_of actions) p ≡ (get_elem? actions p >>= λ a. some a.id)
get_elem?-ids_of [] p = refl
get_elem?-ids_of (a ∷ actions) zero = refl
get_elem?-ids_of (a ∷ actions) (suc p) = get_elem?-ids_of actions p

-- The loop is the sort of the identifiers.
pub order_ready-drain :
    (actions : List PlannedAction) (dependents : List (List ℕ)) (fuel : ℕ)
    (pending ready order : List ℕ)
    → order_ready actions dependents fuel pending ready order
      ≡ (drain (ids_of actions) dependents fuel pending ready order >>= λ r. some r.1)
unfolding order_ready drain
order_ready-drain actions dependents zero pending ready order = refl
order_ready-drain actions dependents (suc fuel) pending [] order = refl
order_ready-drain actions dependents (suc fuel) pending (p ∷ ready) order =
    rw (get_elem?-ids_of actions p) (elim (Option-cases (get_elem? actions p)) [
      | inl e ↦ rw e
      | inr (a, e) ↦ rw e (elim (Option-cases (get_elem? dependents p)) [
        | inl e ↦ rw e
        | inr (waiting, e) ↦ rw e (elim (Option-cases (discharge waiting pending ready)) [
          | inl e ↦ rw e
          | inr ((pending', ready'), e) ↦
              rw e (order_ready-drain actions dependents fuel pending' ready' (order ++ a.id ∷ []))
        ])
      ])
    ])
