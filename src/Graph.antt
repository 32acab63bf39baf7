-- ===== src/Graph.antt =====
-- The dependency sort that the scheduler (rust/crates/baselineops-engine/src/scheduler/order.rs) and
-- the document checks (rust/crates/baselineops-domain/src/validate/graph.rs) both run: the loop
-- over positions, apart from how each of them finds the dependents of a position.
pub mod Discharge
pub mod Network
pub mod Edges
pub mod Positions
pub mod Invariant
pub mod Sorted
use baseline_ops.Prelude.{
  ℕ, zero, suc, ◌==◌, if◌then◌else◌, Option, none, some, List, [], ◌∷◌, ◌++◌, get_elem?, set,
  insert_key,
}
use baseline_ops.Prelude.Maybe.{◌>>=◌}

-- `for dependent in dependents { pending[*dependent] -= 1; if pending[*dependent] == 0 {
-- ready.insert(*dependent); } }`. An index out of range, and a count below zero, are panics.
unfoldable pub discharge : (dependents pending ready : List ℕ) → Option (List ℕ × List ℕ)
discharge [] pending ready = some (pending, ready)
discharge (c ∷ cs) pending ready = elim (get_elem? pending c) [
  | none ↦ none
  | some zero ↦ none
  | some (suc k) ↦ discharge cs (set pending c k) (if k == 0 then insert_key c ready else ready)
]

-- `while let Some(position) = ready.pop_first()`, on fuel, with what is left pending and the
-- identifiers in the order in which they came.
unfoldable pub drain :
    (ids : List ℕ) (children : List (List ℕ)) (fuel : ℕ) (pending ready order : List ℕ)
    → Option (List ℕ × List ℕ)
drain ids children zero pending ready order = none
drain ids children (suc fuel) pending [] order = some (pending, order)
drain ids children (suc fuel) pending (p ∷ ready) order = do
  id ← get_elem? ids p
  dependents ← get_elem? children p
  (pending', ready') ← discharge dependents pending ready
  drain ids children fuel pending' ready' (order ++ id ∷ [])
