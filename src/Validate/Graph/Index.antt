-- ===== src/Validate/Graph/Index.antt =====
-- rust/crates/baselineops-domain/src/validate/graph.rs: the index of the items and of their
-- dependencies. `show` prints an identifier, as the uuid crate does.
use Prim.Native.String.{◌++◌ as text_append}
use baseline_ops.Prelude.{
  ℕ, suc, ◌+◌, String, not, List, [], ◌∷◌, ◌++◌, length, replicate, set, has, has_key, insert_key,
  lookup, insert, none, some, ok, reject_if, ◌>>=◌, ◌>>◌,
}
use baseline_ops.Domain.Ids.{ActionId}
use baseline_ops.Domain.Json.{DomainResult, validation}
use baseline_ops.Graph.Discharge.{at}

pub record DependencyIndex : Type 0 where
  pub remaining : List ℕ
  pub children : List (ActionId × List ℕ)

-- `children.get(&id)`, where nothing is entered nothing waits.
abbrev pub children_of : List (ActionId × List ℕ) → ActionId → List ℕ
children_of children id = elim (lookup id children) [ none ↦ [] | some waiting ↦ waiting ]

-- `remaining_dependencies[position] += 1`
abbrev pub increment : List ℕ → ℕ → List ℕ
increment remaining position = set remaining position (at remaining position + 1)

-- `children.entry(dependency).or_default().push(position)`
abbrev pub push_child : List (ActionId × List ℕ) → ActionId → ℕ → List (ActionId × List ℕ)
push_child children dependency position =
    insert dependency (children_of children dependency ++ position ∷ []) children

module _ (show : ActionId → String) {T : Type 0} (id : T → ActionId)
    (dependencies : T → List ActionId) (validate : T → DomainResult (Unit {0})) where
  -- The loop of `validate_and_index`, from a position on.
  unfoldable pub validate_and_index :
      ℕ → List T → List (ActionId × ℕ) → DomainResult (List (ActionId × ℕ))
  validate_and_index position [] index = ok index
  validate_and_index position (item ∷ items) index = do
    validate item
    reject_if (has_key (id item) index) (validation "profile or plan contains duplicate action IDs")
    validate_and_index (suc position) items (insert (id item) position index)

  -- The loop of `index_item_dependencies`, with the dependencies that it has seen.
  unfoldable pub index_item_dependencies :
      T
      → ℕ
      → List (ActionId × ℕ)
      → (seen depends_on : List ActionId) → DependencyIndex
      → DomainResult DependencyIndex
  index_item_dependencies item position index seen [] state = ok state
  index_item_dependencies item position index seen (dependency ∷ rest) state = do
    reject_if (has dependency seen)
        (validation "an action lists the same dependency more than once")
    reject_if (not (has_key dependency index)) (
        validation (
          text_append "action " (
            text_append (show (id item))
              (text_append " depends on unknown action " (show dependency)))))
    index_item_dependencies item position index (insert_key dependency seen) rest (record {
      remaining = increment state.remaining position;
      children = push_child state.children dependency position;
    })

  -- The loop of `index_dependencies`.
  unfoldable pub index_items :
      ℕ → List T → List (ActionId × ℕ) → DependencyIndex → DomainResult DependencyIndex
  unfolding index_item_dependencies
  index_items position [] index state = ok state
  index_items position (item ∷ items) index state = do
    state' ← index_item_dependencies item position index [] (dependencies item) state
    index_items (suc position) items index state'

  unfoldable pub index_dependencies : List T → List (ActionId × ℕ) → DomainResult DependencyIndex
  unfolding index_items
  index_dependencies items index =
      index_items 0 items index (record { remaining = replicate (length items) 0; children = [] })
