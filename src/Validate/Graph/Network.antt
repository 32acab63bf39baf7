-- ===== src/Validate/Graph/Network.antt =====
-- The positions that validate_and_index enters, for any items.
use baseline_ops.Prelude.{
  ℕ, suc, ◌≡◌, refl, String, List, [], ◌∷◌, map, insert, keys, keys-insert, has_key, has_key-keys,
  All, ok, reject_if, >>-eq-ok, arith,
}
use baseline_ops.Domain.Ids.{ActionId}
use baseline_ops.Domain.Json.{DomainResult}
use baseline_ops.Graph.Positions.{index_positions, IsNew}
use baseline_ops.Validate.Graph.Index.{validate_and_index}

module _ (show : ActionId → String) {T : Type 0} (id : T → ActionId)
    (dependencies : T → List ActionId) (validate : T → DomainResult (Unit {0})) where
  -- The items that are checked, and the positions that they are entered at.
  pub record Entered (position : ℕ) (items : List T) (index index' : List (ActionId × ℕ))
      : Type 0 where
    pub entries : index' ≡ index_positions position (map id items) index
    pub fresh : IsNew (map id items) (keys index)
    pub valid : All (λ item. validate item ≡ ok tt) items

  pub validate_and_index-Entered :
      (position : ℕ) (items : List T) (index index' : List (ActionId × ℕ))
      → validate_and_index show id dependencies validate position items index ≡ ok index'
      → Entered position items index index'
  unfolding validate_and_index index_positions
  validate_and_index-Entered position [] index index' h = record {
    entries = cc;
    fresh = tt;
    valid = tt;
  }
  validate_and_index-Entered position (item ∷ items) index index' h =
      let (valid, h') = >>-eq-ok (validate item) _ h in
      let (fresh, h'') = >>-eq-ok (reject_if (has_key (id item) index) _) _ h' in
      let rest =
        validate_and_index-Entered (suc position) items (insert (id item) position index) index'
          h'' in
      record {
        entries = rest.entries;
        fresh = (
          ground (arith, has_key-keys (id item) index),
          rw (keys-insert (id item) position index) at rest.fresh,
        );
        valid = (valid, rest.valid);
      }

  pub validate_and_index_total :
      (position : ℕ) (items : List T) (index : List (ActionId × ℕ))
      → IsNew (map id items) (keys index)
      → All (λ item. validate item ≡ ok tt) items
      → validate_and_index show id dependencies validate position items index
        ≡ ok (index_positions position (map id items) index)
  unfolding validate_and_index index_positions
  validate_and_index_total position [] index fresh valid = refl
  validate_and_index_total position (item ∷ items) index fresh valid = ground (
    arith,
    has_key-keys (id item) index,
    valid.0,
    keys-insert (id item) position index,
    validate_and_index_total (suc position) items (insert (id item) position index)
        (rw (keys-insert (id item) position index) fresh.1) valid.1,
  )
