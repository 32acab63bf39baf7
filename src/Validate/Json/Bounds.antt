-- ===== src/Validate/Json/Bounds.antt =====
-- `validate_value` against a description of the values that it should accept.
use Prim.Native.String.{len}
use baseline_ops.Prelude.{ℕ, suc, ◌+◌, ◌≤◌, String, ok, ◌≡◌, refl, ◌↔◌, arith}
use baseline_ops.Prelude.{>>=-eq-ok, >>-eq-ok, done}
use baseline_ops.Domain.Json.{
  Value, Items, Members, JsonMap, null, boolean, number, string, array, object, nil, cons, end,
  member,
}
use baseline_ops.Validate.Text.{IsText, validate_nonempty, validate_nonempty_iff}
use baseline_ops.Validate.Json.{
  max_typed_map_entries, max_depth, max_nodes, max_string_bytes, count_items, count_members,
  validate_value, validate_items, validate_typed_members, validate_json_map, validate_entries,
}

-- How many values a value holds, itself included.
unfoldable mutual
  pub size : Value → ℕ
  size (array values) = suc (size_items values)
  size (object values) = suc (size_members values)
  size null = 1
  size (boolean b) = 1
  size (number n) = 1
  size (string s) = 1

  pub size_items : Items → ℕ
  size_items nil = 0
  size_items (cons v vs) = size v + size_items vs

  pub size_members : Members → ℕ
  size_members end = 0
  size_members (member k v ms) = size v + size_members ms

-- Every value stands at level 16 at most, and every string, array, object and key fits.
abbrev mutual
  pub IsBounded : ℕ → Value → Type 0
  IsBounded depth (string s) = (depth ≤ max_depth) × (len s ≤ max_string_bytes)
  IsBounded depth (array values) =
      (depth ≤ max_depth)
      × (count_items values ≤ max_typed_map_entries)
      × AreBounded (depth + 1) values
  IsBounded depth (object values) =
      (depth ≤ max_depth)
      × (count_members values ≤ max_typed_map_entries)
      × AreBoundedMembers (depth + 1) values
  IsBounded depth null = depth ≤ max_depth
  IsBounded depth (boolean b) = depth ≤ max_depth
  IsBounded depth (number n) = depth ≤ max_depth

  pub AreBounded : ℕ → Items → Type 0
  AreBounded depth nil = Unit
  AreBounded depth (cons v vs) = IsBounded depth v × AreBounded depth vs

  pub AreBoundedMembers : ℕ → Members → Type 0
  AreBoundedMembers depth end = Unit
  AreBoundedMembers depth (member k v ms) =
      IsText 256 k × IsBounded depth v × AreBoundedMembers depth ms

mutual
  unfolding validate_value size

  sound :
      (v : Value) (d n m : ℕ)
      → validate_value v d n ≡ ok m
      → IsBounded d v × (m ≡ n + size v) × (m ≤ max_nodes)
  sound null d n m h = ground arith
  sound (boolean b) d n m h = ground arith
  sound (number t) d n m h = ground arith
  sound (string s) d n m h = ground arith
  sound (array vs) d n m h = ground (arith, sound_items vs (d + 1) (n + 1) m)
  sound (object ms) d n m h = ground (arith, sound_members ms (d + 1) (n + 1) m)

  sound_items :
      (vs : Items) (d n m : ℕ)
      → validate_items vs d n ≡ ok m
      → n ≤ max_nodes
      → AreBounded d vs × (m ≡ n + size_items vs) × (m ≤ max_nodes)
  sound_items nil d n m h fits = ground arith
  sound_items (cons v vs) d n m h fits =
      let (n', p, q) = >>=-eq-ok (validate_value v d n) (λ k. validate_items vs d k) h in
      ground (arith, sound v d n n' p, sound_items vs d n' m q)

  sound_members :
      (ms : Members) (d n m : ℕ)
      → validate_typed_members ms d n ≡ ok m
      → n ≤ max_nodes
      → AreBoundedMembers d ms × (m ≡ n + size_members ms) × (m ≤ max_nodes)
  sound_members end d n m h fits = ground arith
  sound_members (member k v ms) d n m h fits =
      let (p, q) = >>-eq-ok (validate_nonempty "typed JSON property name" k 256) _ h in
      let (n', r, t) = >>=-eq-ok (validate_value v d n) (λ k. validate_typed_members ms d k) q in
      ground (
        arith,
        (validate_nonempty_iff "typed JSON property name" k 256).0 p,
        sound v d n n' r,
        sound_members ms d n' m t,
      )

mutual
  unfolding validate_value size

  complete :
      (v : Value) (d n : ℕ)
      → IsBounded d v
      → n + size v ≤ max_nodes
      → validate_value v d n ≡ ok (n + size v)
  complete null d n h fits = ground arith
  complete (boolean b) d n h fits = ground arith
  complete (number t) d n h fits = ground arith
  complete (string s) d n h fits = ground arith
  complete (array vs) d n h fits = ground (arith, complete_items vs (d + 1) (n + 1))
  complete (object ms) d n h fits = ground (arith, complete_members ms (d + 1) (n + 1))

  complete_items :
      (vs : Items) (d n : ℕ)
      → AreBounded d vs
      → n + size_items vs ≤ max_nodes
      → validate_items vs d n ≡ ok (n + size_items vs)
  complete_items nil d n h fits = ground arith
  complete_items (cons v vs) d n h fits =
      ground (arith, complete v d n, complete_items vs d (n + size v))

  complete_members :
      (ms : Members) (d n : ℕ)
      → AreBoundedMembers d ms
      → n + size_members ms ≤ max_nodes
      → validate_typed_members ms d n ≡ ok (n + size_members ms)
  complete_members end d n h fits = ground arith
  complete_members (member k v ms) d n h fits = ground (
    arith,
    (validate_nonempty_iff "typed JSON property name" k 256).1,
    complete v d n,
    complete_members ms d (n + size v),
  )

-- A value at a level passes exactly when every part of it is within the bounds and the values
-- counted so far and its own come to 4096 at most; the counter then grows by its size.
pub validate_value_iff :
    (v : Value) (depth nodes visited : ℕ)
    → (validate_value v depth nodes ≡ ok visited)
      ↔ (IsBounded depth v × (visited ≡ nodes + size v) × (visited ≤ max_nodes))
validate_value_iff v depth nodes visited = (
  sound v depth nodes visited,
  λ (bounded, counted, fits). rw counted (complete v depth nodes bounded (omega arith)),
)

-- The entries of a map: each key is a text of 256 bytes and each value is within the bounds.
abbrev pub AreEntriesBounded : Members → Type 0
AreEntriesBounded end = Unit
AreEntriesBounded (member k v ms) =
    IsText 256 k × IsBounded 0 v × (size v ≤ max_nodes) × AreEntriesBounded ms

abbrev pub IsBoundedMap : JsonMap → Type 0
IsBoundedMap map = (count_members map ≤ max_typed_map_entries) × AreEntriesBounded map

entries_sound :
    (name : String) (ms : Members) → validate_entries name ms ≡ done → AreEntriesBounded ms
unfolding validate_entries
entries_sound name end h = tt
entries_sound name (member k v ms) h =
    let (p, q) = >>-eq-ok (validate_nonempty name k 256) _ h in
    let (n, r, t) = >>=-eq-ok (validate_value v 0 0) (λ _. validate_entries name ms) q in
    ground (arith, (validate_nonempty_iff name k 256).0 p, sound v 0 0 n r, entries_sound name ms t)

entries_complete :
    (name : String) (ms : Members) → AreEntriesBounded ms → validate_entries name ms ≡ done
unfolding validate_entries
entries_complete name end h = refl
entries_complete name (member k v ms) h =
    ground (arith, (validate_nonempty_iff name k 256).1, complete v 0 0, entries_complete name ms)

-- A map passes exactly when it has 256 entries at most, each within the bounds.
pub validate_json_map_iff :
    (name : String) (map : JsonMap) → (validate_json_map name map ≡ done) ↔ IsBoundedMap map
unfolding validate_json_map
validate_json_map_iff name map =
    (λ h. ground (arith, entries_sound name map), λ h. ground (arith, entries_complete name map))
