-- ===== src/Validate/Json.antt =====
-- The bounds of a typed map: `validate_json_map` and `validate_value` of validate.rs. The counter
-- `nodes: &mut usize` is passed in and returned.
pub mod Bounds
use Prim.Native.String.{len, ◌++◌ as text_append}
use baseline_ops.Prelude.{
  ℕ, suc, ◌+◌, ◌*◌, String, ltb, if◌then◌else◌, ok, err, done, reject_if, ◌>>=◌, ◌>>◌,
}
use baseline_ops.Domain.Json.{
  Value, Items, Members, JsonMap, DomainResult, validation, null, boolean, number, string, array,
  object, nil, cons, end, member,
}
use baseline_ops.Validate.Text.{validate_nonempty, decimal}

-- lib.rs
abbrev pub max_typed_map_entries : ℕ
max_typed_map_entries = 256

abbrev pub max_depth : ℕ
max_depth = 16

abbrev pub max_nodes : ℕ
max_nodes = 4096

abbrev pub max_string_bytes : ℕ
max_string_bytes = 64 * 1024

abbrev pub count_items : Items → ℕ
count_items nil = 0
count_items (cons v vs) = suc (count_items vs)

abbrev pub count_members : Members → ℕ
count_members end = 0
count_members (member k v ms) = suc (count_members ms)

validate_value_position : (depth nodes : ℕ) → DomainResult ℕ
validate_value_position depth nodes =
    let visited = nodes + 1 in
    if ltb max_nodes visited
    then err (validation "typed JSON value exceeds the 4096 node limit")
    else if ltb max_depth depth
    then err (validation "typed JSON value exceeds the 16-level nesting limit")
    else ok visited

validate_typed_string : String → DomainResult Unit
validate_typed_string value =
    reject_if (ltb max_string_bytes (len value))
      (validation "typed JSON string exceeds the 64 KiB limit")

validate_typed_array_size : Items → DomainResult Unit
validate_typed_array_size values =
    reject_if (ltb max_typed_map_entries (count_items values))
      (validation "typed JSON array exceeds the 256 entry limit")

validate_typed_object_size : Members → DomainResult Unit
validate_typed_object_size values =
    reject_if (ltb max_typed_map_entries (count_members values))
      (validation "typed JSON object exceeds the 256 entry limit")

unfoldable mutual
  unfolding validate_value_position validate_typed_string validate_typed_array_size
      validate_typed_object_size

  pub validate_value : Value → (depth nodes : ℕ) → DomainResult ℕ
  validate_value (string value) depth nodes = do
    visited ← validate_value_position depth nodes
    validate_typed_string value
    ok visited
  validate_value (array values) depth nodes = do
    visited ← validate_value_position depth nodes
    validate_typed_array_size values
    validate_items values (depth + 1) visited
  validate_value (object values) depth nodes = do
    visited ← validate_value_position depth nodes
    validate_typed_object_size values
    validate_typed_members values (depth + 1) visited
  validate_value null depth nodes = validate_value_position depth nodes
  validate_value (boolean value) depth nodes = validate_value_position depth nodes
  validate_value (number value) depth nodes = validate_value_position depth nodes

  -- the loop of `validate_typed_array`
  pub validate_items : Items → (depth nodes : ℕ) → DomainResult ℕ
  validate_items nil depth nodes = ok nodes
  validate_items (cons item values) depth nodes = do
    visited ← validate_value item depth nodes
    validate_items values depth visited

  -- the loop of `validate_typed_object`, with `validate_typed_member`
  pub validate_typed_members : Members → (depth nodes : ℕ) → DomainResult ℕ
  validate_typed_members end depth nodes = ok nodes
  validate_typed_members (member key item values) depth nodes = do
    validate_nonempty "typed JSON property name" key 256
    visited ← validate_value item depth nodes
    validate_typed_members values depth visited

-- the loop of `validate_json_map`: a fresh counter for each entry
validate_entries : (name : String) → Members → DomainResult Unit
validate_entries name end = done
validate_entries name (member key value map) = do
  validate_nonempty name key 256
  _ ← validate_value value 0 0
  validate_entries name map

unfoldable pub validate_json_map : (name : String) → JsonMap → DomainResult Unit
unfolding validate_entries
validate_json_map name map = do
  reject_if (ltb max_typed_map_entries (count_members map)) (
      validation
        (text_append name (text_append " has more than " (text_append (decimal 256) " entries"))))
  validate_entries name map
