-- ===== src/Load.antt =====
-- rust/crates/baselineops-domain/src/load.rs and load/bounds.rs. `Decoder` is what they call
-- outside: UTF-8 decoding by the standard library and decoding by serde_json, at each type.
pub mod Bounds
pub mod Documents
use Prim.Native.String.{len}
use baseline_ops.Prelude.{
  ℕ, suc, ◌+◌, ◌*◌, String, ltb, List, length, Outcome, ok, err, done, reject_if, map_err, ◌>>=◌,
  ◌>>◌,
}
use baseline_ops.Domain.Json.{
  Value, Items, Members, DomainResult, DomainError, limit_exceeded, utf8, json, null, boolean,
  number, string, array, object, nil, cons, end, member,
}
use baseline_ops.Validate.Json.{count_items, count_members}

pub record JsonLoadLimits : Type 0 where
  pub max_bytes : ℕ
  pub max_depth : ℕ
  pub max_object_entries : ℕ
  pub max_array_entries : ℕ
  pub max_string_bytes : ℕ
  pub max_nodes : ℕ

-- `JsonLoadLimits::default()`
abbrev pub default_limits : JsonLoadLimits
default_limits = record {
  max_bytes = 1024 * 1024;
  max_depth = 32;
  max_object_entries = 256;
  max_array_entries = 1024;
  max_string_bytes = 64 * 1024;
  max_nodes = 16 * 1024;
}

module _ (limits : JsonLoadLimits) where
  unfoldable pub validate_node_count : (nodes : ℕ) → DomainResult ℕ
  validate_node_count nodes = do
    reject_if (ltb limits.max_nodes (nodes + 1))
        (limit_exceeded "JSON value count" limits.max_nodes)
    ok (nodes + 1)

  unfoldable pub validate_depth : (depth : ℕ) → DomainResult Unit
  validate_depth depth =
      reject_if (ltb limits.max_depth depth) (limit_exceeded "JSON nesting depth" limits.max_depth)

  unfoldable pub validate_string : String → DomainResult Unit
  validate_string value =
      reject_if (ltb limits.max_string_bytes (len value))
        (limit_exceeded "JSON string size" limits.max_string_bytes)

  unfoldable pub validate_property_name : String → DomainResult Unit
  validate_property_name key =
      reject_if (ltb limits.max_string_bytes (len key))
        (limit_exceeded "JSON property name size" limits.max_string_bytes)

  unfoldable mutual
    unfolding validate_node_count validate_depth validate_string validate_property_name

    pub validate_json_bounds : Value → (depth nodes : ℕ) → DomainResult ℕ
    validate_json_bounds (string value) depth nodes = do
      visited ← validate_node_count nodes
      validate_depth depth
      validate_string value
      ok visited
    validate_json_bounds (array values) depth nodes = do
      visited ← validate_node_count nodes
      validate_depth depth
      reject_if (ltb limits.max_array_entries (count_items values))
          (limit_exceeded "JSON array entry count" limits.max_array_entries)
      validate_array values (depth + 1) visited
    validate_json_bounds (object values) depth nodes = do
      visited ← validate_node_count nodes
      validate_depth depth
      reject_if (ltb limits.max_object_entries (count_members values))
          (limit_exceeded "JSON object entry count" limits.max_object_entries)
      validate_object values (depth + 1) visited
    validate_json_bounds null depth nodes = do
      visited ← validate_node_count nodes
      validate_depth depth
      ok visited
    validate_json_bounds (boolean value) depth nodes = do
      visited ← validate_node_count nodes
      validate_depth depth
      ok visited
    validate_json_bounds (number value) depth nodes = do
      visited ← validate_node_count nodes
      validate_depth depth
      ok visited

    -- the loop of `validate_array`
    pub validate_array : Items → (depth nodes : ℕ) → DomainResult ℕ
    validate_array nil depth nodes = ok nodes
    validate_array (cons item values) depth nodes = do
      visited ← validate_json_bounds item depth nodes
      validate_array values depth visited

    -- the loop of `validate_object`
    pub validate_object : Members → (depth nodes : ℕ) → DomainResult ℕ
    validate_object end depth nodes = ok nodes
    validate_object (member key item values) depth nodes = do
      validate_property_name key
      visited ← validate_json_bounds item depth nodes
      validate_object values depth visited

pub record Decoder (T : Type 0) : Type 0 where
  pub from_utf8 : List ℕ → Outcome String String
  pub from_str : String → Outcome String Value
  pub from_value : Value → Outcome String T

-- `load_json`
unfoldable pub load_json : {T : Type 0} → Decoder T → List ℕ → JsonLoadLimits → DomainResult T
unfolding validate_json_bounds
load_json decoder bytes limits = do
  reject_if (ltb limits.max_bytes (length bytes))
      (limit_exceeded "document byte size" limits.max_bytes)
  text ← map_err utf8 (decoder.from_utf8 bytes)
  value ← map_err json (decoder.from_str text)
  _ ← validate_json_bounds limits value 0 0
  map_err json (decoder.from_value value)
