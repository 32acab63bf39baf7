-- ===== src/Load/Documents.antt =====
-- `load_profile_json` and `load_plan_json`.
use baseline_ops.Prelude.{
  ℕ, String, Bool, false, not, same, String-discrete, if◌then◌else◌, Option, none, some, List,
  Outcome, ok, map_err, reject_if, ◌>>=◌, ◌>>◌, ◌≡◌, >>=-eq-ok, >>-eq-ok, length, ◌≤◌,
}
use baseline_ops.Domain.Ids.{ActionId}
use baseline_ops.Domain.Json.{
  Value, Members, DomainResult, json, validation, null, boolean, number, string, array, object, end,
  member,
}
use baseline_ops.Domain.Action.{Profile, Plan}
use baseline_ops.Scheduler.Order.{topological_order}
use baseline_ops.Validate.Identity.{Canonical}
use baseline_ops.Validate.Plan.{validate_profile, validate_structure}
use baseline_ops.Agreement.Plan.{validate_structure-topological_order}
use baseline_ops.Load.{JsonLoadLimits, Decoder, load_json}
use baseline_ops.Load.Bounds.{load_json_iff}

-- `Value::get` of serde_json on a map
abbrev pub get_member : String → Members → Option Value
get_member key end = none
get_member key (member k value members) =
    if same String-discrete key k then some value else get_member key members

abbrev pub get : String → Value → Option Value
get key (object members) = get_member key members
get key null = none
get key (boolean b) = none
get key (number n) = none
get key (string s) = none
get key (array values) = none

-- `.and_then(Value::as_str) == Some(expected)`
abbrev pub is_text : String → Option Value → Bool
is_text expected (some (string s)) = same String-discrete s expected
is_text expected (some (object members)) = false
is_text expected (some null) = false
is_text expected (some (boolean b)) = false
is_text expected (some (number n)) = false
is_text expected (some (array values)) = false
is_text expected none = false

module _ (c : Canonical) where
  unfoldable pub load_profile_json :
      Decoder Profile → List ℕ → JsonLoadLimits → DomainResult Profile
  unfolding load_json validate_profile
  load_profile_json decoder bytes limits = do
    profile ← load_json decoder bytes limits
    _ ← validate_profile c profile
    ok profile

  -- `plan_of` is `serde_json::from_value` at the type of plans.
  unfoldable pub load_plan_json :
      Decoder Value
      → (plan_of : Value → Outcome String Plan) → List ℕ
      → JsonLoadLimits
      → DomainResult Plan
  unfolding load_json validate_structure
  load_plan_json decoder plan_of bytes limits = do
    value ← load_json decoder bytes limits
    reject_if (not (is_text "4.0" (get "schema_version" value))) (
        validation
          "saved plan contract is obsolete or unsupported; regenerate the plan and approve its new digest")
    plan ← map_err json (plan_of value)
    _ ← validate_structure c plan
    ok plan

  -- A plan that is loaded came from bytes within the limit, and the scheduler has an order for it,
  -- which is the order that its validation found.
  pub load_plan_json-topological_order :
      (decoder : Decoder Value) (plan_of : Value → Outcome String Plan) (bytes : List ℕ)
      (limits : JsonLoadLimits) (plan : Plan)
      → load_plan_json decoder plan_of bytes limits ≡ ok plan
      → (length bytes ≤ limits.max_bytes)
        × ((order : List ActionId) × (validate_structure c plan ≡ ok order)
            × (topological_order plan.actions ≡ ok order))
  unfolding load_plan_json
  load_plan_json-topological_order decoder plan_of bytes limits plan h =
      let (value, loaded, h1) = >>=-eq-ok (load_json decoder bytes limits) _ h in
      let (_, h2) =
        >>-eq-ok (reject_if (not (is_text "4.0" (get "schema_version" value))) _) _ h1 in
      let (plan', _, h3) = >>=-eq-ok (map_err json (plan_of value)) _ h2 in
      let (order, valid, same_plan) = >>=-eq-ok (validate_structure c plan') _ h3 in
      let valid' : validate_structure c plan ≡ ok order = cc (valid, same_plan) in
      (
        ((load_json_iff limits decoder bytes value).0 loaded).0,
        (order, valid', (validate_structure-topological_order c plan order valid').0),
      )
