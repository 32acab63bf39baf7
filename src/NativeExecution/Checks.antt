-- ===== src/NativeExecution/Checks.antt =====
-- The checks of native_execution/action.rs on a plan, before anything is touched.
use Prim.Native.String.{◌++◌}
use baseline_ops.Prelude.{
  String, ◌==◌, Bool, true, false, not, ◌&&◌, same, String-discrete, Option, none, some, List, [],
  ◌∷◌, length, Outcome, ok, reject_if, ◌>>=◌, ◌>>◌,
}
use baseline_ops.Domain.Ids.{CapabilityId}
use baseline_ops.WindowsUpdate.{
  WindowsUpdateField, use_wsus, wsus_server, wsus_status_server, allow_microsoft_update,
  defer_feature_updates, defer_feature_days, defer_quality_updates, defer_quality_days,
  target_release_version, product_version, target_release_version_info, delivery_optimization_mode,
  PolicyValueSnapshot, WindowsUpdateObservation, WindowsUpdateMutation, WindowsUpdatePlan,
  WindowsUpdatePlan-discrete, get_field, insert_field, resolve_desired_state,
  build_windows_update_plan,
}

abbrev pub windows_update_capability : CapabilityId
windows_update_capability = "v3.windows-update.policy"

abbrev pub windows_update_fields : List WindowsUpdateField
windows_update_fields =
    use_wsus ∷ wsus_server ∷ wsus_status_server ∷ allow_microsoft_update ∷ defer_feature_updates
    ∷ defer_feature_days ∷ defer_quality_updates ∷ defer_quality_days ∷ target_release_version
    ∷ product_version ∷ target_release_version_info ∷ delivery_optimization_mode ∷ []

abbrev pub is_present : Option PolicyValueSnapshot → Bool
is_present none = false
is_present (some value) = true

-- `fields.iter().all(|field| values.contains_key(field))`
unfoldable pub contains_all :
    List WindowsUpdateField → List (WindowsUpdateField × PolicyValueSnapshot) → Bool
unfolding get_field
contains_all [] values = true
contains_all (field ∷ fields) values =
    is_present (get_field field values) && contains_all fields values

unfoldable pub require_complete : WindowsUpdateObservation → String → Outcome String (Unit {0})
unfolding contains_all
require_complete observation label =
    reject_if
      (not (
        length observation.values == length windows_update_fields
        && contains_all windows_update_fields observation.values))
      ("Windows Update " ++ label ++ " is incomplete")

-- `for mutation in mutations { values.insert(mutation.field, mutation.desired) }`
unfoldable pub insert_mutations :
    List WindowsUpdateMutation
    → List (WindowsUpdateField × PolicyValueSnapshot)
    → List (WindowsUpdateField × PolicyValueSnapshot)
unfolding insert_field
insert_mutations [] values = values
insert_mutations (m ∷ mutations) values =
    insert_mutations mutations (insert_field m.field m.desired values)

unfoldable pub expected_post_state : WindowsUpdatePlan → WindowsUpdateObservation
unfolding insert_mutations
expected_post_state plan = record {
  values = insert_mutations plan.mutations plan.observation.values;
}

unfoldable pub validate_plan :
    CapabilityId → WindowsUpdatePlan → Outcome String WindowsUpdateObservation
unfolding require_complete resolve_desired_state build_windows_update_plan expected_post_state
validate_plan capability plan = do
  reject_if (not (same String-discrete capability windows_update_capability))
      "action capability is not the fixed Windows Update capability"
  require_complete plan.observation "planned pre-state"
  require_complete plan.rollback "rollback pre-state"
  desired ← resolve_desired_state (record { config = none; desired = some plan.desired })
  reject_if
      (not
        (same WindowsUpdatePlan-discrete (build_windows_update_plan plan.observation desired) plan))
      "Windows Update plan is not the canonical typed mutation list"
  ok (expected_post_state plan)
