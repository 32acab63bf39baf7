-- ===== src/NativeExecution/Complete.antt =====
-- What the checks on a plan and on an observation give.
use baseline_ops.Prelude.{
  same_iff, subst, sym, Outcome, ◌≡◌, refl, String, ◌==◌, Bool, true, false, not, ◌&&◌, same,
  Option, none, some, List, [], ◌∷◌, length, All, ok, reject_if, >>-eq-ok, >>=-eq-ok, ◌>>=◌, ◌>>◌,
  String-discrete,
}
use baseline_ops.Domain.Ids.{CapabilityId}
use baseline_ops.WindowsUpdate.Applied.{Values, HasValues, applied, expected-HasValues}
use baseline_ops.WindowsUpdate.{
  WindowsUpdateMutation, insert_field, expected_values, WindowsUpdateConfig,
  WindowsUpdatePlan-discrete, resolve_desired_state, build_windows_update_plan, WindowsUpdateField,
  use_wsus, wsus_server, wsus_status_server, allow_microsoft_update, defer_feature_updates,
  defer_feature_days, defer_quality_updates, defer_quality_days, target_release_version,
  product_version, target_release_version_info, delivery_optimization_mode, PolicyValueSnapshot,
  WindowsUpdateObservation, WindowsUpdatePlan, get_field,
}
use baseline_ops.NativeExecution.Checks.{
  insert_mutations, windows_update_capability, validate_plan, require_complete, contains_all,
  windows_update_fields, is_present, expected_post_state,
}

both_true : (a b : Bool) → (a && b) ≡ true → (a ≡ true) × (b ≡ true)
both_true true b h = (refl, h)
both_true false b h = absurd (cc h)

contains_all-All :
    (values : List (WindowsUpdateField × PolicyValueSnapshot)) (fields : List WindowsUpdateField)
    → contains_all fields values ≡ true
    → All (λ f. is_present (get_field f values) ≡ true) fields
unfolding contains_all
contains_all-All values [] h = tt
contains_all-All values (f ∷ fields) h =
    let (here, rest) = both_true (is_present (get_field f values)) (contains_all fields values) h in
    (here, contains_all-All values fields rest)

accepted : (test : Bool) (e : String) → reject_if (not test) e ≡ ok tt → test ≡ true
accepted true e h = refl
accepted false e h = absurd (cc h)

is_present-some :
    (o : Option PolicyValueSnapshot)
    → is_present o ≡ true
    → (v : PolicyValueSnapshot) × (o ≡ some v)
is_present-some none h = absurd (cc h)
is_present-some (some v) h = (v, refl)

-- A complete observation has a value for every field.
pub require_complete-get_field :
    (o : WindowsUpdateObservation) (label : String)
    → require_complete o label ≡ ok tt
    → (f : WindowsUpdateField) → (v : PolicyValueSnapshot) × (get_field f o.values ≡ some v)
unfolding require_complete
require_complete-get_field o label h f = is_present-some (get_field f o.values) (at f)
  where
    all : All (λ g. is_present (get_field g o.values) ≡ true) windows_update_fields
    all =
        contains_all-All o.values windows_update_fields
          (both_true (length o.values == length windows_update_fields)
            (contains_all windows_update_fields o.values)
            (accepted
              (length o.values == length windows_update_fields
                && contains_all windows_update_fields o.values)
              _ h)).1

    at : (g : WindowsUpdateField) → is_present (get_field g o.values) ≡ true
    at use_wsus = all.0
    at wsus_server = all.1.0
    at wsus_status_server = all.1.1.0
    at allow_microsoft_update = all.1.1.1.0
    at defer_feature_updates = all.1.1.1.1.0
    at defer_feature_days = all.1.1.1.1.1.0
    at defer_quality_updates = all.1.1.1.1.1.1.0
    at defer_quality_days = all.1.1.1.1.1.1.1.0
    at target_release_version = all.1.1.1.1.1.1.1.1.0
    at product_version = all.1.1.1.1.1.1.1.1.1.0
    at target_release_version_info = all.1.1.1.1.1.1.1.1.1.1.0
    at delivery_optimization_mode = all.1.1.1.1.1.1.1.1.1.1.1.0

pub not-false : (b : Bool) → not b ≡ false → b ≡ true
not-false true h = refl
not-false false h = absurd (cc h)

pub validate_plan-post :
    (capability : CapabilityId) (plan : WindowsUpdatePlan) {post : WindowsUpdateObservation}
    → validate_plan capability plan ≡ ok post
    → (desired : WindowsUpdateConfig) × (post ≡ expected_post_state plan)
      × (build_windows_update_plan plan.observation desired ≡ plan)
unfolding validate_plan
validate_plan-post capability plan h =
    let last : Outcome String WindowsUpdateObservation = ok (expected_post_state plan) in
    let canonical = λ (desired : WindowsUpdateConfig).
      reject_if
        (not (
          same WindowsUpdatePlan-discrete (build_windows_update_plan plan.observation desired)
            plan))
        "Windows Update plan is not the canonical typed mutation list" in
    let resolved = resolve_desired_state (record { config = none; desired = some plan.desired }) in
    let rest₃ = resolved >>= λ desired. canonical desired >> last in
    let rest₂ = require_complete plan.rollback "rollback pre-state" >> rest₃ in
    let rest₁ = require_complete plan.observation "planned pre-state" >> rest₂ in
    let (_, h₁) =
      >>-eq-ok
        (reject_if (not (same String-discrete capability windows_update_capability))
          "action capability is not the fixed Windows Update capability")
        rest₁ h in
    let (_, h₂) = >>-eq-ok (require_complete plan.observation "planned pre-state") rest₂ h₁ in
    let (_, h₃) = >>-eq-ok (require_complete plan.rollback "rollback pre-state") rest₃ h₂ in
    let (desired, _, h₄) = >>=-eq-ok resolved (λ desired. canonical desired >> last) h₃ in
    let (accepted_plan, h₅) = >>-eq-ok (canonical desired) last h₄ in
    (
      desired,
      cc h₅,
      (same_iff WindowsUpdatePlan-discrete (build_windows_update_plan plan.observation desired)
            plan).0
          (accepted
            (same WindowsUpdatePlan-discrete (build_windows_update_plan plan.observation desired)
              plan)
            _ accepted_plan),
    )

insert_mutations-applied :
    (mutations : List WindowsUpdateMutation) (values : Values)
    → insert_mutations mutations values ≡ applied mutations values
unfolding insert_mutations applied
insert_mutations-applied [] values = refl
insert_mutations-applied (m ∷ mutations) values =
    insert_mutations-applied mutations (insert_field m.field m.desired values)

-- What the plan expects gives every policy field its desired value.
abbrev pub MeetsDesired : WindowsUpdatePlan → Type 0
MeetsDesired plan = HasValues (expected_post_state plan).values (expected_values plan.desired)

pub validate_plan-MeetsDesired :
    (capability : CapabilityId) (plan : WindowsUpdatePlan) {post : WindowsUpdateObservation}
    → validate_plan capability plan ≡ ok post
    → MeetsDesired plan
unfolding expected_post_state build_windows_update_plan
validate_plan-MeetsDesired capability plan h =
    let (desired, _, is_plan) = validate_plan-post capability plan h in
    let observation = plan.observation in
    let applied_values : HasValues (applied plan.mutations observation.values)
        (expected_values plan.desired) =
      subst (λ q. HasValues (applied q.mutations observation.values) (expected_values q.desired))
        is_plan (expected-HasValues observation desired) in
    subst (λ v. HasValues v (expected_values plan.desired))
      (sym (insert_mutations-applied plan.mutations observation.values)) applied_values
