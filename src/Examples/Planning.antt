-- ===== src/Examples/Planning.antt =====
-- A profile with two steps, the plan that is built from it, and the same plan reviewed and rebuilt.
use baseline_ops.Prelude.{
  ℕ, ◌+◌, ◌≡◌, refl, true, false, none, List, [], ◌∷◌, Outcome, ok, pos, String,
}
use baseline_ops.Domain.Ids.{ActionId, DateTime}
use baseline_ops.Domain.Json.{end, member, string}
use baseline_ops.Domain.Primitives.{SchemaVersion, ExecutionIntent}
use baseline_ops.Domain.Bindings.{ObservedState}
use baseline_ops.Domain.Action.{Profile, ProfileStep, PlannedAction, Plan}
use baseline_ops.Validate.Plan.{validate_profile, validate_structure}
use baseline_ops.Planner.{
  Planning, PlanBuildContext, WorkerPlan, TrustedActionDeriver, build_plan,
  rebuild_reviewed_apply_plan,
}
use baseline_ops.Planner.Build.{IsBuilt, build_plan-IsBuilt}
use baseline_ops.Planner.Rebuild.{IsRebuilt, rebuild_reviewed_apply_plan-IsRebuilt}
use baseline_ops.Examples.Samples.{action_with, canonical, host, tool, source, input, plan}

abbrev step : ActionId → List ActionId → ProfileStep
step id depends_on = record {
  step_id = id;
  capability_id = "windows.update";
  parameters = member "mode" (string "strict") end;
  depends_on = depends_on;
  continue_on_error = true;
}

abbrev profile : Profile
profile = record {
  schema_version = SchemaVersion.v3;
  id = 3;
  name = "desk";
  version = "1";
  description = none;
  created_at = 30;
  expires_at = none;
  defaults = record { continue_on_error = false };
  steps = step 17 (19 ∷ []) ∷ step 19 [] ∷ [];
  metadata = end;
}

abbrev derive : TrustedActionDeriver
derive s intent observed =
    ok (record (action_with s.step_id s.depends_on) { source_step = s.step_id })

abbrev planning : Planning
planning = record {
  canonical = canonical;
  profile_digest = λ profile. ok 4;
  plan_digest = λ plan. ok plan.id;
  new_plan_id = 21;
  new_run_id = 22;
  second = 1;
  max_utc = 1000000;
}

abbrev build_context : PlanBuildContext
build_context = record {
  intent = ExecutionIntent.apply;
  host = host;
  tool = tool;
  package_digest = 9;
  source = source;
  input = input;
  resources = [];
  observed_state = plan.observed_state;
  lifetime = pos 30;
}

abbrev planned : List PlannedAction
planned =
    record (action_with 19 []) { source_step = 19 }
    ∷ record (action_with 17 (19 ∷ [])) { source_step = 17 }
    ∷ []

abbrev built : (now : DateTime) → WorkerPlan
built now = record {
  plan = record plan {
    id = 21;
    run_id = 22;
    issued_at = now;
    expires_at = now + 30;
    actions = planned;
  };
  digest = 21;
}

built_50 : build_plan planning profile build_context derive 50 ≡ ok (built 50)
unfolding build_plan baseline_ops.Validate.Text.validate_nonempty
    baseline_ops.Validate.Text.is_blank baseline_ops.Validate.Text.validate_optional_text
    baseline_ops.Validate.Json.validate_json_map baseline_ops.Validate.Plan.validate_profile_step
    baseline_ops.Validate.Json.validate_value baseline_ops.Prelude.String-discrete
    baseline_ops.Domain.Primitives.Operation-discrete
    baseline_ops.Validate.Plan.validate_planned_action
built_50 = refl

build_plan-IsBuilt_example : IsBuilt planning profile build_context derive 50 (built 50)
build_plan-IsBuilt_example =
    build_plan-IsBuilt planning profile build_context derive 50 (built 50) built_50

-- Reviewed at 40, rebuilt at 50.
abbrev reviewed : Plan
reviewed = record plan { issued_at = 40; expires_at = 70; actions = planned }

rebuilt_50 :
    rebuild_reviewed_apply_plan planning reviewed profile build_context derive 50
    ≡ ok (record { plan = reviewed; digest = 1 })
unfolding rebuild_reviewed_apply_plan baseline_ops.Validate.Text.validate_nonempty
    baseline_ops.Validate.Text.is_blank baseline_ops.Validate.Text.validate_optional_text
    baseline_ops.Validate.Json.validate_json_map baseline_ops.Validate.Plan.validate_profile_step
    baseline_ops.Validate.Json.validate_value baseline_ops.Prelude.String-discrete
    baseline_ops.Domain.Primitives.Operation-discrete
    baseline_ops.Validate.Plan.validate_planned_action
    baseline_ops.Domain.Primitives.ExecutionIntent-discrete
    baseline_ops.Domain.Bindings.HostIdentity-discrete baseline_ops.Prelude.ℕ_discrete
    baseline_ops.Domain.Bindings.ToolIdentity-discrete
    baseline_ops.Domain.Bindings.SourceIdentity-discrete
    baseline_ops.Domain.Bindings.InputIdentity-discrete
    baseline_ops.Planner.ResourceBindings-discrete baseline_ops.Planner.PlannedActions-discrete
    baseline_ops.Domain.Action.PlannedAction-discrete
    baseline_ops.Domain.Bindings.ResourceBinding-discrete baseline_ops.Domain.Json.Members-discrete
rebuilt_50 = refl

rebuild_reviewed_apply_plan-IsRebuilt_example :
    IsRebuilt planning reviewed profile build_context derive 50
      (record { plan = reviewed; digest = 1 })
rebuild_reviewed_apply_plan-IsRebuilt_example =
    rebuild_reviewed_apply_plan-IsRebuilt planning reviewed profile build_context derive 50
      (record { plan = reviewed; digest = 1 }) rebuilt_50
