-- ===== src/Examples/Boundary.antt =====
-- Loading, approval and the disposition of a run at concrete inputs.
use baseline_ops.Prelude.{
  ℕ, ◌≤◌, ◌≡◌, ◌↔◌, ◌⊎◌, refl, true, false, List, [], ◌∷◌, All, any, length, String, ok,
}
use baseline_ops.Domain.Ids.{ActionId}
use baseline_ops.Domain.Json.{Value, string, object, end, member}
use baseline_ops.Domain.Primitives.{not_required}
use baseline_ops.Domain.Results.{ActionStatus, ActionResult}
use baseline_ops.Scheduler.Order.{topological_order}
use baseline_ops.Validate.Json.Bounds.{size}
use baseline_ops.Validate.Plan.{validate_structure}
use baseline_ops.Validate.Plan.Laws.{IsCurrent}
use baseline_ops.Load.{Decoder, default_limits, load_json}
use baseline_ops.Load.Bounds.{IsWithin, load_json_iff}
use baseline_ops.Load.Documents.{load_plan_json, load_plan_json-topological_order}
use baseline_ops.Orchestrator.{aggregate_disposition}
use baseline_ops.Orchestrator.Laws.{IsEnough, Some, Asks, aggregate_disposition_lem}
use baseline_ops.Approval.{PlanApprovalSession, VerifiedPlan, approve_at_root}
use baseline_ops.Approval.Laws.{approve_at_root_iff}
use baseline_ops.Examples.Samples.{canonical, plan, context}
use baseline_ops.Examples.Documents.{plan_structure}

abbrev document : Value
document = object (member "schema_version" (string "4.0") end)

abbrev bytes : List ℕ
bytes = 123 ∷ 125 ∷ []

abbrev decoder : Decoder Value
decoder = record {
  from_utf8 = λ bytes. ok "{\"schema_version\":\"4.0\"}";
  from_str = λ text. ok document;
  from_value = λ value. ok value;
}

load_json_iff_example : (load_json decoder bytes default_limits ≡ ok document) ↔ (
    (length bytes ≤ 1048576)
    × ((text : String) × (decoder.from_utf8 bytes ≡ ok text)
        × ((value : Value) × (decoder.from_str text ≡ ok value)
            × IsWithin default_limits 0 value
            × (size value ≤ 16384)
            × (decoder.from_value value ≡ ok document))))
load_json_iff_example = load_json_iff default_limits decoder bytes document

loaded : load_plan_json canonical decoder (λ value. ok plan) bytes default_limits ≡ ok plan
unfolding load_plan_json baseline_ops.Prelude.String-discrete
loaded = rw plan_structure refl

load_plan_json-topological_order_example :
    (length bytes ≤ 1048576)
    × ((order : List ActionId) × (validate_structure canonical plan ≡ ok order)
        × (topological_order plan.actions ≡ ok order))
load_plan_json-topological_order_example =
    load_plan_json-topological_order canonical decoder (λ value. ok plan) bytes default_limits plan
      loaded

abbrev results : List ActionResult
results =
    record {
      action_id = 9;
      capability = "windows.update";
      status = ActionStatus.failed;
      started_at = 0;
      completed_at = 1;
      metadata = end;
    }
    ∷ record {
      action_id = 7;
      capability = "windows.update";
      status = ActionStatus.skipped;
      started_at = 2;
      completed_at = 3;
      metadata = end;
    }
    ∷ []

aggregate_disposition_lem_example :
    All (IsEnough plan (aggregate_disposition plan results false).reboot) results
    × (((aggregate_disposition plan results false).reboot ≡ not_required)
        ⊎ Some (Asks plan (aggregate_disposition plan results false).reboot) results)
aggregate_disposition_lem_example = aggregate_disposition_lem plan results false

abbrev session : PlanApprovalSession
session = record { plan = plan; digest = 12 }

abbrev approved : VerifiedPlan
approved = record { plan = plan; digest = 12; trusted_root = "C:\\BaselineOps" }

approve_at_root_iff_example :
    (approve_at_root canonical session 12 context "C:\\BaselineOps" ≡ ok approved) ↔ (
      (12 ≡ session.digest)
      × ((order : List ActionId) × (validate_structure canonical session.plan ≡ ok order))
      × IsCurrent session.plan context
      × (approved.plan ≡ session.plan)
      × (approved.digest ≡ 12)
      × (approved.trusted_root ≡ "C:\\BaselineOps"))
approve_at_root_iff_example =
    approve_at_root_iff canonical session 12 context "C:\\BaselineOps" approved
