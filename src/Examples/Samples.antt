-- ===== src/Examples/Samples.antt =====
-- The inputs.
use baseline_ops.Prelude.{
  ℕ, ◌+◌, ◌==◌, if◌then◌else◌, true, false, none, some, List, [], ◌∷◌, ok, err, pos,
}
use baseline_ops.Domain.Ids.{ActionId}
use baseline_ops.Domain.Json.{end, member, string}
use baseline_ops.Domain.Primitives.{
  SchemaVersion, PlanSchemaVersion, Operation, ExecutionIntent, RiskLevel, Reversibility,
  RebootRequirement, OsFamily,
}
use baseline_ops.Domain.Bindings.{
  HostIdentity, ToolIdentity, SourceKind, SourceIdentity, InputIdentity, ObservedValue,
}
use baseline_ops.Domain.Action.{PlannedAction, Plan, Artifact, ArtifactKind, operating_system}
use baseline_ops.Domain.Results.{RunResult, ActionStatus, ResultStatus, WorkerResult}
use baseline_ops.Scheduler.Index.{capability}
use baseline_ops.Scheduler.State.{ActionExecution, Environment, ExecutionPolicy}
use baseline_ops.Validate.Identity.{Canonical}
use baseline_ops.Validate.Plan.{PlanValidationContext}

abbrev pub action_with : ActionId → List ActionId → PlannedAction
action_with id depends_on = record {
  id = id;
  source_step = id + 10;
  capability = "windows.update";
  operation = Operation.apply;
  parameters = member "mode" (string "strict") end;
  depends_on = depends_on;
  continue_on_error = true;
  facts_digest = 8;
  preconditions = operating_system OsFamily.windows (some "10.0.22631") ∷ [];
  risk = RiskLevel.low;
  reversibility = Reversibility.reversible;
  reboot = RebootRequirement.recommended;
  privileges = [];
  metadata = end;
}

-- The first action waits for the second.
abbrev pub two_actions : List PlannedAction
two_actions = action_with 7 (9 ∷ []) ∷ action_with 9 [] ∷ []

abbrev pub execution : ActionStatus → ActionExecution
execution status = record { status = status; findings = []; artifacts = []; metadata = end }

-- A clock that ticks, and a runner that fails on one action.
abbrev pub failing_on : ActionId → Environment ℕ
failing_on id = record {
  run = λ a w. (
    (if a.id == id
        then err (capability "access denied")
        else ok (execution ActionStatus.succeeded)),
    w,
  );
  is_cancelled = λ w. (false, w);
  clock = λ w. (w, w + 1);
}

abbrev pub apply_policy : ExecutionPolicy
apply_policy = record { operation = Operation.apply; continue_on_error = true }

abbrev pub canonical : Canonical
canonical = record {
  show_action = λ id. "action";
  host_digest = λ payload. ok 5;
  facts_digest = λ facts. ok 8;
  parameters_digest = λ parameters. ok 3;
}

abbrev pub host : HostIdentity
host = record {
  host_id = "host";
  boot_id = "boot";
  session_id = "session";
  hostname = "desk";
  os_family = OsFamily.windows;
  os_version = "10.0";
  architecture = "x86_64";
  fingerprint = 5;
}

abbrev pub tool : ToolIdentity
tool = record { name = "worker"; version = "1.0"; build_digest = none }

abbrev pub source : SourceIdentity
source = record { kind = SourceKind.local_file; locator = "profile.json"; digest = 4 }

abbrev pub input : InputIdentity
input = record { digest = 6; size_bytes = 12 }

abbrev pub observed : ObservedValue
observed = record {
  capability = "windows.update";
  parameters_digest = 3;
  observed_at = 40;
  facts = end;
}

abbrev pub plan : Plan
plan = record {
  schema_version = PlanSchemaVersion.v4;
  id = 1;
  run_id = 2;
  intent = ExecutionIntent.apply;
  profile_id = 3;
  profile_digest = 4;
  host = host;
  tool = tool;
  package_digest = 9;
  source = source;
  input = input;
  resources = [];
  observed_state = record {
    captured_at = 41;
    digest = 8;
    values = (17, observed) ∷ (19, observed) ∷ [];
  };
  issued_at = 50;
  expires_at = 60;
  actions = two_actions;
  metadata = end;
}

abbrev pub context : PlanValidationContext
context = record {
  now = 55;
  intent = ExecutionIntent.apply;
  host = host;
  tool = tool;
  package_digest = 9;
  source = source;
  input = input;
  observed_state_digest = 8;
}

abbrev pub artifact : Artifact
artifact = record {
  id = 1;
  kind = ArtifactKind.log;
  media_type = "text/plain";
  locator = "logs/run.txt";
  digest = 2;
  size_bytes = 4096;
  created_at = 58;
  metadata = end;
}

abbrev pub worker_result : WorkerResult
worker_result = record {
  schema_version = SchemaVersion.v3;
  plan_id = 1;
  run_id = 2;
  plan_digest = 3;
  journal_terminal_hash = some 4;
  receipts =
      record {
        action_id = 9;
        capability = "windows.update";
        pre_state_digest = 1;
        post_state_digest = 2;
        status = ActionStatus.succeeded;
      }
      ∷ [];
  artifact_manifest = artifact ∷ [];
  final_status = ResultStatus.completed;
  reason = none;
  exit_code = pos 0;
}

abbrev pub run_result : RunResult
run_result = record {
  schema_version = SchemaVersion.v3;
  id = 1;
  run_id = 2;
  plan_id = 1;
  profile_id = 3;
  capability_id = none;
  operation = Operation.apply;
  host = host;
  status = ResultStatus.completed;
  started_at = 55;
  completed_at = 58;
  actions = [];
  findings = [];
  summary = "one action applied";
  artifacts = artifact ∷ [];
  metadata = end;
}
