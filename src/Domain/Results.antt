-- ===== src/Domain/Results.antt =====
-- rust/crates/baselineops-domain/src/model/result.rs
use baseline_ops.Prelude.{ℤ, pos, String, Option, List}
use baseline_ops.Domain.Ids.{
  ActionId, CapabilityId, Digest, DateTime, FindingId, PlanId, ProfileId, ResultId, RunId,
}
use baseline_ops.Domain.Json.{JsonMap}
use baseline_ops.Domain.Primitives.{SchemaVersion, Operation}
use baseline_ops.Domain.Bindings.{HostIdentity}
use baseline_ops.Domain.Action.{Artifact}

pub data ActionStatus : Type 0 where
  succeeded findings blocked skipped failed : ActionStatus

pub record ActionReceipt : Type 0 where
  pub action_id : ActionId
  pub capability : CapabilityId
  pub pre_state_digest : Digest
  pub post_state_digest : Digest
  pub status : ActionStatus

pub record ActionResult : Type 0 where
  pub action_id : ActionId
  pub capability : CapabilityId
  pub status : ActionStatus
  pub started_at : DateTime
  pub completed_at : DateTime
  pub metadata : JsonMap

pub data Severity : Type 0 where
  info low medium high critical : Severity

pub data FindingStatus : Type 0 where
  pass fail warning info skipped error : FindingStatus

pub record Finding : Type 0 where
  pub id : FindingId
  pub capability : CapabilityId
  pub action_id : Option ActionId
  pub code : String
  pub status : FindingStatus
  pub severity : Severity
  pub message : String
  pub observed_at : DateTime
  pub evidence : JsonMap

pub data ResultStatus : Type 0 where
  completed execution_failed warnings unsupported rejected cancelled : ResultStatus

pub data ExitCode : Type 0 where
  completed execution_failure warnings unsupported rejected cancelled : ExitCode

abbrev pub as_i32 : ExitCode → ℤ
as_i32 ExitCode.completed = pos 0
as_i32 ExitCode.execution_failure = pos 1
as_i32 ExitCode.warnings = pos 2
as_i32 ExitCode.unsupported = pos 3
as_i32 ExitCode.rejected = pos 4
as_i32 ExitCode.cancelled = pos 5

abbrev pub for_status : ResultStatus → ExitCode
for_status ResultStatus.completed = ExitCode.completed
for_status ResultStatus.execution_failed = ExitCode.execution_failure
for_status ResultStatus.warnings = ExitCode.warnings
for_status ResultStatus.unsupported = ExitCode.unsupported
for_status ResultStatus.rejected = ExitCode.rejected
for_status ResultStatus.cancelled = ExitCode.cancelled

pub record RunResult : Type 0 where
  pub schema_version : SchemaVersion
  pub id : ResultId
  pub run_id : RunId
  pub plan_id : PlanId
  pub profile_id : ProfileId
  pub capability_id : Option CapabilityId
  pub operation : Operation
  pub host : HostIdentity
  pub status : ResultStatus
  pub started_at : DateTime
  pub completed_at : DateTime
  pub actions : List ActionResult
  pub findings : List Finding
  pub summary : String
  pub artifacts : List Artifact
  pub metadata : JsonMap

pub record WorkerResult : Type 0 where
  pub schema_version : SchemaVersion
  pub plan_id : PlanId
  pub run_id : RunId
  pub plan_digest : Digest
  pub journal_terminal_hash : Option Digest
  pub receipts : List ActionReceipt
  pub artifact_manifest : List Artifact
  pub final_status : ResultStatus
  pub reason : Option String
  pub exit_code : ℤ

unfoldable pub ActionStatus-discrete : Discrete ActionStatus
ActionStatus-discrete = hlevel

unfoldable pub ResultStatus-discrete : Discrete ResultStatus
ResultStatus-discrete = hlevel
