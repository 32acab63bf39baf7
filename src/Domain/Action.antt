-- ===== src/Domain/Action.antt =====
-- rust/crates/baselineops-domain/src/model/action.rs and model/plan.rs
use baseline_ops.Prelude.{ℕ, String, Bool, Option, List, String-discrete, ℕ_discrete}
use baseline_ops.Domain.Ids.{
  ActionId, ArtifactId, CapabilityId, Digest, DateTime, PlanId, ProfileId, RunId,
}
use baseline_ops.Domain.Json.{JsonMap, Members-discrete}
use baseline_ops.Domain.Primitives.{
  SchemaVersion, PlanSchemaVersion, Operation, ExecutionIntent, OsFamily, Privilege,
  RebootRequirement, Reversibility, RiskLevel,
}
use baseline_ops.Domain.Bindings.{
  HostIdentity, ToolIdentity, SourceIdentity, InputIdentity, ResourceBinding, ObservedState,
}

pub data Precondition : Type 0 where
  elevation : (required : Bool) → Precondition
  privilege : (privilege : Privilege) → Precondition
  capability_available : (capability : CapabilityId) → Precondition
  host_fingerprint : (fingerprint : Digest) → Precondition
  observed_state_digest : (digest : Digest) → Precondition
  operating_system : (family : OsFamily) → (minimum_version : Option String) → Precondition

pub data ArtifactKind : Type 0 where
  log report evidence rollback_state output : ArtifactKind

pub record Artifact : Type 0 where
  pub id : ArtifactId
  pub kind : ArtifactKind
  pub media_type : String
  pub locator : String
  pub digest : Digest
  pub size_bytes : ℕ
  pub created_at : DateTime
  pub metadata : JsonMap

pub record ProfileStep : Type 0 where
  pub step_id : ActionId
  pub capability_id : CapabilityId
  pub parameters : JsonMap
  pub depends_on : List ActionId
  pub continue_on_error : Bool

pub record PlannedAction : Type 0 where
  pub id : ActionId
  pub source_step : ActionId
  pub capability : CapabilityId
  pub operation : Operation
  pub parameters : JsonMap
  pub depends_on : List ActionId
  pub continue_on_error : Bool
  pub facts_digest : Digest
  pub preconditions : List Precondition
  pub risk : RiskLevel
  pub reversibility : Reversibility
  pub reboot : RebootRequirement
  pub privileges : List Privilege
  pub metadata : JsonMap

pub record ProfileDefaults : Type 0 where
  pub continue_on_error : Bool

pub record Profile : Type 0 where
  pub schema_version : SchemaVersion
  pub id : ProfileId
  pub name : String
  pub version : String
  pub description : Option String
  pub created_at : DateTime
  pub expires_at : Option DateTime
  pub defaults : ProfileDefaults
  pub steps : List ProfileStep
  pub metadata : JsonMap

pub record Plan : Type 0 where
  pub schema_version : PlanSchemaVersion
  pub id : PlanId
  pub run_id : RunId
  pub intent : ExecutionIntent
  pub profile_id : ProfileId
  pub profile_digest : Digest
  pub host : HostIdentity
  pub tool : ToolIdentity
  pub package_digest : Digest
  pub source : SourceIdentity
  pub input : InputIdentity
  pub resources : List ResourceBinding
  pub observed_state : ObservedState
  pub issued_at : DateTime
  pub expires_at : DateTime
  pub actions : List PlannedAction
  pub metadata : JsonMap

unfoldable pub Artifact-discrete : Discrete Artifact
Artifact-discrete = hlevel (String-discrete, ℕ_discrete, Members-discrete)

unfoldable pub PlannedAction-discrete : Discrete PlannedAction
PlannedAction-discrete = hlevel (String-discrete, ℕ_discrete, Members-discrete)
