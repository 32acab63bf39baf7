-- ===== src/Domain/Primitives.antt =====
-- rust/crates/baselineops-domain/src/model/primitives.rs
pub data SchemaVersion : Type 0 where
  v3 : SchemaVersion

pub data PlanSchemaVersion : Type 0 where
  v4 : PlanSchemaVersion

pub data Operation : Type 0 where
  audit plan apply : Operation

pub data ExecutionIntent : Type 0 where
  audit plan apply : ExecutionIntent

-- `From<ExecutionIntent> for Operation`
abbrev pub operation_of : ExecutionIntent → Operation
operation_of ExecutionIntent.audit = Operation.audit
operation_of ExecutionIntent.plan = Operation.plan
operation_of ExecutionIntent.apply = Operation.apply

pub data RiskLevel : Type 0 where
  none low moderate high critical : RiskLevel

pub data Reversibility : Type 0 where
  not_applicable reversible conditionally_reversible irreversible : Reversibility

pub data RebootRequirement : Type 0 where
  not_required recommended required : RebootRequirement

pub data Privilege : Type 0 where
  user administrator local_system backup_operator security_operator : Privilege

pub data OsFamily : Type 0 where
  windows linux macos other : OsFamily

unfoldable pub Operation-discrete : Discrete Operation
Operation-discrete = hlevel

unfoldable pub ExecutionIntent-discrete : Discrete ExecutionIntent
ExecutionIntent-discrete = hlevel
