-- ===== src/Validate/Plan.antt =====
-- The checks of validate.rs and validate/observation.rs on profiles and plans. A
-- `TopologicalOrder` and a `VerifiedPlan` are what they wrap.
pub mod Laws
pub mod Observations
use baseline_ops.Prelude.{
  ℕ, String, Bool, true, not, ◌==◌, ◌||◌, leb, same, if◌then◌else◌, String-discrete, ℕ_discrete,
  Option, none, some, List, [], ◌∷◌, length, lookup, has, insert_key, Outcome, ok, err, done,
  reject_if, each, ok_or, ◌>>=◌, ◌>>◌,
}
use baseline_ops.Domain.Ids.{ActionId, Digest, DateTime}
use baseline_ops.Domain.Json.{DomainResult, validation}
use baseline_ops.Domain.Primitives.{ExecutionIntent, ExecutionIntent-discrete}
use baseline_ops.Domain.Bindings.{
  HostIdentity, ToolIdentity, SourceIdentity, InputIdentity, ObservedValue, HostIdentity-discrete,
  ToolIdentity-discrete, SourceIdentity-discrete, InputIdentity-discrete,
}
use baseline_ops.Domain.Action.{
  Precondition, elevation, privilege, capability_available, host_fingerprint, observed_state_digest,
  operating_system, ProfileStep, PlannedAction, Profile, Plan,
}
use baseline_ops.Validate.Text.{validate_nonempty, validate_optional_text, validate_equal}
use baseline_ops.Validate.Json.{validate_json_map}
use baseline_ops.Validate.Graph.Total.{validate_dependency_graph}
use baseline_ops.Validate.Identity.{
  Canonical, validate_host, validate_observed_state, validate_tool, validate_source,
}

pub record ProfileValidation : Type 0 where
  pub topological_order : List ActionId

pub record PlanValidationContext : Type 0 where
  pub now : DateTime
  pub intent : ExecutionIntent
  pub host : HostIdentity
  pub tool : ToolIdentity
  pub package_digest : Digest
  pub source : SourceIdentity
  pub input : InputIdentity
  pub observed_state_digest : Digest

unfoldable pub validate_profile_header : Profile → DomainResult Unit
validate_profile_header profile = do
  validate_nonempty "profile name" profile.name 256
  validate_nonempty "profile version" profile.version 128
  validate_optional_text "profile description" profile.description 4096

unfoldable pub validate_profile_expiry_order :
    (expires_at created_at : DateTime) → DomainResult Unit
validate_profile_expiry_order expires_at created_at =
    reject_if (leb expires_at created_at)
      (validation "profile expiry must be after its creation time")

unfoldable pub validate_profile_expiry : Profile → DomainResult Unit
unfolding validate_profile_expiry_order
validate_profile_expiry profile = elim profile.expires_at [
  | none ↦ done
  | some expires_at ↦ validate_profile_expiry_order expires_at profile.created_at
]

unfoldable pub validate_profile_step : ProfileStep → DomainResult Unit
validate_profile_step step = do
  validate_nonempty "profile step capability ID" step.capability_id 128
  validate_json_map "profile step parameters" step.parameters

unfoldable pub validate_precondition : Precondition → DomainResult Unit
validate_precondition (operating_system family (some version)) =
    validate_nonempty "minimum OS version" version 128
validate_precondition (operating_system family none) = done
validate_precondition (elevation required) = done
validate_precondition (privilege p) = done
validate_precondition (capability_available capability) = done
validate_precondition (host_fingerprint fingerprint) = done
validate_precondition (observed_state_digest digest) = done

unfoldable pub validate_planned_action : PlannedAction → DomainResult Unit
unfolding validate_precondition
validate_planned_action action = do
  validate_nonempty "planned action capability ID" action.capability 128
  validate_json_map "planned action parameters" action.parameters
  validate_json_map "planned action metadata" action.metadata
  each validate_precondition action.preconditions

unfoldable pub validate_plan_input : Plan → DomainResult Unit
validate_plan_input plan =
    reject_if (plan.input.size_bytes == 0) (validation "plan input size must be non-zero")

unfoldable pub validate_context_bindings : Plan → PlanValidationContext → DomainResult Unit
unfolding validate_equal
validate_context_bindings plan context = do
  validate_equal ℕ_discrete plan.package_digest context.package_digest
      "plan package digest does not match the verified package"
  validate_equal SourceIdentity-discrete plan.source context.source
      "plan source identity does not match the re-verified source"
  validate_equal InputIdentity-discrete plan.input context.input
      "plan input identity does not match the re-verified input"
  validate_equal ℕ_discrete plan.observed_state.digest context.observed_state_digest
      "plan observed state does not match the current state binding"

module _ (c : Canonical) where
  unfoldable pub validate_profile_steps : List ProfileStep → DomainResult (List ActionId)
  unfolding validate_dependency_graph
  validate_profile_steps =
      validate_dependency_graph c.show_action (λ step. step.step_id) (λ step. step.depends_on)
        validate_profile_step

  unfoldable pub validate_planned_actions : List PlannedAction → DomainResult (List ActionId)
  unfolding validate_dependency_graph
  validate_planned_actions =
      validate_dependency_graph c.show_action (λ action. action.id) (λ action. action.depends_on)
        validate_planned_action

  -- `validate_profile_payload`
  unfoldable pub validate_profile_payload : Profile → DomainResult ProfileValidation
  unfolding validate_profile_steps
  validate_profile_payload profile = do
    validate_json_map "profile metadata" profile.metadata
    order ← validate_profile_steps profile.steps
    ok (record { topological_order = order })

  -- `ProfileV3::validate`
  unfoldable pub validate_profile : Profile → DomainResult ProfileValidation
  unfolding validate_profile_header validate_profile_expiry validate_profile_payload
  validate_profile profile = do
    validate_profile_header profile
    validate_profile_expiry profile
    validate_profile_payload profile

  unfoldable pub validate_plan_static_fields : Plan → DomainResult Unit
  unfolding validate_host validate_tool validate_source validate_plan_input validate_observed_state
  validate_plan_static_fields plan = do
    reject_if (leb plan.expires_at plan.issued_at)
        (validation "plan expiry must be after its issue time")
    validate_host c plan.host
    validate_tool plan.tool
    validate_source plan.source
    validate_plan_input plan
    validate_observed_state c plan.observed_state
    validate_json_map "plan metadata" plan.metadata

  -- The digest of the parameters is computed only where both tests before it pass.
  unfoldable pub validate_action_observation :
      PlannedAction → Digest → ObservedValue → DomainResult Unit
  validate_action_observation action digest observed =
      if not (action.facts_digest == digest)
        || not (same String-discrete observed.capability action.capability)
      then err (validation "planned action does not match its step observation binding")
      else (do
        parameters ← c.parameters_digest action.parameters
        reject_if (not (observed.parameters_digest == parameters))
            (validation "planned action does not match its step observation binding"))

  -- The loop of `validate_plan_observation_bindings`.
  unfoldable pub validate_bindings :
      Digest
      → List (ActionId × ObservedValue)
      → (source_steps : List ActionId) → List PlannedAction
      → DomainResult Unit
  unfolding validate_action_observation
  validate_bindings digest values source_steps [] = done
  validate_bindings digest values source_steps (action ∷ actions) = do
    reject_if (has action.source_step source_steps)
        (validation "planned source steps must be unique")
    observed ←
        ok_or (lookup action.source_step values)
          (validation "planned action has no step-bound observation")
    validate_action_observation action digest observed
    validate_bindings digest values (insert_key action.source_step source_steps) actions

  unfoldable pub validate_plan_observation_bindings : Plan → DomainResult Unit
  unfolding validate_bindings
  validate_plan_observation_bindings plan = do
    reject_if (not (length plan.observed_state.values == length plan.actions))
        (validation "plan must retain one observation for every source step")
    validate_bindings plan.observed_state.digest plan.observed_state.values [] plan.actions

  -- `PlanV3::validate_structure`
  unfoldable pub validate_structure : Plan → DomainResult (List ActionId)
  unfolding validate_plan_static_fields validate_planned_actions validate_plan_observation_bindings
  validate_structure plan = do
    validate_plan_static_fields plan
    order ← validate_planned_actions plan.actions
    validate_plan_observation_bindings plan
    ok order

  -- `PlanV3::validate_at`
  unfoldable pub validate_at : Plan → DateTime → DomainResult (List ActionId)
  unfolding validate_structure
  validate_at plan now = do
    order ← validate_structure plan
    reject_if (leb plan.expires_at now) (validation "plan has expired")
    ok order

  unfoldable pub validate_context_host_and_tool : Plan → PlanValidationContext → DomainResult Unit
  unfolding validate_host validate_equal
  validate_context_host_and_tool plan context = do
    validate_host c context.host
    validate_equal HostIdentity-discrete plan.host context.host
        "plan host identity does not match the current host"
    validate_equal ToolIdentity-discrete plan.tool context.tool
        "plan tool identity does not match the current worker"

  -- `PlanV3::validate_against`
  unfoldable pub validate_against : Plan → PlanValidationContext → DomainResult (List ActionId)
  unfolding validate_at validate_context_host_and_tool validate_context_bindings
  validate_against plan context = do
    order ← validate_at plan context.now
    reject_if (not (same ExecutionIntent-discrete plan.intent context.intent))
        (validation "plan intent does not match the requested execution intent")
    validate_context_host_and_tool plan context
    validate_context_bindings plan context
    ok order

  -- `PlanV3::verify_for_execution`
  unfoldable pub verify_for_execution : Plan → PlanValidationContext → DomainResult Plan
  unfolding validate_against
  verify_for_execution plan context = do _ ← validate_against plan context; ok plan
