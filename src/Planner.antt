-- ===== src/Planner.antt =====
-- rust/crates/baselineops-engine/src/planner.rs. What it calls outside is in `Planning`: the digests
-- (serde_json, sha2), new identifiers (uuid) and chrono's moments. A `HashMap` is only asked for
-- the value of a key.
pub mod Laws
pub mod Build
pub mod Rebuild
use baseline_ops.Prelude.{
  ℕ, suc, ◌+◌, ◌-◌, ◌*◌, ◌==◌, ltb, leb, String, Bool, true, false, not, ◌&&◌, ◌||◌, ℤ, pos, negsuc,
  if◌then◌else◌, same, ℕ_discrete, String-discrete, Option, none, some, List, [], ◌∷◌, lookup,
  insert, get_elem?, Outcome, ok, err, reject_if, ok_or, map_err, ◌>>=◌, ◌>>◌,
}
use baseline_ops.Domain.Ids.{ActionId, CapabilityId, PlanId, RunId, Digest, DateTime}
use baseline_ops.Domain.Json.{Members, DomainError, DomainResult}
use baseline_ops.Domain.Primitives.{
  PlanSchemaVersion, ExecutionIntent, ExecutionIntent-discrete, Operation-discrete, operation_of,
}
use baseline_ops.Domain.Bindings.{
  HostIdentity, ToolIdentity, SourceIdentity, InputIdentity, ResourceBinding, ObservedState,
  HostIdentity-discrete, ToolIdentity-discrete, SourceIdentity-discrete, InputIdentity-discrete,
  ResourceBinding-discrete,
}
use baseline_ops.Domain.Action.{Profile, ProfileStep, PlannedAction, PlannedAction-discrete, Plan}
use baseline_ops.Validate.Identity.{Canonical, validate_host, validate_observed_state}
use baseline_ops.Validate.Plan.{
  ProfileValidation, validate_profile, validate_structure, validate_at,
}

-- A duration in ticks.
abbrev pub Duration : Type 0
Duration = ℤ

pub record Planning : Type 0 where
  pub canonical : Canonical
  pub profile_digest : Profile → DomainResult Digest
  pub plan_digest : Plan → DomainResult Digest
  pub new_plan_id : PlanId
  pub new_run_id : RunId
  -- the ticks of a second, and the last moment that chrono can hold
  pub second : ℕ
  pub max_utc : DateTime

pub record PlanBuildContext : Type 0 where
  pub intent : ExecutionIntent
  pub host : HostIdentity
  pub tool : ToolIdentity
  pub package_digest : Digest
  pub source : SourceIdentity
  pub input : InputIdentity
  pub resources : List ResourceBinding
  pub observed_state : ObservedState
  pub lifetime : Duration

pub record WorkerPlan : Type 0 where
  pub plan : Plan
  pub digest : Digest

-- The port `TrustedActionDeriver`.
abbrev pub TrustedActionDeriver : Type 0
TrustedActionDeriver = ProfileStep → ExecutionIntent → ObservedState → Outcome String PlannedAction

pub data PlanningError : Type 0 where
  domain : DomainError → PlanningError
  invalid_lifetime : PlanningError
  expiry_overflow : PlanningError
  expired_profile : PlanningError
  source_step_mismatch : PlanningError
  intent_mismatch : PlanningError
  facts_mismatch : PlanningError
  derivation : String → PlanningError
  reviewed_envelope_mismatch : PlanningError

unfoldable pub ResourceBindings-discrete : Discrete (List ResourceBinding)
ResourceBindings-discrete = hlevel ResourceBinding-discrete

unfoldable pub PlannedActions-discrete : Discrete (List PlannedAction)
PlannedActions-discrete = hlevel PlannedAction-discrete

-- `HashMap<CapabilityId, _>`
abbrev pub get_capability : {V : Type 0} → CapabilityId → List (CapabilityId × V) → Option V
get_capability k [] = none
get_capability k ((j, v) ∷ m) = if same String-discrete k j then some v else get_capability k m

-- `map.entry(capability).or_default().insert(step_id, position)`
abbrev pub insert_step :
    CapabilityId
    → ActionId
    → ℕ
    → List (CapabilityId × List (ActionId × ℕ))
    → List (CapabilityId × List (ActionId × ℕ))
insert_step k step_id position [] = (k, insert step_id position []) ∷ []
insert_step k step_id position ((j, steps) ∷ m) =
    if same String-discrete k j
    then (j, insert step_id position steps) ∷ m
    else (j, steps) ∷ insert_step k step_id position m

pub record PlanningIndex : Type 0 where
  pub capability_by_step : List (ActionId × CapabilityId)
  pub steps_by_capability : List (CapabilityId × List (ActionId × ℕ))

-- The loop of `PlanningIndex::from_validated`.
unfoldable pub index_steps : (position : ℕ) → List ProfileStep → PlanningIndex → PlanningIndex
index_steps position [] index = index
index_steps position (step ∷ steps) index = index_steps (position + 1) steps (record {
  capability_by_step = insert step.step_id step.capability_id index.capability_by_step;
  steps_by_capability =
      insert_step step.capability_id step.step_id position index.steps_by_capability;
})

unfoldable pub from_validated : Profile → PlanningIndex
unfolding index_steps
from_validated profile =
    index_steps 0 profile.steps (record { capability_by_step = []; steps_by_capability = [] })

-- `a?` of an option, in a function that returns an option
abbrev pub and_then : {A B : Type 0} → Option A → (A → Option B) → Option B
and_then none f = none
and_then (some a) f = f a

-- `PlanningIndex::step`
unfoldable pub step_of : PlanningIndex → Profile → ActionId → Option ProfileStep
step_of index profile step_id = and_then (lookup step_id index.capability_by_step) λ capability.
    and_then (get_capability capability index.steps_by_capability)
      λ steps. and_then (lookup step_id steps) λ position. get_elem? profile.steps position

unfoldable pub validate_derived_action :
    PlannedAction → ProfileStep → PlanBuildContext → Outcome PlanningError (Unit {0})
validate_derived_action action step context = do
  reject_if
      (not (action.source_step == step.step_id)
        || not (same String-discrete action.capability step.capability_id))
      source_step_mismatch
  reject_if (not (same Operation-discrete action.operation (operation_of context.intent)))
      intent_mismatch
  reject_if (not (action.facts_digest == context.observed_state.digest)) facts_mismatch

module _ (index : PlanningIndex) (profile : Profile) (context : PlanBuildContext)
    (derive : TrustedActionDeriver) where
  unfoldable pub derive_action : ActionId → Outcome PlanningError PlannedAction
  unfolding step_of validate_derived_action
  derive_action step_id = do
    step ← ok_or (step_of index profile step_id) source_step_mismatch
    action ← map_err derivation (derive step context.intent context.observed_state)
    validate_derived_action action step context
    ok action

  unfoldable pub derive_actions :
      (order : List ActionId) → Outcome PlanningError (List PlannedAction)
  unfolding derive_action
  derive_actions [] = ok []
  derive_actions (step_id ∷ order) = do
    action ← derive_action step_id
    actions ← derive_actions order
    ok (action ∷ actions)

abbrev pub is_over : Option DateTime → DateTime → Bool
is_over none now = false
is_over (some expires_at) now = leb expires_at now

-- `(1 second ..= 24 hours).contains(lifetime)`
abbrev pub is_lifetime : (second : ℕ) → Duration → Bool
is_lifetime second (pos n) = leb second n && leb n (24 * 60 * 60 * second)
is_lifetime second (negsuc n) = false

-- `now.checked_add_signed(lifetime)`, which is called with a lifetime above zero only.
abbrev pub checked_add_signed : (max_utc now : DateTime) → Duration → Option DateTime
checked_add_signed max_utc now (pos n) = if leb (now + n) max_utc then some (now + n) else none
checked_add_signed max_utc now (negsuc n) = if ltb n now then some (now - suc n) else none

module _ (p : Planning) where
  unfoldable pub validate_build_inputs :
      Profile → PlanBuildContext → DateTime → Outcome PlanningError (List ActionId × DateTime)
  unfolding validate_profile validate_host validate_observed_state
  validate_build_inputs profile context now = do
    validation ← map_err domain (validate_profile p.canonical profile)
    map_err domain (validate_host p.canonical context.host)
    map_err domain (validate_observed_state p.canonical context.observed_state)
    reject_if (is_over profile.expires_at now) expired_profile
    reject_if (not (is_lifetime p.second context.lifetime)) invalid_lifetime
    expires_at ← ok_or (checked_add_signed p.max_utc now context.lifetime) expiry_overflow
    ok (validation.topological_order, expires_at)

  unfoldable pub build_worker_plan :
      Profile
      → PlanBuildContext
      → (now expires_at : DateTime) → List PlannedAction
      → Outcome PlanningError WorkerPlan
  unfolding validate_structure
  build_worker_plan profile context now expires_at actions = do
    profile_digest ← map_err domain (p.profile_digest profile)
    let plan : Plan = record {
      schema_version = PlanSchemaVersion.v4;
      id = p.new_plan_id;
      run_id = p.new_run_id;
      intent = context.intent;
      profile_id = profile.id;
      profile_digest = profile_digest;
      host = context.host;
      tool = context.tool;
      package_digest = context.package_digest;
      source = context.source;
      input = context.input;
      resources = context.resources;
      observed_state = context.observed_state;
      issued_at = now;
      expires_at = expires_at;
      actions = actions;
      metadata = Members.end;
    }
    _ ← map_err domain (validate_structure p.canonical plan)
    digest ← map_err domain (p.plan_digest plan)
    ok (record { plan = plan; digest = digest })

  unfoldable pub build_plan :
      Profile
      → PlanBuildContext
      → TrustedActionDeriver
      → (now : DateTime) → Outcome PlanningError WorkerPlan
  unfolding validate_build_inputs from_validated derive_actions build_worker_plan
  build_plan profile context derive now = do
    inputs ← validate_build_inputs profile context now
    actions ← derive_actions (from_validated profile) profile context derive inputs.0
    build_worker_plan profile context now inputs.1 actions

-- The comparison of two tuples.
unfoldable pub same_reviewed_bindings : (reviewed fresh : Plan) → Bool
same_reviewed_bindings reviewed fresh =
    reviewed.profile_id == fresh.profile_id
    && reviewed.profile_digest == fresh.profile_digest
    && same HostIdentity-discrete reviewed.host fresh.host
    && same ToolIdentity-discrete reviewed.tool fresh.tool
    && reviewed.package_digest == fresh.package_digest
    && same SourceIdentity-discrete reviewed.source fresh.source
    && same InputIdentity-discrete reviewed.input fresh.input
    && same ResourceBindings-discrete reviewed.resources fresh.resources
    && reviewed.observed_state.digest == fresh.observed_state.digest
    && same PlannedActions-discrete reviewed.actions fresh.actions

unfoldable pub validate_reviewed_authority :
    (reviewed fresh : Plan) → Outcome PlanningError (Unit {0})
unfolding same_reviewed_bindings
validate_reviewed_authority reviewed fresh =
    reject_if
      (ltb fresh.expires_at reviewed.expires_at || not (same_reviewed_bindings reviewed fresh))
      reviewed_envelope_mismatch

module _ (p : Planning) where
  unfoldable pub rebuild_reviewed_apply_plan :
      (reviewed : Plan)
      → Profile
      → PlanBuildContext
      → TrustedActionDeriver
      → (now : DateTime) → Outcome PlanningError WorkerPlan
  unfolding validate_at build_plan validate_reviewed_authority
  rebuild_reviewed_apply_plan reviewed profile context derive now = do
    reject_if (not (same ExecutionIntent-discrete reviewed.intent ExecutionIntent.apply))
        reviewed_envelope_mismatch
    _ ← map_err domain (validate_at p.canonical reviewed now)
    built ← build_plan p profile context derive now
    let fresh = built.plan
    validate_reviewed_authority reviewed fresh
    let plan : Plan = record fresh {
      id = reviewed.id;
      run_id = reviewed.run_id;
      observed_state = reviewed.observed_state;
      issued_at = reviewed.issued_at;
      expires_at = reviewed.expires_at;
      metadata = reviewed.metadata;
    }
    _ ← map_err domain (validate_structure p.canonical plan)
    digest ← map_err domain (p.plan_digest plan)
    ok (record { plan = plan; digest = digest })
