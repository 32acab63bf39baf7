-- ===== src/Planner/Build.antt =====
-- `build_plan` as a whole.
use baseline_ops.Prelude.{
  ◌<◌, Option, none, count, has, map, IsDistinct, ℕ, ◌+◌, ◌*◌, ◌≤◌, ◌≡◌, refl, ◌∙◌, ap, Bool, true,
  false, not, pos, negsuc, some, List, ok, reject_if, ok_or, map_err, >>=-eq-ok, >>-eq-ok,
  map_err-eq-ok, ok_or-eq-ok, arith,
}
use baseline_ops.Domain.Ids.{ActionId, Digest, DateTime}
use baseline_ops.Domain.Json.{Members}
use baseline_ops.Domain.Primitives.{PlanSchemaVersion}
use baseline_ops.Domain.Action.{Profile, ProfileStep, PlannedAction, Plan}
use baseline_ops.Validate.Identity.{Canonical, validate_host, validate_observed_state}
use baseline_ops.Validate.Plan.{
  validate_profile, validate_profile_header, validate_profile_expiry, validate_profile_payload,
  validate_profile_steps, validate_profile_step, validate_structure,
}
use baseline_ops.Graph.Edges.{EveryEdge, before}
use baseline_ops.Validate.Json.{validate_json_map}
use baseline_ops.Validate.Graph.Laws.{validate_dependency_graph-sorts}
use baseline_ops.Planner.{
  Planning, PlanBuildContext, WorkerPlan, TrustedActionDeriver, domain, expired_profile,
  invalid_lifetime, expiry_overflow, Duration, from_validated, derive_actions, is_over, is_lifetime,
  checked_add_signed, validate_build_inputs, build_worker_plan, build_plan,
}
use baseline_ops.Planner.Laws.{AreDerived, derive_actions-AreDerived}

-- A lifetime within its bounds, and the expiry that it gives.
pub record IsTimed (p : Planning) (lifetime : Duration) (now expires_at : DateTime) : Type 0 where
  pub ticks : ℕ
  pub lasts : lifetime ≡ pos ticks
  pub least : p.second ≤ ticks
  pub most : ticks ≤ 24 * 60 * 60 * p.second
  pub expires : expires_at ≡ now + ticks
  pub fits : expires_at ≤ p.max_utc

-- The moment at which a profile ends, where it has one, is still to come.
abbrev pub IsCurrent : Option DateTime → DateTime → Type 0
IsCurrent none now = Unit
IsCurrent (some expires_at) now = now < expires_at

is_over-IsCurrent :
    (end : Option DateTime) (now : DateTime) → is_over end now ≡ false → IsCurrent end now
is_over-IsCurrent none now h = tt
is_over-IsCurrent (some expires_at) now h = ground (arith, h)

-- What the inputs of a plan were found to be.
pub record AreInputs (p : Planning) (profile : Profile) (context : PlanBuildContext)
    (now : DateTime) (order : List ActionId) (expires_at : DateTime) : Type 0 where
  pub profile_valid :
      validate_profile p.canonical profile ≡ ok (record { topological_order = order })
  pub host_valid : validate_host p.canonical context.host ≡ ok tt
  pub observed_valid : validate_observed_state p.canonical context.observed_state ≡ ok tt
  pub current : IsCurrent profile.expires_at now
  pub timed : IsTimed p context.lifetime now expires_at

-- Each step of the profile once, and every dependency of a step before it.
pub record IsStepOrder (steps : List ProfileStep) (order : List ActionId) : Type 0 where
  pub counts : (x : ActionId) → count x order ≡ count x (map (λ step. step.step_id) steps)
  pub distinct : IsDistinct order
  pub before_dependents :
      EveryEdge
        (λ step. step.step_id)
        (λ step. step.depends_on)
        (λ step dependency. has dependency (before step order) ≡ true)
        steps

-- A plan that was built: from the context and the profile, with an action for each step.
pub record IsBuilt (p : Planning) (profile : Profile) (context : PlanBuildContext)
    (derive : TrustedActionDeriver) (now : DateTime) (built : WorkerPlan) : Type 0 where
  pub order : List ActionId
  pub profile_digest : Digest
  pub expires_at : DateTime
  pub actions : List PlannedAction
  pub inputs : AreInputs p profile context now order expires_at
  pub ordered : IsStepOrder profile.steps order
  pub answers : AreDerived profile context derive order actions
  pub digested : p.profile_digest profile ≡ ok profile_digest
  pub plan : built.plan ≡ record {
    schema_version = PlanSchemaVersion.v4;
    id = p.new_plan_id;
    run_id = p.new_run_id;
    intent = context.intent;
    profile_id = profile.id;
    profile_digest = profile_digest;
    host = context.host;
    tool = context.tool;
    package_digest = context.package_digest;
    source = context.source;
    input = context.input;
    resources = context.resources;
    observed_state = context.observed_state;
    issued_at = now;
    expires_at = expires_at;
    actions = actions;
    metadata = Members.end;
  }
  pub plan_order : List ActionId
  pub valid : validate_structure p.canonical built.plan ≡ ok plan_order
  pub digest : p.plan_digest built.plan ≡ ok built.digest

-- The order of a valid profile.
validate_profile-IsStepOrder :
    (c : Canonical) (profile : Profile) (order : List ActionId)
    → validate_profile c profile ≡ ok (record { topological_order = order })
    → IsStepOrder profile.steps order
unfolding validate_profile validate_profile_payload validate_profile_steps
validate_profile-IsStepOrder c profile order h =
    let (_, h1) = >>-eq-ok (validate_profile_header profile) _ h in
    let (_, h2) = >>-eq-ok (validate_profile_expiry profile) _ h1 in
    let (_, h3) = >>-eq-ok (validate_json_map "profile metadata" profile.metadata) _ h2 in
    let (found, graph, h4) = >>=-eq-ok (validate_profile_steps c profile.steps) _ h3 in
    let same : found ≡ order = cc h4 in
    let (counts, distinct, dependencies) =
      validate_dependency_graph-sorts c.show_action (λ (step : ProfileStep). step.step_id)
        (λ step. step.depends_on) validate_profile_step profile.steps order (rw same at graph) in
    record { counts = counts; distinct = distinct; before_dependents = dependencies }

module _ (p : Planning) where
  timed_lem :
      (lifetime : Duration) (now : DateTime) {expires_at : DateTime}
      → is_lifetime p.second lifetime ≡ true
      → checked_add_signed p.max_utc now lifetime ≡ some expires_at
      → IsTimed p lifetime now expires_at
  timed_lem (pos n) now {expires_at} within h = record {
    ticks = n;
    lasts = refl;
    least = ground (arith, within);
    most = ground (arith, within);
    expires = ground (arith, h);
    fits = ground (arith, h);
  }
  timed_lem (negsuc n) now within h = absurd (cc within)

  not_late : {E : Type 0} (b : Bool) (e : E) → reject_if b e ≡ ok tt → b ≡ false
  not_late true e h = absurd (cc h)
  not_late false e h = refl

  in_time : {E : Type 0} (b : Bool) (e : E) → reject_if (not b) e ≡ ok tt → b ≡ true
  in_time true e h = refl
  in_time false e h = absurd (cc h)

  validate_build_inputs-AreInputs :
      (profile : Profile) (context : PlanBuildContext) (now : DateTime) (order : List ActionId)
      (expires_at : DateTime)
      → validate_build_inputs p profile context now ≡ ok (order, expires_at)
      → AreInputs p profile context now order expires_at
  unfolding validate_build_inputs
  validate_build_inputs-AreInputs profile context now order expires_at h =
      let (validation, valid, h1) =
        >>=-eq-ok (map_err domain (validate_profile p.canonical profile)) _ h in
      let (host, h2) = >>-eq-ok (map_err domain (validate_host p.canonical context.host)) _ h1 in
      let (observed, h3) =
        >>-eq-ok (map_err domain (validate_observed_state p.canonical context.observed_state)) _
          h2 in
      let (current, h4) =
        >>-eq-ok (reject_if (is_over profile.expires_at now) expired_profile) _ h3 in
      let (within, h5) =
        >>-eq-ok (reject_if (not (is_lifetime p.second context.lifetime)) invalid_lifetime) _ h4 in
      let (end, added, h6) =
        >>=-eq-ok (ok_or (checked_add_signed p.max_utc now context.lifetime) expiry_overflow) _
          h5 in
      let same_order : validation.topological_order ≡ order = cc h6 in
      let same_end : end ≡ expires_at = cc h6 in
      let same_validation : validation ≡ record { topological_order = order } =
        ap (λ o. record { topological_order = o }) same_order in
      record {
        profile_valid =
            map_err-eq-ok domain (validate_profile p.canonical profile) valid
            ∙ ap (λ x. ok x) same_validation;
        host_valid = map_err-eq-ok domain (validate_host p.canonical context.host) host;
        observed_valid =
            map_err-eq-ok domain (validate_observed_state p.canonical context.observed_state)
              observed;
        current =
            is_over-IsCurrent profile.expires_at now
              (not_late (is_over profile.expires_at now) expired_profile current);
        timed =
            timed_lem context.lifetime now
              (in_time (is_lifetime p.second context.lifetime) invalid_lifetime within)
              (ok_or-eq-ok (checked_add_signed p.max_utc now context.lifetime) expiry_overflow added
                ∙ ap (λ x. some x) same_end);
      }

  -- A plan that is built comes from a valid profile that is not over, a valid host and a valid
  -- observation; it lasts from one second to a day; it has one action for each step, in an order that
  -- holds each step once and every dependency of a step before it, each derived for that step, of its capability, of the operation of the intent
  -- and bound to the digest of the facts; everything else in it is the context's and the profile's;
  -- its structure is valid, and its digest is its own.
  pub build_plan-IsBuilt :
      (profile : Profile) (context : PlanBuildContext) (derive : TrustedActionDeriver)
      (now : DateTime) (built : WorkerPlan)
      → build_plan p profile context derive now ≡ ok built
      → IsBuilt p profile context derive now built
  unfolding build_plan build_worker_plan
  build_plan-IsBuilt profile context derive now built h =
      let (inputs, valid, h1) = >>=-eq-ok (validate_build_inputs p profile context now) _ h in
      let (actions, derived, h2) =
        >>=-eq-ok (derive_actions (from_validated profile) profile context derive inputs.0) _ h1 in
      let (profile_digest, digested, h3) =
        >>=-eq-ok (map_err domain (p.profile_digest profile)) _ h2 in
      let plan : Plan = record {
        schema_version = PlanSchemaVersion.v4;
        id = p.new_plan_id;
        run_id = p.new_run_id;
        intent = context.intent;
        profile_id = profile.id;
        profile_digest = profile_digest;
        host = context.host;
        tool = context.tool;
        package_digest = context.package_digest;
        source = context.source;
        input = context.input;
        resources = context.resources;
        observed_state = context.observed_state;
        issued_at = now;
        expires_at = inputs.1;
        actions = actions;
        metadata = Members.end;
      } in
      let (plan_order, structure, h4) =
        >>=-eq-ok (map_err domain (validate_structure p.canonical plan)) _ h3 in
      let (digest, summed, h5) = >>=-eq-ok (map_err domain (p.plan_digest plan)) _ h4 in
      let w : WorkerPlan = record { plan = plan; digest = digest } in
      let same : w ≡ built = cc h5 in
      rw (← same) (record {
        order = inputs.0;
        profile_digest = profile_digest;
        expires_at = inputs.1;
        actions = actions;
        inputs = validate_build_inputs-AreInputs profile context now inputs.0 inputs.1 valid;
        ordered =
            validate_profile-IsStepOrder p.canonical profile inputs.0
              (validate_build_inputs-AreInputs profile context now inputs.0 inputs.1
                valid).profile_valid;
        answers = derive_actions-AreDerived profile context derive inputs.0 derived;
        digested = map_err-eq-ok domain (p.profile_digest profile) digested;
        plan = refl;
        plan_order = plan_order;
        valid = map_err-eq-ok domain (validate_structure p.canonical plan) structure;
        digest = map_err-eq-ok domain (p.plan_digest plan) summed;
      })
