-- ===== src/Planner/Rebuild.antt =====
-- `rebuild_reviewed_apply_plan`: what fresh authority can make of a plan that was reviewed.
use baseline_ops.Prelude.{
  ◌≤◌, ◌<◌, ◌≡◌, refl, ◌∙◌, ap, ◌==◌, ==_iff, ltb, leb, Bool, true, false, not, ◌&&◌, ◌||◌, same,
  same_iff, List, Outcome, ok, reject_if, map_err, >>=-eq-ok, >>-eq-ok, map_err-eq-ok, arith,
}
use baseline_ops.Domain.Ids.{ActionId, DateTime}
use baseline_ops.Domain.Json.{validation}
use baseline_ops.Domain.Primitives.{PlanSchemaVersion, ExecutionIntent, ExecutionIntent-discrete}
use baseline_ops.Domain.Bindings.{
  HostIdentity-discrete, ToolIdentity-discrete, SourceIdentity-discrete, InputIdentity-discrete,
}
use baseline_ops.Domain.Action.{Profile, Plan}
use baseline_ops.Validate.Plan.{validate_structure, validate_at}
use baseline_ops.Planner.{
  Planning, PlanBuildContext, WorkerPlan, TrustedActionDeriver, PlanningError, domain,
  reviewed_envelope_mismatch, ResourceBindings-discrete, PlannedActions-discrete, build_plan,
  same_reviewed_bindings, validate_reviewed_authority, rebuild_reviewed_apply_plan,
}
use baseline_ops.Planner.Build.{IsBuilt, build_plan-IsBuilt}

all_true : (a b : Bool) → (a && b) ≡ true → (a ≡ true) × (b ≡ true)
all_true true true h = (refl, refl)
all_true true false h = absurd (cc h)
all_true false b h = absurd (cc h)

-- The parts of two plans that the comparison looks at.
record Agree (reviewed fresh : Plan) : Type 0 where
  profile_id : reviewed.profile_id ≡ fresh.profile_id
  profile_digest : reviewed.profile_digest ≡ fresh.profile_digest
  host : reviewed.host ≡ fresh.host
  tool : reviewed.tool ≡ fresh.tool
  package_digest : reviewed.package_digest ≡ fresh.package_digest
  source : reviewed.source ≡ fresh.source
  input : reviewed.input ≡ fresh.input
  resources : reviewed.resources ≡ fresh.resources
  facts : reviewed.observed_state.digest ≡ fresh.observed_state.digest
  actions : reviewed.actions ≡ fresh.actions

same_reviewed_bindings-Agree :
    (reviewed fresh : Plan) → same_reviewed_bindings reviewed fresh ≡ true → Agree reviewed fresh
unfolding same_reviewed_bindings
same_reviewed_bindings-Agree reviewed fresh h =
    let (h9, actions) =
      all_true _ (same PlannedActions-discrete reviewed.actions fresh.actions) h in
    let (h8, observed_state_digest) =
      all_true _ (reviewed.observed_state.digest == fresh.observed_state.digest) h9 in
    let (h7, resources) =
      all_true _ (same ResourceBindings-discrete reviewed.resources fresh.resources) h8 in
    let (h6, input) = all_true _ (same InputIdentity-discrete reviewed.input fresh.input) h7 in
    let (h5, source) = all_true _ (same SourceIdentity-discrete reviewed.source fresh.source) h6 in
    let (h4, package_digest) = all_true _ (reviewed.package_digest == fresh.package_digest) h5 in
    let (h3, tool) = all_true _ (same ToolIdentity-discrete reviewed.tool fresh.tool) h4 in
    let (h2, host) = all_true _ (same HostIdentity-discrete reviewed.host fresh.host) h3 in
    let (h1, profile_digest) = all_true _ (reviewed.profile_digest == fresh.profile_digest) h2 in
    record {
      profile_id = (==_iff reviewed.profile_id fresh.profile_id).0 h1;
      profile_digest = (==_iff reviewed.profile_digest fresh.profile_digest).0 profile_digest;
      host = (same_iff HostIdentity-discrete reviewed.host fresh.host).0 host;
      tool = (same_iff ToolIdentity-discrete reviewed.tool fresh.tool).0 tool;
      package_digest = (==_iff reviewed.package_digest fresh.package_digest).0 package_digest;
      source = (same_iff SourceIdentity-discrete reviewed.source fresh.source).0 source;
      input = (same_iff InputIdentity-discrete reviewed.input fresh.input).0 input;
      resources =
          (same_iff ResourceBindings-discrete reviewed.resources fresh.resources).0 resources;
      facts =
          (==_iff reviewed.observed_state.digest fresh.observed_state.digest).0
            observed_state_digest;
      actions = (same_iff PlannedActions-discrete reviewed.actions fresh.actions).0 actions;
    }

authority_lem :
    (reviewed fresh : Plan)
    → validate_reviewed_authority reviewed fresh ≡ ok tt
    → (reviewed.expires_at ≤ fresh.expires_at) × Agree reviewed fresh
unfolding validate_reviewed_authority
authority_lem reviewed fresh h =
    let (in_time, agree) =
      accepted (ltb fresh.expires_at reviewed.expires_at) (same_reviewed_bindings reviewed fresh)
        h in
    (ground (arith, in_time), same_reviewed_bindings-Agree reviewed fresh agree)
  where
    accepted :
        (late agree : Bool)
        → ◌≡◌ {A = Outcome PlanningError (Unit {0})}
            (reject_if (late || not agree) reviewed_envelope_mismatch)
            (ok tt)
        → (late ≡ false) × (agree ≡ true)
    accepted true agree h = absurd (cc h)
    accepted false true h = (refl, refl)
    accepted false false h = absurd (cc h)

-- A plan that was rebuilt: the reviewed one, as fresh authority would plan it now.
pub record IsRebuilt (p : Planning) (reviewed : Plan) (profile : Profile)
    (context : PlanBuildContext) (derive : TrustedActionDeriver) (now : DateTime)
    (rebuilt : WorkerPlan) : Type 0 where
  pub plan : rebuilt.plan ≡ record reviewed { intent = context.intent }
  pub digest : p.plan_digest rebuilt.plan ≡ ok rebuilt.digest
  pub was_apply : reviewed.intent ≡ ExecutionIntent.apply
  pub current : now < reviewed.expires_at
  pub fresh : WorkerPlan
  pub built : IsBuilt p profile context derive now fresh
  pub same_actions : reviewed.actions ≡ fresh.plan.actions
  pub same_facts : reviewed.observed_state.digest ≡ context.observed_state.digest
  pub no_later : reviewed.expires_at ≤ fresh.plan.expires_at

module _ (p : Planning) where
  same_plan :
      (reviewed fresh : Plan)
      → Agree reviewed fresh
      → fresh.schema_version ≡ reviewed.schema_version
      → (let plan : Plan = record fresh {
        id = reviewed.id;
        run_id = reviewed.run_id;
        observed_state = reviewed.observed_state;
        issued_at = reviewed.issued_at;
        expires_at = reviewed.expires_at;
        metadata = reviewed.metadata;
      } in
          plan ≡ record reviewed { intent = fresh.intent })
  same_plan reviewed fresh agree same_version = cc (
    same_version, agree.profile_id, agree.profile_digest, agree.host, agree.tool,
    agree.package_digest, agree.source, agree.input, agree.resources, agree.actions,
  )

  only_version : (v w : PlanSchemaVersion) → v ≡ w
  only_version PlanSchemaVersion.v4 PlanSchemaVersion.v4 = refl

  validate_at-current :
      (plan : Plan) (now : DateTime) {order : List ActionId}
      → validate_at p.canonical plan now ≡ ok order
      → now < plan.expires_at
  unfolding validate_at
  validate_at-current plan now h =
      let (order', _, h1) = >>=-eq-ok (validate_structure p.canonical plan) _ h in
      let (current, _) =
        >>-eq-ok (reject_if (leb plan.expires_at now) (validation "plan has expired")) _ h1 in
      ground (arith, current)

  is_apply_lem :
      (intent : ExecutionIntent)
      → ◌≡◌ {A = Outcome PlanningError (Unit {0})}
          (reject_if
            (not (same ExecutionIntent-discrete intent ExecutionIntent.apply))
            reviewed_envelope_mismatch)
          (ok tt)
      → intent ≡ ExecutionIntent.apply
  unfolding ExecutionIntent-discrete
  is_apply_lem ExecutionIntent.audit h = cc h
  is_apply_lem ExecutionIntent.plan h = cc h
  is_apply_lem ExecutionIntent.apply h = refl

  -- Rebuilding a reviewed plan gives that plan and nothing else: its identifiers, its observation, its
  -- times and metadata are the reviewed ones and so, since a fresh plan agrees with them, are its
  -- profile, host, tool, package, source, input, resources and actions; only its intent is the
  -- context's. It succeeds only for a plan with the intent to apply that has not expired, for which
  -- the planner would now build the same actions over the same facts, with an expiry that is no
  -- earlier; so it extends nothing that was reviewed.
  pub rebuild_reviewed_apply_plan-IsRebuilt :
      (reviewed : Plan) (profile : Profile) (context : PlanBuildContext)
      (derive : TrustedActionDeriver) (now : DateTime) (rebuilt : WorkerPlan)
      → rebuild_reviewed_apply_plan p reviewed profile context derive now ≡ ok rebuilt
      → IsRebuilt p reviewed profile context derive now rebuilt
  unfolding rebuild_reviewed_apply_plan
  rebuild_reviewed_apply_plan-IsRebuilt reviewed profile context derive now rebuilt h =
      let (was_apply, h1) =
        >>-eq-ok
          (reject_if (not (same ExecutionIntent-discrete reviewed.intent ExecutionIntent.apply))
            reviewed_envelope_mismatch)
          _ h in
      let (order, valid, h2) =
        >>=-eq-ok (map_err domain (validate_at p.canonical reviewed now)) _ h1 in
      let (built, builds, h3) = >>=-eq-ok (build_plan p profile context derive now) _ h2 in
      let fresh = built.plan in
      let (authorised, h4) = >>-eq-ok (validate_reviewed_authority reviewed fresh) _ h3 in
      let plan : Plan = record fresh {
        id = reviewed.id;
        run_id = reviewed.run_id;
        observed_state = reviewed.observed_state;
        issued_at = reviewed.issued_at;
        expires_at = reviewed.expires_at;
        metadata = reviewed.metadata;
      } in
      let (order', structure, h5) =
        >>=-eq-ok (map_err domain (validate_structure p.canonical plan)) _ h4 in
      let (digest, summed, h6) = >>=-eq-ok (map_err domain (p.plan_digest plan)) _ h5 in
      let w : WorkerPlan = record { plan = plan; digest = digest } in
      let same_worker : w ≡ rebuilt = cc h6 in
      let (no_later, agree) = authority_lem reviewed fresh authorised in
      let is_built = build_plan-IsBuilt p profile context derive now built builds in
      let intent : fresh.intent ≡ context.intent = ap (λ (x : Plan). x.intent) is_built.plan in
      let facts : fresh.observed_state.digest ≡ context.observed_state.digest =
        ap (λ (x : Plan). x.observed_state.digest) is_built.plan in
      rw (← same_worker) (record {
        plan =
            same_plan reviewed fresh agree
              (only_version fresh.schema_version reviewed.schema_version)
            ∙ ap (λ i. record reviewed { intent = i }) intent;
        digest = map_err-eq-ok domain (p.plan_digest plan) summed;
        was_apply = is_apply_lem reviewed.intent was_apply;
        current =
            validate_at-current reviewed now
              (map_err-eq-ok domain (validate_at p.canonical reviewed now) valid);
        fresh = built;
        built = is_built;
        same_actions = agree.actions;
        same_facts = agree.facts ∙ facts;
        no_later = no_later;
      })
