-- ===== src/Validate/Plan/Laws.antt =====
-- What a plan that passes the checks promises.
use baseline_ops.Prelude.{
  String, not, ◌<◌, ◌≡◌, refl, sym, ap, ◌∙◌, ◌↔◌, leb, same, same_iff, ℕ_discrete, List, ok,
  reject_if, >>=-eq-ok, >>-eq-ok, arith,
}
use baseline_ops.Domain.Ids.{ActionId}
use baseline_ops.Domain.Primitives.{ExecutionIntent-discrete}
use baseline_ops.Domain.Bindings.{
  HostIdentity-discrete, ToolIdentity-discrete, SourceIdentity-discrete, InputIdentity-discrete,
}
use baseline_ops.Domain.Action.{Plan}
use baseline_ops.Validate.Text.{validate_equal}
use baseline_ops.Validate.Identity.{Canonical, validate_host}
use baseline_ops.Validate.Plan.{
  PlanValidationContext, validate_plan_static_fields, validate_structure, validate_at,
  validate_context_host_and_tool, validate_context_bindings, validate_against, verify_for_execution,
}

module _ {T : Type 0} (d : Discrete T) (expected actual : T) where
  validate_equal_iff :
      (message : String) → (validate_equal d expected actual message ≡ ok tt) ↔ (expected ≡ actual)
  unfolding validate_equal
  validate_equal_iff message = ground (arith, same_iff d expected actual)

  -- `if expected != actual { return validation(..) }`
  reject_iff :
      {E : Type 0} (e : E)
      → (reject_if (not (same d expected actual)) e ≡ ok tt) ↔ (expected ≡ actual)
  reject_iff e = ground (arith, same_iff d expected actual)

-- The plan has not expired, and it is bound to what the context says.
pub record IsCurrent (plan : Plan) (context : PlanValidationContext) : Type 0 where
  pub fresh : context.now < plan.expires_at
  pub intent : plan.intent ≡ context.intent
  pub host : plan.host ≡ context.host
  pub tool : plan.tool ≡ context.tool
  pub bundle : plan.package_digest ≡ context.package_digest
  pub source : plan.source ≡ context.source
  pub input : plan.input ≡ context.input
  pub observed : plan.observed_state.digest ≡ context.observed_state_digest

module _ (c : Canonical) (plan : Plan) where
  host-valid :
      (order : List ActionId)
      → validate_structure c plan ≡ ok order
      → validate_host c plan.host ≡ ok tt
  unfolding validate_structure validate_plan_static_fields
  host-valid order h =
      let (fields, _) = >>-eq-ok (validate_plan_static_fields c plan) _ h in
      let (_, rest) = >>-eq-ok (reject_if (leb plan.expires_at plan.issued_at) _) _ fields in
      (>>-eq-ok (validate_host c plan.host) _ rest).0

  module _ (context : PlanValidationContext) where
    IsCurrent-of :
        (order : List ActionId)
        → validate_against c plan context ≡ ok order
        → (validate_structure c plan ≡ ok order) × IsCurrent plan context
    unfolding validate_against validate_at validate_context_host_and_tool validate_context_bindings
    IsCurrent-of order h =
        let (order', at_now, h') = >>=-eq-ok (validate_at c plan context.now) _ h in
        let (order'', structure, at_now') = >>=-eq-ok (validate_structure c plan) _ at_now in
        let (fresh, same_order) =
          >>-eq-ok (reject_if (leb plan.expires_at context.now) _) _ at_now' in
        let (intent, h'') =
          >>-eq-ok (reject_if (not (same ExecutionIntent-discrete plan.intent context.intent)) _) _
            h' in
        let (host_tool, h''') = >>-eq-ok (validate_context_host_and_tool c plan context) _ h'' in
        let (_, host_tool') = >>-eq-ok (validate_host c context.host) _ host_tool in
        let (host, tool) =
          >>-eq-ok (validate_equal HostIdentity-discrete plan.host context.host _) _ host_tool' in
        let (bindings, same_order') = >>-eq-ok (validate_context_bindings plan context) _ h''' in
        let (bundle, bindings') =
          >>-eq-ok (validate_equal ℕ_discrete plan.package_digest context.package_digest _) _
            bindings in
        let (source, bindings'') =
          >>-eq-ok (validate_equal SourceIdentity-discrete plan.source context.source _) _
            bindings' in
        let (input, observed) =
          >>-eq-ok (validate_equal InputIdentity-discrete plan.input context.input _) _
            bindings'' in
        (
          cc,
          record {
            fresh = ground arith;
            intent = (reject_iff ExecutionIntent-discrete plan.intent context.intent _).0 intent;
            host = (validate_equal_iff HostIdentity-discrete plan.host context.host _).0 host;
            tool = (validate_equal_iff ToolIdentity-discrete plan.tool context.tool _).0 tool;
            bundle =
                (validate_equal_iff ℕ_discrete plan.package_digest context.package_digest _).0
                  bundle;
            source =
                (validate_equal_iff SourceIdentity-discrete plan.source context.source _).0 source;
            input = (validate_equal_iff InputIdentity-discrete plan.input context.input _).0 input;
            observed =
                (validate_equal_iff ℕ_discrete plan.observed_state.digest
                    context.observed_state_digest _).0
                  observed;
          },
        )

    accepted_of :
        (order : List ActionId)
        → validate_structure c plan ≡ ok order
        → IsCurrent plan context
        → validate_against c plan context ≡ ok order
    unfolding validate_against validate_at validate_context_host_and_tool validate_context_bindings
    accepted_of order structure k =
        let host : validate_host c context.host ≡ ok tt =
          ap (validate_host c) (sym k.host) ∙ host-valid order structure in
        rw
          (
            structure,
            (reject_iff ExecutionIntent-discrete plan.intent context.intent _).1 k.intent,
            host,
            (validate_equal_iff HostIdentity-discrete plan.host context.host _).1 k.host,
            (validate_equal_iff ToolIdentity-discrete plan.tool context.tool _).1 k.tool,
            (validate_equal_iff ℕ_discrete plan.package_digest context.package_digest _).1 k.bundle,
            (validate_equal_iff SourceIdentity-discrete plan.source context.source _).1 k.source,
            (validate_equal_iff InputIdentity-discrete plan.input context.input _).1 k.input,
            (validate_equal_iff ℕ_discrete plan.observed_state.digest context.observed_state_digest
                  _).1
                k.observed,
          )
          (ground (arith, k.fresh))

    -- A plan is verified for execution exactly when its structure is valid, it has not expired, and
    -- its intent, host, tool, package, source, input and observed state are those of the context;
    -- what is verified is the plan itself.
    pub verify_for_execution_iff :
        (verified : Plan)
        → (verify_for_execution c plan context ≡ ok verified) ↔ (
            (verified ≡ plan)
            × ((order : List ActionId) × (validate_structure c plan ≡ ok order))
            × IsCurrent plan context)
    unfolding verify_for_execution
    verify_for_execution_iff verified = (
      λ h.
          let (order, against, rest) = >>=-eq-ok (validate_against c plan context) _ h in
          let (structure, current) = IsCurrent-of order against in
          (cc, (order, structure), current),
      λ (same, (order, structure), current). rw (accepted_of order structure current, same) refl,
    )
