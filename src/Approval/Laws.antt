-- ===== src/Approval/Laws.antt =====
-- What an approval takes and what it gives.
use baseline_ops.Prelude.{
  ℕ, ◌==◌, ◌≡◌, refl, ◌↔◌, String, not, List, ok, reject_if, map_err, >>=-eq-ok, >>-eq-ok, arith,
  ap, ◌∙◌, true, ==_iff,
}
use baseline_ops.Domain.Ids.{ActionId, Digest}
use baseline_ops.Domain.Action.{Plan}
use baseline_ops.Validate.Identity.{Canonical}
use baseline_ops.Validate.Plan.{PlanValidationContext, validate_structure, verify_for_execution}
use baseline_ops.Validate.Plan.Laws.{IsCurrent, verify_for_execution_iff}
use baseline_ops.Load.Bounds.{map_err-eq-ok}
use baseline_ops.Approval.{PlanApprovalSession, VerifiedPlan, domain, approve_at_root}

verified_ext :
    (v : VerifiedPlan) (plan : Plan) (digest : Digest) (trusted_root : String)
    → v.plan ≡ plan
    → v.digest ≡ digest
    → v.trusted_root ≡ trusted_root
    → ◌≡◌ {A = VerifiedPlan}
        (record { plan = plan; digest = digest; trusted_root = trusted_root })
        v
verified_ext v plan digest trusted_root p d r = cc (p, d, r)

==_true : {a b : ℕ} → a ≡ b → (a == b) ≡ true
==_true {a} {b} e = (==_iff a b).1 e

-- A proposal is approved exactly when the approved digest is the one that was presented, the
-- proposed plan is valid and it is bound to the live values; what is approved is the proposed plan
-- with that digest, under the root that was given.
pub approve_at_root_iff :
    (c : Canonical) (session : PlanApprovalSession) (approved_digest : Digest)
    (live : PlanValidationContext) (trusted_root : String) (verified : VerifiedPlan)
    → (approve_at_root c session approved_digest live trusted_root ≡ ok verified) ↔ (
        (approved_digest ≡ session.digest)
        × ((order : List ActionId) × (validate_structure c session.plan ≡ ok order))
        × IsCurrent session.plan live
        × (verified.plan ≡ session.plan)
        × (verified.digest ≡ approved_digest)
        × (verified.trusted_root ≡ trusted_root))
unfolding approve_at_root
approve_at_root_iff c session approved_digest live trusted_root verified = (
  λ h.
      let (exact, h1) = >>-eq-ok (reject_if (not (approved_digest == session.digest)) _) _ h in
      let (plan, checked, same) =
        >>=-eq-ok (map_err domain (verify_for_execution c session.plan live)) _ h1 in
      let (same_plan, structure, current) =
        (verify_for_execution_iff c session.plan live plan).0
          (map_err-eq-ok domain (verify_for_execution c session.plan live) checked) in
      let equal : approved_digest ≡ session.digest = ground (arith, exact) in
      (equal, structure, current, cc (same, same_plan), cc (same, equal), cc same),
  λ (equal, structure, current, same_plan, same_digest, same_root).
      let checked : verify_for_execution c session.plan live ≡ ok session.plan =
        (verify_for_execution_iff c session.plan live session.plan).1 (refl, structure, current) in
      rw (==_true equal, checked)
        (ap ok (
          verified_ext verified session.plan session.digest trusted_root same_plan
            (same_digest ∙ equal) same_root)),
)
