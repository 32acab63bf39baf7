-- ===== src/Approval.antt =====
-- rust/crates/baselineops-engine/src/approval.rs. A path is its text.
pub mod Laws
use baseline_ops.Prelude.{
  ℕ, ◌==◌, String, not, List, Outcome, reject_if, map_err, ok, err, ◌>>=◌, ◌>>◌,
}
use baseline_ops.Domain.Ids.{CapabilityId, Digest}
use baseline_ops.Domain.Json.{DomainError}
use baseline_ops.Domain.Action.{Plan}
use baseline_ops.Validate.Identity.{Canonical}
use baseline_ops.Validate.Plan.{PlanValidationContext, verify_for_execution}

-- `WorkerPlan::into_parts` gives the two parts.
pub record PlanApprovalSession : Type 0 where
  pub plan : Plan
  pub digest : Digest

pub record VerifiedPlan : Type 0 where
  pub plan : Plan
  pub digest : Digest
  pub trusted_root : String

pub data ApprovalError : Type 0 where
  digest_mismatch : ApprovalError
  apply_ineligible : (capability_id : CapabilityId) → (reason : String) → ApprovalError
  domain : DomainError → ApprovalError

unfoldable pub approve_at_root :
    Canonical
    → PlanApprovalSession
    → (approved_digest : Digest) → PlanValidationContext
    → (trusted_root : String) → Outcome ApprovalError VerifiedPlan
unfolding verify_for_execution
approve_at_root c session approved_digest live trusted_root = do
  reject_if (not (approved_digest == session.digest)) digest_mismatch
  plan ← map_err domain (verify_for_execution c session.plan live)
  ok (record { plan = plan; digest = session.digest; trusted_root = trusted_root })
