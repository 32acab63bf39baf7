-- ===== src/Validate/Worker.antt =====
-- rust/crates/baselineops-domain/src/validate/worker.rs. The set of locators is only asked whether
-- a locator is new.
pub mod Entries
pub mod Laws
use baseline_ops.Prelude.{
  ℕ, ◌+◌, ◌*◌, ◌^◌, String, Bool, true, false, not, ◌==◌, ◌&&◌, ◌||◌, ltb, if◌then◌else◌, any, same,
  String-discrete, ℤ-discrete, Option, none, some, List, [], ◌∷◌, length, is_empty, has, insert_key,
  Outcome, ok, err, done, reject_if, ok_or, ◌>>=◌, ◌>>◌,
}
use baseline_ops.Domain.Ids.{ActionId}
use baseline_ops.Domain.Json.{DomainResult, validation}
use baseline_ops.Domain.Action.{Artifact}
use baseline_ops.Domain.Results.{
  ActionReceipt, ResultStatus, ResultStatus-discrete, WorkerResult, as_i32, for_status,
}
use baseline_ops.Validate.Text.{validate_nonempty, validate_optional_text}
use baseline_ops.Validate.Evidence.{validate_artifacts}

abbrev pub max_receipts : ℕ
max_receipts = 512

abbrev pub max_artifacts : ℕ
max_artifacts = 1024

abbrev pub max_artifact_bytes : ℕ
max_artifact_bytes = 1024 * 1024 * 1024

abbrev pub is_none : {A : Type 0} → Option A → Bool
is_none none = true
is_none (some a) = false

unfoldable pub validate_exit_code : WorkerResult → DomainResult Unit
validate_exit_code result =
    reject_if (not (same ℤ-discrete result.exit_code (as_i32 (for_status result.final_status))))
      (validation "worker result status and exit code disagree")

abbrev pub requires_reason : ResultStatus → Bool
requires_reason status =
    any (λ required. same ResultStatus-discrete required status)
      (ResultStatus.execution_failed ∷ ResultStatus.unsupported ∷ ResultStatus.rejected
        ∷ ResultStatus.cancelled ∷ [])

abbrev pub journal_required : ResultStatus → Bool
journal_required status =
    any (λ required. same ResultStatus-discrete required status)
      (ResultStatus.completed ∷ ResultStatus.warnings ∷ [])

unfoldable pub validate_required_reason : WorkerResult → DomainResult Unit
validate_required_reason result =
    reject_if (requires_reason result.final_status && is_none result.reason)
      (validation "non-success worker result must explain its terminal status")

-- `validate_reason`, with `validate_optional_reason`
unfoldable pub validate_reason : WorkerResult → DomainResult Unit
unfolding validate_required_reason
validate_reason result = do
  validate_optional_text "worker result reason" result.reason 4096
  validate_required_reason result

abbrev pub has_receipts_or_artifacts : WorkerResult → Bool
has_receipts_or_artifacts result =
    not (is_empty result.receipts) || not (is_empty result.artifact_manifest)

abbrev pub has_mutation_evidence : WorkerResult → Bool
has_mutation_evidence result =
    not (is_none result.journal_terminal_hash)
    || not (is_empty result.receipts)
    || not (is_empty result.artifact_manifest)

unfoldable pub validate_unsupported_evidence : WorkerResult → DomainResult Unit
validate_unsupported_evidence result =
    reject_if
      (same ResultStatus-discrete result.final_status ResultStatus.unsupported
        && has_mutation_evidence result)
      (validation "unsupported worker result must not carry mutation evidence")

unfoldable pub validate_completed_journal : WorkerResult → DomainResult Unit
validate_completed_journal result =
    reject_if (journal_required result.final_status && is_none result.journal_terminal_hash)
      (validation "completed worker result requires an anchored journal terminal hash")

unfoldable pub validate_evidence_journal : WorkerResult → DomainResult Unit
validate_evidence_journal result =
    reject_if (has_receipts_or_artifacts result && is_none result.journal_terminal_hash)
      (validation "worker receipts and artifacts require an anchored journal")

unfoldable pub validate_worker_preconditions : WorkerResult → DomainResult Unit
unfolding validate_exit_code validate_reason validate_unsupported_evidence
    validate_completed_journal validate_evidence_journal
validate_worker_preconditions result = do
  validate_exit_code result
  validate_reason result
  validate_unsupported_evidence result
  validate_completed_journal result
  validate_evidence_journal result

unfoldable pub validate_entry_counts : WorkerResult → DomainResult Unit
validate_entry_counts result =
    reject_if
      (ltb max_receipts (length result.receipts)
        || ltb max_artifacts (length result.artifact_manifest))
      (validation "worker result exceeds receipt or artifact count limits")

-- The loop of `validate_receipt_ids`, with `validate_receipt_id`.
unfoldable pub validate_receipt_ids :
    (receipt_ids : List ActionId) → List ActionReceipt → DomainResult Unit
validate_receipt_ids receipt_ids [] = done
validate_receipt_ids receipt_ids (receipt ∷ receipts) = do
  reject_if (has receipt.action_id receipt_ids)
      (validation "worker result contains duplicate action receipts")
  validate_receipt_ids (insert_key receipt.action_id receipt_ids) receipts

abbrev pub has_text : String → List String → Bool
has_text s texts = any (λ t. same String-discrete s t) texts

-- `u64::checked_add`
abbrev pub checked_add : ℕ → ℕ → Option ℕ
checked_add a b = if ltb (a + b) (2 ^ 64) then some (a + b) else none

-- The loop of `sum_artifact_sizes`, with `validate_artifact_locator`.
unfoldable pub sum_artifact_sizes :
    (total : ℕ) → (locators : List String) → List Artifact → DomainResult ℕ
sum_artifact_sizes total locators [] = ok total
sum_artifact_sizes total locators (artifact ∷ artifacts) = do
  reject_if (has_text artifact.locator locators)
      (validation "worker artifact locators must be unique")
  sum ← ok_or (checked_add total artifact.size_bytes) (validation "worker artifact size overflowed")
  sum_artifact_sizes sum (artifact.locator ∷ locators) artifacts

unfoldable pub validate_artifact_locations : WorkerResult → DomainResult Unit
unfolding sum_artifact_sizes
validate_artifact_locations result = do
  total ← sum_artifact_sizes 0 [] result.artifact_manifest
  reject_if (ltb max_artifact_bytes total)
      (validation "worker artifact manifest exceeds its byte limit")

unfoldable pub validate_worker_evidence : WorkerResult → DomainResult Unit
unfolding validate_entry_counts validate_receipt_ids validate_artifacts validate_artifact_locations
validate_worker_evidence result = do
  validate_entry_counts result
  validate_receipt_ids [] result.receipts
  validate_artifacts result.artifact_manifest
  validate_artifact_locations result

unfoldable pub validate_worker_result : WorkerResult → DomainResult Unit
unfolding validate_worker_preconditions validate_worker_evidence
validate_worker_result result = do
  validate_worker_preconditions result
  validate_worker_evidence result
