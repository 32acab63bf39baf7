-- ===== src/Validate/Worker/Laws.antt =====
-- What `validate_worker_result` accepts.
use baseline_ops.Prelude.{
  ℕ, ◌≤◌, ◌≡◌, refl, ◌↔◌, ◌⊎◌, inl, inr, String, true, false, ◌&&◌, same, same_iff, ℤ-discrete,
  Option, none, some, [], map, length, is_empty, IsDistinct, All, ok, >>-eq-ok, arith, Bool-cases,
}
use baseline_ops.Domain.Results.{
  ResultStatus, ResultStatus-discrete, WorkerResult, as_i32, for_status,
}
use baseline_ops.Graph.Positions.{IsNew-IsDistinct, IsDistinct-IsNew}
use baseline_ops.Validate.Text.{IsText, validate_optional_text, validate_nonempty_iff}
use baseline_ops.Validate.Evidence.{validate_artifacts}
use baseline_ops.Validate.Evidence.Laws.{IsArtifact, validate_artifacts_iff}
use baseline_ops.Validate.Worker.{
  max_receipts, max_artifacts, max_artifact_bytes, is_none, requires_reason, journal_required,
  validate_exit_code, validate_reason, validate_required_reason, validate_unsupported_evidence,
  validate_completed_journal, validate_evidence_journal, validate_entry_counts,
  validate_receipt_ids, validate_worker_preconditions, validate_worker_evidence,
  validate_worker_result, has_receipts_or_artifacts, has_mutation_evidence,
}
use baseline_ops.Validate.Worker.Entries.{
  total_size, AreNewLocators, validate_artifact_locations_iff, validate_receipt_ids_iff,
}

pub record IsConsistent (result : WorkerResult) : Type 0 where
  pub exit_code : result.exit_code ≡ as_i32 (for_status result.final_status)
  pub reason_text : (reason : String) → result.reason ≡ some reason → IsText 4096 reason
  pub reason_given :
      (result.final_status ≡ ResultStatus.completed)
      ⊎ (result.final_status ≡ ResultStatus.warnings)
      ⊎ (is_none result.reason ≡ false)
  pub unsupported :
      result.final_status ≡ ResultStatus.unsupported
      → (is_none result.journal_terminal_hash ≡ true)
        × (is_empty result.receipts ≡ true)
        × (is_empty result.artifact_manifest ≡ true)
  pub journal :
      (result.final_status ≡ ResultStatus.completed)
        ⊎ (result.final_status ≡ ResultStatus.warnings)
        ⊎ (is_empty result.receipts ≡ false)
        ⊎ (is_empty result.artifact_manifest ≡ false)
      → is_none result.journal_terminal_hash ≡ false
  pub receipts : length result.receipts ≤ max_receipts
  pub receipts_distinct : IsDistinct (map (λ r. r.action_id) result.receipts)
  pub artifacts : length result.artifact_manifest ≤ max_artifacts
  pub artifacts_distinct : IsDistinct (map (λ a. a.id) result.artifact_manifest)
  pub artifacts_valid : All IsArtifact result.artifact_manifest
  pub locators : AreNewLocators result.artifact_manifest []
  pub bytes : total_size result.artifact_manifest ≤ max_artifact_bytes

abbrev IsFinished : ResultStatus → Type 0
IsFinished status = (status ≡ ResultStatus.completed) ⊎ (status ≡ ResultStatus.warnings)

requires_reason_iff : (status : ResultStatus) → (requires_reason status ≡ false) ↔ IsFinished status
unfolding ResultStatus-discrete
requires_reason_iff ResultStatus.completed = (λ h. inl refl, λ h. refl)
requires_reason_iff ResultStatus.warnings = (λ h. inr refl, λ h. refl)
requires_reason_iff ResultStatus.execution_failed = (λ h. cc h, λ h. ground (arith, h))
requires_reason_iff ResultStatus.unsupported = (λ h. cc h, λ h. ground (arith, h))
requires_reason_iff ResultStatus.rejected = (λ h. cc h, λ h. ground (arith, h))
requires_reason_iff ResultStatus.cancelled = (λ h. cc h, λ h. ground (arith, h))

journal_required_iff :
    (status : ResultStatus) → (journal_required status ≡ true) ↔ IsFinished status
unfolding ResultStatus-discrete
journal_required_iff ResultStatus.completed = (λ h. inl refl, λ h. refl)
journal_required_iff ResultStatus.warnings = (λ h. inr refl, λ h. refl)
journal_required_iff ResultStatus.execution_failed = (λ h. cc h, λ h. ground (arith, h))
journal_required_iff ResultStatus.unsupported = (λ h. cc h, λ h. ground (arith, h))
journal_required_iff ResultStatus.rejected = (λ h. cc h, λ h. ground (arith, h))
journal_required_iff ResultStatus.cancelled = (λ h. cc h, λ h. ground (arith, h))

validate_optional_text_iff :
    (name : String) (value : Option String) (bound : ℕ)
    → (validate_optional_text name value bound ≡ ok tt)
      ↔ ((text : String) → value ≡ some text → IsText bound text)
unfolding validate_optional_text
validate_optional_text_iff name none bound = (λ h text e. cc e, λ h. refl)
validate_optional_text_iff name (some value) bound = (
  λ h text e. ground (arith, (validate_nonempty_iff name value bound).0 h, e),
  λ h. (validate_nonempty_iff name value bound).1 (h value refl),
)

module _ (result : WorkerResult) where
  preconditions_iff : (validate_worker_preconditions result ≡ ok tt) ↔ (
      (result.exit_code ≡ as_i32 (for_status result.final_status))
      × ((reason : String) → result.reason ≡ some reason → IsText 4096 reason)
      × (requires_reason result.final_status && is_none result.reason ≡ false)
      × (same ResultStatus-discrete result.final_status ResultStatus.unsupported
            && has_mutation_evidence result
          ≡ false)
      × (journal_required result.final_status && is_none result.journal_terminal_hash ≡ false)
      × (has_receipts_or_artifacts result && is_none result.journal_terminal_hash ≡ false))
  unfolding validate_worker_preconditions validate_exit_code validate_reason
      validate_required_reason validate_unsupported_evidence validate_completed_journal
      validate_evidence_journal
  preconditions_iff =
      let code = same_iff ℤ-discrete result.exit_code (as_i32 (for_status result.final_status)) in
      let text = validate_optional_text_iff "worker result reason" result.reason 4096 in
      (
        λ h.
            let (a, h1) = >>-eq-ok (validate_exit_code result) _ h in
            let (b, h2) = >>-eq-ok (validate_reason result) _ h1 in
            let (b1, b2) =
              >>-eq-ok (validate_optional_text "worker result reason" result.reason 4096) _ b in
            let (d, h3) = >>-eq-ok (validate_unsupported_evidence result) _ h2 in
            let (e, f) = >>-eq-ok (validate_completed_journal result) _ h3 in
            (
              code.0 (ground (arith, a)),
              text.0 b1,
              ground (arith, b2),
              ground (arith, d),
              ground (arith, e),
              ground (arith, f),
            ),
        λ (a, b, d, e, f, g). rw (code.1 a, text.1 b, d, e, f, g) refl,
      )

  preconditions_of : IsConsistent result → validate_worker_preconditions result ≡ ok tt
  preconditions_of w =
      let reason = requires_reason_iff result.final_status in
      let finished = journal_required_iff result.final_status in
      let unsupported =
        same_iff ResultStatus-discrete result.final_status ResultStatus.unsupported in
      let given : requires_reason result.final_status && is_none result.reason ≡ false =
        elim w.reason_given [
          | inl e ↦ ground (arith, reason.1 (inl e))
          | inr (inl e) ↦ ground (arith, reason.1 (inr e))
          | inr (inr e) ↦ ground (arith, e)
        ] in
      let bare : same ResultStatus-discrete result.final_status ResultStatus.unsupported
            && has_mutation_evidence result
          ≡ false =
        elim (Bool-cases
          (same ResultStatus-discrete result.final_status ResultStatus.unsupported)) [
            | inl e ↦ ground (arith, e, w.unsupported (unsupported.0 e))
            | inr n ↦ ground (arith, n)
          ] in
      let journal : journal_required result.final_status && is_none result.journal_terminal_hash
          ≡ false =
        elim (Bool-cases (journal_required result.final_status)) [
          | inl e ↦ elim (finished.0 e) [
            | inl f ↦ ground (arith, w.journal (inl f))
            | inr f ↦ ground (arith, w.journal (inr (inl f)))
          ]
          | inr n ↦ ground (arith, n)
        ] in
      let anchored : has_receipts_or_artifacts result && is_none result.journal_terminal_hash
          ≡ false =
        elim (Bool-cases (is_empty result.receipts)) [
          | inl e ↦ elim (Bool-cases (is_empty result.artifact_manifest)) [
            | inl f ↦ ground (arith, e, f)
            | inr f ↦ ground (arith, w.journal (inr (inr (inr f))))
          ]
          | inr e ↦ ground (arith, w.journal (inr (inr (inl e))))
        ] in
      preconditions_iff.1 (w.exit_code, w.reason_text, given, bare, journal, anchored)

  -- The checks of a worker result accept it exactly when its parts agree: the exit code is that of
  -- the status; a reason fits and is given unless the run completed; an unsupported run carries no
  -- evidence; a completed run, and one with receipts or artifacts, has the hash of its journal; the
  -- receipts and the artifacts are within their numbers, distinct and valid, and the artifacts
  -- together hold at most a GiB.
  pub validate_worker_result_iff : (validate_worker_result result ≡ ok tt) ↔ IsConsistent result
  unfolding validate_worker_result validate_worker_evidence validate_entry_counts
  validate_worker_result_iff =
      let reason = requires_reason_iff result.final_status in
      let finished = journal_required_iff result.final_status in
      let unsupported =
        same_iff ResultStatus-discrete result.final_status ResultStatus.unsupported in
      let artifacts = validate_artifacts_iff result.artifact_manifest in
      let ids = validate_receipt_ids_iff [] result.receipts in
      let locations = validate_artifact_locations_iff result in
      (
        λ h.
            let (before, evidence) = >>-eq-ok (validate_worker_preconditions result) _ h in
            let (code, text, given, bare, journal, anchored) = preconditions_iff.0 before in
            let (counts, evidence1) = >>-eq-ok (validate_entry_counts result) _ evidence in
            let (receipts, evidence2) =
              >>-eq-ok (validate_receipt_ids [] result.receipts) _ evidence1 in
            let (valid, last) =
              >>-eq-ok (validate_artifacts result.artifact_manifest) _ evidence2 in
            record {
              exit_code = code;
              reason_text = text;
              reason_given = elim (Bool-cases (requires_reason result.final_status)) [
                | inl needed ↦ inr (inr (ground (arith, given, needed)))
                | inr free ↦ elim (reason.0 free) [ inl e ↦ inl e | inr e ↦ inr (inl e) ]
              ];
              unsupported = λ e. ground (arith, unsupported.1 e, bare);
              journal = λ needed. elim needed [
                | inl e ↦ ground (arith, finished.1 (inl e), journal)
                | inr (inl e) ↦ ground (arith, finished.1 (inr e), journal)
                | inr (inr (inl e)) ↦ ground (arith, e, anchored)
                | inr (inr (inr e)) ↦ ground (arith, e, anchored)
              ];
              receipts = ground (arith, counts);
              receipts_distinct =
                  (IsNew-IsDistinct (map (λ r. r.action_id) result.receipts) [] (ids.0 receipts)).0;
              artifacts = ground (arith, counts);
              artifacts_distinct = (artifacts.0 valid).0;
              artifacts_valid = (artifacts.0 valid).1;
              locators = (locations.0 last).0;
              bytes = (locations.0 last).1;
            },
        λ w.
            rw
              (
                preconditions_of w,
                ids.1 (
                    IsDistinct-IsNew (map (λ r. r.action_id) result.receipts) [] w.receipts_distinct
                      (λ z k. refl)),
                artifacts.1 (w.artifacts_distinct, w.artifacts_valid),
                locations.1 (w.locators, w.bytes),
              )
              (ground (arith, w.receipts, w.artifacts)),
      )
