-- ===== src/Validate/Evidence/Results.antt =====
-- What the checks on a result accept.
use baseline_ops.Prelude.{
  ◌≤◌, ◌≡◌, refl, ◌↔◌, ltb, List, [], ◌∷◌, map, has, insert_key, IsDistinct, All, ok, reject_if,
  >>-eq-ok, arith,
}
use baseline_ops.Domain.Ids.{ActionId, FindingId}
use baseline_ops.Domain.Results.{ActionResult, Finding, RunResult}
use baseline_ops.Graph.Positions.{IsNew, IsNew-IsDistinct, IsDistinct-IsNew}
use baseline_ops.Validate.Text.{IsText, validate_nonempty, validate_nonempty_iff}
use baseline_ops.Validate.Json.Bounds.{IsBoundedMap, validate_json_map_iff}
use baseline_ops.Validate.Identity.{Canonical, validate_host}
use baseline_ops.Validate.Evidence.{
  validate_action_result, validate_result_actions, validate_finding, validate_result_findings,
  validate_result_times, validate_result_header, validate_result,
}
use baseline_ops.Validate.Evidence.Laws.{IsArtifact, validate_artifacts_iff}

pub record IsActionResult (action : ActionResult) : Type 0 where
  pub ordered : action.started_at ≤ action.completed_at
  pub capability : IsText 128 action.capability
  pub metadata : IsBoundedMap action.metadata

pub record IsFinding (finding : Finding) : Type 0 where
  pub code : IsText 128 finding.code
  pub message : IsText 4096 finding.message
  pub evidence : IsBoundedMap finding.evidence

pub record IsReport (c : Canonical) (result : RunResult) : Type 0 where
  pub ordered : result.started_at ≤ result.completed_at
  pub host : validate_host c result.host ≡ ok tt
  pub summary : IsText 4096 result.summary
  pub metadata : IsBoundedMap result.metadata
  pub actions_distinct : IsDistinct (map (λ a. a.action_id) result.actions)
  pub actions_valid : All IsActionResult result.actions
  pub findings_distinct : IsDistinct (map (λ f. f.id) result.findings)
  pub findings_valid : All IsFinding result.findings
  pub artifacts_distinct : IsDistinct (map (λ a. a.id) result.artifacts)
  pub artifacts_valid : All IsArtifact result.artifacts

validate_action_result_iff :
    (action : ActionResult) → (validate_action_result action ≡ ok tt) ↔ IsActionResult action
unfolding validate_action_result
validate_action_result_iff action =
    let capability = validate_nonempty_iff "action-result capability ID" action.capability 128 in
    let metadata = validate_json_map_iff "action-result metadata" action.metadata in
    (
      λ h.
          let (times, h1) =
            >>-eq-ok (reject_if (ltb action.completed_at action.started_at) _) _ h in
          let (text, rest) =
            >>-eq-ok (validate_nonempty "action-result capability ID" action.capability 128) _ h1 in
          record {
            ordered = ground (arith, times);
            capability = capability.0 text;
            metadata = metadata.0 rest;
          },
      λ w. rw (capability.1 w.capability, metadata.1 w.metadata) (ground (arith, w.ordered)),
    )

validate_finding_iff : (finding : Finding) → (validate_finding finding ≡ ok tt) ↔ IsFinding finding
unfolding validate_finding
validate_finding_iff finding =
    let code = validate_nonempty_iff "finding code" finding.code 128 in
    let message = validate_nonempty_iff "finding message" finding.message 4096 in
    let evidence = validate_json_map_iff "finding evidence" finding.evidence in
    (
      λ h.
          let (first, h1) = >>-eq-ok (validate_nonempty "finding code" finding.code 128) _ h in
          let (second, third) =
            >>-eq-ok (validate_nonempty "finding message" finding.message 4096) _ h1 in
          record { code = code.0 first; message = message.0 second; evidence = evidence.0 third },
      λ w. rw (code.1 w.code, message.1 w.message, evidence.1 w.evidence) refl,
    )

validate_result_actions_iff :
    (ids : List ActionId) (actions : List ActionResult)
    → (validate_result_actions ids actions ≡ ok tt)
      ↔ (IsNew (map (λ a. a.action_id) actions) ids × All IsActionResult actions)
unfolding validate_result_actions
validate_result_actions_iff ids [] = (λ h. (tt, tt), λ h. refl)
validate_result_actions_iff ids (a ∷ actions) =
    let valid = validate_action_result_iff a in
    let rest = validate_result_actions_iff (insert_key a.action_id ids) actions in
    (
      λ h.
          let (first, h1) = >>-eq-ok (validate_action_result a) _ h in
          let (new, h2) = >>-eq-ok (reject_if (has a.action_id ids) _) _ h1 in
          let (news, all) = rest.0 h2 in ((ground (arith, new), news), (valid.0 first, all)),
      λ ((new, news), (first, all)). rw (valid.1 first, new) (rest.1 (news, all)),
    )

validate_result_findings_iff :
    (ids : List FindingId) (findings : List Finding)
    → (validate_result_findings ids findings ≡ ok tt)
      ↔ (IsNew (map (λ f. f.id) findings) ids × All IsFinding findings)
unfolding validate_result_findings
validate_result_findings_iff ids [] = (λ h. (tt, tt), λ h. refl)
validate_result_findings_iff ids (f ∷ findings) =
    let valid = validate_finding_iff f in
    let rest = validate_result_findings_iff (insert_key f.id ids) findings in
    (
      λ h.
          let (first, h1) = >>-eq-ok (validate_finding f) _ h in
          let (new, h2) = >>-eq-ok (reject_if (has f.id ids) _) _ h1 in
          let (news, all) = rest.0 h2 in ((ground (arith, new), news), (valid.0 first, all)),
      λ ((new, news), (first, all)). rw (valid.1 first, new) (rest.1 (news, all)),
    )

-- A result is accepted exactly when it does not end before it starts, its host is valid, its
-- summary and metadata fit, and its action results, findings and artifacts are each valid and
-- have distinct identifiers.
pub validate_result_iff :
    (c : Canonical) (result : RunResult) → (validate_result c result ≡ ok tt) ↔ IsReport c result
unfolding validate_result validate_result_header validate_result_times
validate_result_iff c result =
    let summary = validate_nonempty_iff "result summary" result.summary 4096 in
    let metadata = validate_json_map_iff "result metadata" result.metadata in
    let actions = validate_result_actions_iff [] result.actions in
    let findings = validate_result_findings_iff [] result.findings in
    let artifacts = validate_artifacts_iff result.artifacts in
    let action_ids = map (λ (a : ActionResult). a.action_id) result.actions in
    let finding_ids = map (λ (f : Finding). f.id) result.findings in
    (
      λ h.
          let (head, h1) = >>-eq-ok (validate_result_header c result) _ h in
          let (times, head1) = >>-eq-ok (validate_result_times result) _ head in
          let (host, head2) = >>-eq-ok (validate_host c result.host) _ head1 in
          let (text, meta) =
            >>-eq-ok (validate_nonempty "result summary" result.summary 4096) _ head2 in
          let (first, h2) = >>-eq-ok (validate_result_actions [] result.actions) _ h1 in
          let (second, third) = >>-eq-ok (validate_result_findings [] result.findings) _ h2 in
          record {
            ordered = ground (arith, times);
            host = host;
            summary = summary.0 text;
            metadata = metadata.0 meta;
            actions_distinct = (IsNew-IsDistinct action_ids [] (actions.0 first).0).0;
            actions_valid = (actions.0 first).1;
            findings_distinct = (IsNew-IsDistinct finding_ids [] (findings.0 second).0).0;
            findings_valid = (findings.0 second).1;
            artifacts_distinct = (artifacts.0 third).0;
            artifacts_valid = (artifacts.0 third).1;
          },
      λ w.
          rw
            (
              w.host,
              summary.1 w.summary,
              metadata.1 w.metadata,
              actions.1 (
                IsDistinct-IsNew action_ids [] w.actions_distinct (λ z k. refl),
                w.actions_valid,
              ),
              findings.1 (
                IsDistinct-IsNew finding_ids [] w.findings_distinct (λ z k. refl),
                w.findings_valid,
              ),
              artifacts.1 (w.artifacts_distinct, w.artifacts_valid),
            )
            (ground (arith, w.ordered)),
    )
