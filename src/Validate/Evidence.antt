-- ===== src/Validate/Evidence.antt =====
-- The checks on artifacts, action results, findings and results: validate.rs and
-- validate/result.rs.
pub mod Locator
pub mod Laws
pub mod Results
use Prim.Native.Char.{code}
use baseline_ops.Prelude.{
  ℕ, String, Bool, true, false, ◌==◌, ◌&&◌, ◌||◌, ltb, if◌then◌else◌, any, same, String-discrete,
  List, [], ◌∷◌, has, insert_key, Outcome, ok, err, done, reject_if, each, ◌>>=◌, ◌>>◌,
}
use baseline_ops.Domain.Ids.{ActionId, ArtifactId, FindingId}
use baseline_ops.Domain.Json.{DomainResult, validation}
use baseline_ops.Domain.Action.{Artifact}
use baseline_ops.Domain.Results.{ActionResult, Finding, RunResult}
use baseline_ops.Validate.Text.{validate_nonempty}
use baseline_ops.Validate.Json.{validate_json_map}
use baseline_ops.Validate.Identity.{Canonical, validate_host}

is_slash : ℕ → Bool
is_slash c = c == b'/' || c == b'\\'

-- `locator.starts_with(['/', '\\'])`
unfoldable pub starts_with_slash : String → Bool
unfolding is_slash
starts_with_slash String.[] = false
starts_with_slash (String.◌∷◌ c s) = is_slash (code c)

-- `locator.split(['/', '\\'])`
unfoldable pub split_on_slash : String → List String
unfolding is_slash
split_on_slash String.[] = "" ∷ []
split_on_slash (String.◌∷◌ c s) =
    let rest = split_on_slash s in
    if is_slash (code c)
    then "" ∷ rest
    else elim rest [ [] ↦ [] | segment ∷ more ↦ String.◌∷◌ c segment ∷ more ]

unfoldable pub has_parent : String → Bool
unfolding split_on_slash
has_parent locator = any (λ segment. same String-discrete segment "..") (split_on_slash locator)

unfoldable pub validate_relative_locator : String → DomainResult Unit
unfolding starts_with_slash has_parent
validate_relative_locator locator = do
  validate_nonempty "artifact locator" locator 2048
  reject_if (starts_with_slash locator || has_parent locator)
      (validation "artifact locator must be relative and may not contain parent traversal")

-- The loop of `validate_artifacts`.
unfoldable pub validate_artifacts_from : (ids : List ArtifactId) → List Artifact → DomainResult Unit
unfolding validate_relative_locator
validate_artifacts_from ids [] = done
validate_artifacts_from ids (artifact ∷ artifacts) = do
  reject_if (has artifact.id ids) (validation "artifact IDs must be unique within their collection")
  validate_nonempty "artifact media type" artifact.media_type 255
  validate_relative_locator artifact.locator
  validate_json_map "artifact metadata" artifact.metadata
  validate_artifacts_from (insert_key artifact.id ids) artifacts

unfoldable pub validate_artifacts : List Artifact → DomainResult Unit
unfolding validate_artifacts_from
validate_artifacts artifacts = validate_artifacts_from [] artifacts

unfoldable pub validate_action_result : ActionResult → DomainResult Unit
validate_action_result action = do
  reject_if (ltb action.completed_at action.started_at)
      (validation "action completion time must not precede its start time")
  validate_nonempty "action-result capability ID" action.capability 128
  validate_json_map "action-result metadata" action.metadata

-- The loop of `validate_result_actions`, with `validate_result_action`.
unfoldable pub validate_result_actions :
    (action_ids : List ActionId) → List ActionResult → DomainResult Unit
unfolding validate_action_result
validate_result_actions action_ids [] = done
validate_result_actions action_ids (action ∷ actions) = do
  validate_action_result action
  reject_if (has action.action_id action_ids)
      (validation "result contains duplicate action result IDs")
  validate_result_actions (insert_key action.action_id action_ids) actions

-- `FindingV3::validate`
unfoldable pub validate_finding : Finding → DomainResult Unit
validate_finding finding = do
  validate_nonempty "finding code" finding.code 128
  validate_nonempty "finding message" finding.message 4096
  validate_json_map "finding evidence" finding.evidence

-- The loop of `validate_result_findings`, with `validate_result_finding`.
unfoldable pub validate_result_findings :
    (finding_ids : List FindingId) → List Finding → DomainResult Unit
unfolding validate_finding
validate_result_findings finding_ids [] = done
validate_result_findings finding_ids (finding ∷ findings) = do
  validate_finding finding
  reject_if (has finding.id finding_ids) (validation "result contains duplicate finding IDs")
  validate_result_findings (insert_key finding.id finding_ids) findings

unfoldable pub validate_result_times : RunResult → DomainResult Unit
validate_result_times result =
    reject_if (ltb result.completed_at result.started_at)
      (validation "result completion time must not precede its start time")

module _ (c : Canonical) where
  unfoldable pub validate_result_header : RunResult → DomainResult Unit
  unfolding validate_result_times validate_host
  validate_result_header result = do
    validate_result_times result
    validate_host c result.host
    validate_nonempty "result summary" result.summary 4096
    validate_json_map "result metadata" result.metadata

  -- `ResultV3::validate`
  unfoldable pub validate_result : RunResult → DomainResult Unit
  unfolding validate_result_header validate_result_actions validate_result_findings
      validate_artifacts
  validate_result result = do
    validate_result_header result
    validate_result_actions [] result.actions
    validate_result_findings [] result.findings
    validate_artifacts result.artifacts
