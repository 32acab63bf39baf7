-- ===== src/Validate/Evidence/Laws.antt =====
-- What the checks on artifacts accept.
use baseline_ops.Prelude.{
  ◌≡◌, refl, ◌↔◌, String, List, [], ◌∷◌, map, has, insert_key, IsDistinct, All, ok, reject_if,
  >>-eq-ok, arith,
}
use baseline_ops.Domain.Ids.{ArtifactId}
use baseline_ops.Domain.Action.{Artifact}
use baseline_ops.Graph.Positions.{IsNew, IsNew-IsDistinct, IsDistinct-IsNew}
use baseline_ops.Validate.Text.{IsText, validate_nonempty, validate_nonempty_iff}
use baseline_ops.Validate.Json.{validate_json_map}
use baseline_ops.Validate.Json.Bounds.{IsBoundedMap, validate_json_map_iff}
use baseline_ops.Validate.Evidence.Locator.{
  IsUnrooted, HasNoParent, starts_with_slash_iff, has_parent_iff,
}
use baseline_ops.Validate.Evidence.{
  validate_relative_locator, validate_artifacts_from, validate_artifacts,
}

-- A locator that begins with no slash or backslash and has no `..` between two of them, or between
-- one and an end. A drive letter is not excluded.
pub record IsRelative (locator : String) : Type 0 where
  pub text : IsText 2048 locator
  pub not_absolute : IsUnrooted locator
  pub no_parent : HasNoParent locator

pub record IsArtifact (artifact : Artifact) : Type 0 where
  pub media_type : IsText 255 artifact.media_type
  pub relative : IsRelative artifact.locator
  pub metadata : IsBoundedMap artifact.metadata

validate_relative_locator_iff :
    (locator : String) → (validate_relative_locator locator ≡ ok tt) ↔ IsRelative locator
unfolding validate_relative_locator
validate_relative_locator_iff locator = (
  λ h.
      let (text, rest) = >>-eq-ok (validate_nonempty "artifact locator" locator 2048) _ h in
      record {
        text = (validate_nonempty_iff "artifact locator" locator 2048).0 text;
        not_absolute = (starts_with_slash_iff locator).0 (ground arith);
        no_parent = (has_parent_iff locator).0 (ground arith);
      },
  λ r.
      rw
        (
          (validate_nonempty_iff "artifact locator" locator 2048).1 r.text,
          (starts_with_slash_iff locator).1 r.not_absolute,
          (has_parent_iff locator).1 r.no_parent,
        )
        refl,
)

validate_artifacts_from_iff :
    (ids : List ArtifactId) (artifacts : List Artifact)
    → (validate_artifacts_from ids artifacts ≡ ok tt)
      ↔ (IsNew (map (λ a. a.id) artifacts) ids × All IsArtifact artifacts)
unfolding validate_artifacts_from
validate_artifacts_from_iff ids [] = (λ h. (tt, tt), λ h. refl)
validate_artifacts_from_iff ids (a ∷ artifacts) =
    let media = validate_nonempty_iff "artifact media type" a.media_type 255 in
    let locator = validate_relative_locator_iff a.locator in
    let metadata = validate_json_map_iff "artifact metadata" a.metadata in
    let rest = validate_artifacts_from_iff (insert_key a.id ids) artifacts in
    (
      λ h.
          let (new, h1) = >>-eq-ok (reject_if (has a.id ids) _) _ h in
          let (m, h2) = >>-eq-ok (validate_nonempty "artifact media type" a.media_type 255) _ h1 in
          let (l, h3) = >>-eq-ok (validate_relative_locator a.locator) _ h2 in
          let (d, h4) = >>-eq-ok (validate_json_map "artifact metadata" a.metadata) _ h3 in
          let (news, all) = rest.0 h4 in
          (
            (ground (arith, new), news),
            (
              record { media_type = media.0 m; relative = locator.0 l; metadata = metadata.0 d },
              all,
            ),
          ),
      λ ((new, news), (x, all)).
          rw (new, media.1 x.media_type, locator.1 x.relative, metadata.1 x.metadata)
            (rest.1 (news, all)),
    )

-- A collection of artifacts is accepted exactly when no identifier stands twice and every artifact
-- has a media type, bounded metadata, and a locator of bounded length that does not begin with a
-- slash or backslash and of whose parts between slashes and backslashes none is `..`.
pub validate_artifacts_iff :
    (artifacts : List Artifact)
    → (validate_artifacts artifacts ≡ ok tt)
      ↔ (IsDistinct (map (λ a. a.id) artifacts) × All IsArtifact artifacts)
unfolding validate_artifacts
validate_artifacts_iff artifacts = (
  λ h.
      let (new, all) = (validate_artifacts_from_iff [] artifacts).0 h in
      ((IsNew-IsDistinct (map (λ a. a.id) artifacts) [] new).0, all),
  λ (distinct, all).
      (validate_artifacts_from_iff [] artifacts).1
        (IsDistinct-IsNew (map (λ a. a.id) artifacts) [] distinct (λ z k. refl), all),
)
