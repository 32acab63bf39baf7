-- ===== src/Validate/Worker/Entries.antt =====
-- The receipts and the sizes of the artifacts of a worker result.
use baseline_ops.Prelude.{
  ℕ, ◌+◌, ◌^◌, ◌≤◌, ◌<◌, ◌≡◌, refl, ◌↔◌, inl, inr, String, false, ltb, List, [], ◌∷◌, map, has,
  insert_key, ok, reject_if, >>=-eq-ok, >>-eq-ok, arith, Bool-cases,
}
use baseline_ops.Domain.Ids.{ActionId}
use baseline_ops.Domain.Action.{Artifact}
use baseline_ops.Domain.Results.{ActionReceipt, WorkerResult}
use baseline_ops.Graph.Positions.{IsNew}
use baseline_ops.Validate.Worker.{
  max_artifact_bytes, validate_receipt_ids, has_text, sum_artifact_sizes,
  validate_artifact_locations,
}

abbrev pub total_size : List Artifact → ℕ
total_size [] = 0
total_size (a ∷ artifacts) = a.size_bytes + total_size artifacts

-- No locator stands twice, and none is among those that were seen.
abbrev pub AreNewLocators : List Artifact → (seen : List String) → Type 0
AreNewLocators [] seen = Unit
AreNewLocators (a ∷ artifacts) seen =
    (has_text a.locator seen ≡ false) × AreNewLocators artifacts (a.locator ∷ seen)

sum_artifact_sizes_iff :
    (total : ℕ) (seen : List String) (artifacts : List Artifact) (n : ℕ)
    → total < 2 ^ 64
    → (sum_artifact_sizes total seen artifacts ≡ ok n) ↔ (
        AreNewLocators artifacts seen
        × (n ≡ total + total_size artifacts)
        × (total + total_size artifacts < 2 ^ 64))
unfolding sum_artifact_sizes
sum_artifact_sizes_iff total seen [] n lt =
    (λ h. (tt, ground (arith, h), omega (arith, lt)), λ (_, e, _). ground (arith, e))
sum_artifact_sizes_iff total seen (a ∷ artifacts) n lt =
    elim (Bool-cases (ltb (total + a.size_bytes) (2 ^ 64))) [
      | inl fits ↦
          let rest =
            sum_artifact_sizes_iff (total + a.size_bytes) (a.locator ∷ seen) artifacts n
              (ground (arith, fits)) in
          (
            λ h.
                let (new, h') = >>-eq-ok (reject_if (has_text a.locator seen) _) _ h in
                let (news, e, bound) = rest.0 (rw fits at h') in
                ((ground (arith, new), news), omega (arith, e), omega (arith, bound)),
            λ ((new, news), e, bound).
                rw (new, fits) (rest.1 (news, omega (arith, e), omega (arith, bound))),
          )
      | inr over ↦ (
        λ h.
            let (_, h') = >>-eq-ok (reject_if (has_text a.locator seen) _) _ h in
            absurd (cc (rw over at h')),
        λ (_, _, bound). absurd (ground (arith, over, bound)),
      )
    ]

pub validate_artifact_locations_iff :
    (result : WorkerResult)
    → (validate_artifact_locations result ≡ ok tt) ↔ (
        AreNewLocators result.artifact_manifest []
        × (total_size result.artifact_manifest ≤ max_artifact_bytes))
unfolding validate_artifact_locations
validate_artifact_locations_iff result = (
  λ h.
      let (total, first, second) =
        >>=-eq-ok (sum_artifact_sizes 0 [] result.artifact_manifest) _ h in
      let (news, e, _) =
        (sum_artifact_sizes_iff 0 [] result.artifact_manifest total (omega arith)).0 first in
      (news, ground (arith, second, e)),
  λ (news, bound).
      let first =
        (sum_artifact_sizes_iff 0 [] result.artifact_manifest (total_size result.artifact_manifest)
            (omega arith)).1
          (news, omega arith, omega (arith, bound)) in
      rw (first) (ground (arith, bound)),
)

pub validate_receipt_ids_iff :
    (seen : List ActionId) (receipts : List ActionReceipt)
    → (validate_receipt_ids seen receipts ≡ ok tt) ↔ IsNew (map (λ r. r.action_id) receipts) seen
unfolding validate_receipt_ids
validate_receipt_ids_iff seen [] = (λ h. tt, λ h. refl)
validate_receipt_ids_iff seen (r ∷ receipts) =
    let rest = validate_receipt_ids_iff (insert_key r.action_id seen) receipts in
    (
      λ h.
          let (new, h') = >>-eq-ok (reject_if (has r.action_id seen) _) _ h in
          (ground (arith, new), rest.0 h'),
      λ (new, news). rw new (rest.1 news),
    )
