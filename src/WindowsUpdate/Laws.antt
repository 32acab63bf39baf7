-- ===== src/WindowsUpdate/Laws.antt =====
-- A plan, field by field.
use baseline_ops.Prelude.{
  ℕ, String, Bool, Option-cases, ==_iff, ◌≡◌, refl, sym, ◌∙◌, ap, ◌==◌, true, false, same,
  Bool-cases, inl, inr, Option, none, some, [], ◌∷◌, arith,
}
use baseline_ops.WindowsUpdate.{
  use_wsus, wsus_server, wsus_status_server, defer_feature_updates, defer_feature_days,
  defer_quality_updates, defer_quality_days, target_release_version, product_version,
  target_release_version_info, delivery_optimization_mode, DownloadMode, http_only, lan, group,
  internet, simple, missing, dword, text, bit, text_if, download_mode_value, insert_target_release,
  allow_microsoft_update, WindowsUpdateField, rank, PolicyValueSnapshot, WindowsUpdateObservation,
  WindowsUpdateConfig, UpdateSource, wufb, wsus, get_field, insert_field, expected_values,
  differences, build_windows_update_plan,
}
use baseline_ops.WindowsUpdate.Applied.{
  Values, HasValues, IsFresh, applied, applied-other, no_differences, expected-HasValues,
}

-- The table of the policy: what a desired state wants in each field, `none` where it does not care.
abbrev pub mode_number : DownloadMode → ℕ
mode_number http_only = 0
mode_number lan = 1
mode_number group = 2
mode_number internet = 3
mode_number simple = 99

abbrev pub wsus_endpoint : UpdateSource → Option PolicyValueSnapshot
wsus_endpoint wufb = some missing
wsus_endpoint wsus = none

abbrev pub use_wsus_value : UpdateSource → PolicyValueSnapshot
use_wsus_value wufb = dword 0
use_wsus_value wsus = dword 1

abbrev pub enabled_value : Bool → PolicyValueSnapshot
enabled_value false = dword 0
enabled_value true = dword 1

abbrev pub when_enabled : Bool → String → PolicyValueSnapshot
when_enabled false value = missing
when_enabled true value = text value

abbrev pub wanted : WindowsUpdateConfig → WindowsUpdateField → Option PolicyValueSnapshot
wanted c use_wsus = some (use_wsus_value c.update_source)
wanted c wsus_server = wsus_endpoint c.update_source
wanted c wsus_status_server = wsus_endpoint c.update_source
wanted c allow_microsoft_update = none
wanted c defer_feature_updates = some (dword 1)
wanted c defer_feature_days = some (dword c.deferrals.feature_days)
wanted c defer_quality_updates = some (dword 1)
wanted c defer_quality_days = some (dword c.deferrals.quality_days)
wanted c target_release_version = some (enabled_value c.target_release.enabled)
wanted c product_version = some (when_enabled c.target_release.enabled c.target_release.product)
wanted c target_release_version_info =
    some (when_enabled c.target_release.enabled c.target_release.release)
wanted c delivery_optimization_mode =
    some (dword (mode_number c.delivery_optimization.download_mode))

enabled_value-bit : (b : Bool) → dword (bit b) ≡ enabled_value b
enabled_value-bit true = refl
enabled_value-bit false = refl

when_enabled-text_if : (b : Bool) (value : String) → text_if b value ≡ when_enabled b value
when_enabled-text_if true value = refl
when_enabled-text_if false value = refl

mode_number_lem : (m : DownloadMode) → download_mode_value m ≡ mode_number m
unfolding download_mode_value
mode_number_lem http_only = refl
mode_number_lem lan = refl
mode_number_lem group = refl
mode_number_lem internet = refl
mode_number_lem simple = refl

-- The expected values are those of the table.
pub expected_values-wanted :
    (c : WindowsUpdateConfig) (f : WindowsUpdateField)
    → get_field f (expected_values c) ≡ wanted c f
unfolding expected_values get_field insert_field insert_target_release rank
expected_values-wanted c f = at c.update_source f
  where
    at :
        (s : UpdateSource) (f : WindowsUpdateField)
        → get_field f (expected_values (record c { update_source = s }))
          ≡ wanted (record c { update_source = s }) f
    at wufb use_wsus = refl
    at wsus use_wsus = refl
    at wufb wsus_server = refl
    at wsus wsus_server = refl
    at wufb wsus_status_server = refl
    at wsus wsus_status_server = refl
    at wufb allow_microsoft_update = refl
    at wsus allow_microsoft_update = refl
    at wufb defer_feature_updates = refl
    at wsus defer_feature_updates = refl
    at wufb defer_feature_days = refl
    at wsus defer_feature_days = refl
    at wufb defer_quality_updates = refl
    at wsus defer_quality_updates = refl
    at wufb defer_quality_days = refl
    at wsus defer_quality_days = refl
    at wufb target_release_version = ap (λ v. some v) (enabled_value-bit c.target_release.enabled)
    at wsus target_release_version = ap (λ v. some v) (enabled_value-bit c.target_release.enabled)
    at wufb product_version =
        ap (λ v. some v) (when_enabled-text_if c.target_release.enabled c.target_release.product)
    at wsus product_version =
        ap (λ v. some v) (when_enabled-text_if c.target_release.enabled c.target_release.product)
    at wufb target_release_version_info =
        ap (λ v. some v) (when_enabled-text_if c.target_release.enabled c.target_release.release)
    at wsus target_release_version_info =
        ap (λ v. some v) (when_enabled-text_if c.target_release.enabled c.target_release.release)
    at wufb delivery_optimization_mode =
        ap (λ n. some (dword n)) (mode_number_lem c.delivery_optimization.download_mode)
    at wsus delivery_optimization_mode =
        ap (λ n. some (dword n)) (mode_number_lem c.delivery_optimization.download_mode)

get_field_cong :
    (f g : WindowsUpdateField) (values : Values)
    → rank f ≡ rank g
    → get_field f values ≡ get_field g values
unfolding get_field
get_field_cong f g [] e = refl
get_field_cong f g ((h, v) ∷ values) e = ground (arith, e, get_field_cong f g values e)

pub HasValues-get_field :
    (values expected : Values) (f : WindowsUpdateField) (v : PolicyValueSnapshot)
    → HasValues values expected
    → get_field f expected ≡ some v
    → get_field f values ≡ some v
unfolding get_field
HasValues-get_field values [] f v h e = absurd (cc e)
HasValues-get_field values ((g, w) ∷ expected) f v (here, h) e =
    elim (Bool-cases (rank f == rank g)) [
      | inl same ↦
          let same_value : some w ≡ some v = ground (arith, same, e) in
          get_field_cong f g values ((==_iff (rank f) (rank g)).0 same) ∙ here ∙ same_value
      | inr other ↦ HasValues-get_field values expected f v h (rw other at e)
    ]

pub get_field-IsFresh :
    (f : WindowsUpdateField) (expected : Values) → get_field f expected ≡ none → IsFresh f expected
unfolding get_field
get_field-IsFresh f [] e = tt
get_field-IsFresh f ((g, w) ∷ expected) e = elim (Bool-cases (rank f == rank g)) [
  | inl same ↦ absurd (ground (arith, same, e))
  | inr other ↦ (other, get_field-IsFresh f expected (rw other at e))
]

-- What stands in a field for which a value may be wanted.
abbrev pub or_else :
    Option PolicyValueSnapshot → Option PolicyValueSnapshot → Option PolicyValueSnapshot
or_else (some v) old = some v
or_else none old = old

-- The mutations of a plan, made in their order, give every policy field the value that the table
-- has for it in the desired state, whatever was observed, and leave every field for which it has
-- none, such as the one that allows Microsoft Update, as it was; a plan that is made afterwards for
-- the same desired state has no mutations left.
pub build_windows_update_plan-applied :
    (observation : WindowsUpdateObservation) (desired : WindowsUpdateConfig)
    (f : WindowsUpdateField)
    → (let after =
          applied (build_windows_update_plan observation desired).mutations observation.values in
        (get_field f after ≡ or_else (wanted desired f) (get_field f observation.values))
        × ((build_windows_update_plan (record { values = after }) desired).mutations ≡ []))
unfolding build_windows_update_plan
build_windows_update_plan-applied observation desired f =
    let observed = observation.values in
    let expected = expected_values desired in
    let after = applied (differences observed expected) observed in
    let all = expected-HasValues observation desired in
    let table = expected_values-wanted desired f in
    (
      elim (Option-cases (get_field f expected)) [
        | inl e ↦
            rw (sym table ∙ e)
              (applied-other f observed expected observed (get_field-IsFresh f expected e))
        | inr (v, e) ↦ rw (sym table ∙ e) (HasValues-get_field after expected f v all e)
      ],
      no_differences after expected all,
    )
