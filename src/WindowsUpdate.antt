-- ===== src/WindowsUpdate.antt =====
-- rust/crates/baselineops-capabilities/src/windows_update_policy.rs, with the snapshot of
-- office_browser_policy.rs. The `BTreeMap` of an observation is a list in the order of the fields,
-- which is the order of their declaration.
-- The fields `microsoft_update` and `product` are `allow_microsoft_update` and `product_version` there.
pub mod Applied
pub mod Laws
use Prim.Native.Char.{code}
use Prim.Native.String.{len}
use baseline_ops.Prelude.{
  ℕ, String, Bool, true, false, not, ◌==◌, ltb, leb, ◌&&◌, ◌||◌, if◌then◌else◌, same,
  String-discrete, ℕ_discrete, Option, none, some, List, [], ◌∷◌, Outcome, ok, err, reject_if,
  ◌>>=◌, ◌>>◌,
}

pub data WindowsUpdateField : Type 0 where
  use_wsus wsus_server wsus_status_server allow_microsoft_update defer_feature_updates
        defer_feature_days :
      WindowsUpdateField
  defer_quality_updates defer_quality_days target_release_version product_version :
      WindowsUpdateField
  target_release_version_info delivery_optimization_mode : WindowsUpdateField

-- The derived order.
unfoldable pub rank : WindowsUpdateField → ℕ
rank use_wsus = 0
rank wsus_server = 1
rank wsus_status_server = 2
rank allow_microsoft_update = 3
rank defer_feature_updates = 4
rank defer_feature_days = 5
rank defer_quality_updates = 6
rank defer_quality_days = 7
rank target_release_version = 8
rank product_version = 9
rank target_release_version_info = 10
rank delivery_optimization_mode = 11

pub data PolicyValueSnapshot : Type 0 where
  missing : PolicyValueSnapshot
  dword : ℕ → PolicyValueSnapshot
  text : String → PolicyValueSnapshot

pub record WindowsUpdateObservation : Type 0 where
  pub values : List (WindowsUpdateField × PolicyValueSnapshot)

pub data UpdateSource : Type 0 where
  wufb wsus : UpdateSource

pub record Deferrals : Type 0 where
  pub feature_days : ℕ
  pub quality_days : ℕ

pub record TargetRelease : Type 0 where
  pub enabled : Bool
  pub product : String
  pub release : String

pub data DownloadMode : Type 0 where
  http_only lan group internet simple : DownloadMode

pub record DeliveryOptimization : Type 0 where
  pub download_mode : DownloadMode

pub record WindowsUpdateConfig : Type 0 where
  pub update_source : UpdateSource
  pub microsoft_update : Bool
  pub deferrals : Deferrals
  pub target_release : TargetRelease
  pub delivery_optimization : DeliveryOptimization

pub record WindowsUpdateParameters : Type 0 where
  pub config : Option WindowsUpdateConfig
  pub desired : Option WindowsUpdateConfig

pub record WindowsUpdateMutation : Type 0 where
  pub field : WindowsUpdateField
  pub desired : PolicyValueSnapshot

pub record WindowsUpdatePlan : Type 0 where
  pub observation : WindowsUpdateObservation
  pub desired : WindowsUpdateConfig
  pub mutations : List WindowsUpdateMutation
  pub rollback : WindowsUpdateObservation
  pub requires_administrator : Bool
  pub reboot_possible : Bool

unfoldable pub PolicyValueSnapshot-discrete : Discrete PolicyValueSnapshot
PolicyValueSnapshot-discrete = hlevel (String-discrete, ℕ_discrete)

unfoldable pub WindowsUpdateObservation-discrete : Discrete WindowsUpdateObservation
WindowsUpdateObservation-discrete = hlevel (PolicyValueSnapshot-discrete, ℕ_discrete)

unfoldable pub WindowsUpdatePlan-discrete : Discrete WindowsUpdatePlan
WindowsUpdatePlan-discrete = hlevel (PolicyValueSnapshot-discrete, String-discrete, ℕ_discrete)

-- `WindowsUpdateConfig::default()`
abbrev pub default_config : WindowsUpdateConfig
default_config = record {
  update_source = wufb;
  microsoft_update = true;
  deferrals = record { feature_days = 30; quality_days = 7 };
  target_release = record { enabled = false; product = "Windows 11"; release = "24H2" };
  delivery_optimization = record { download_mode = http_only };
}

abbrev pub max_policy_string_bytes : ℕ
max_policy_string_bytes = 128

unfoldable pub contains_nul : String → Bool
contains_nul String.[] = false
contains_nul (String.◌∷◌ c s) = code c == 0 || contains_nul s

unfoldable pub valid_policy_string : String → Bool
unfolding contains_nul
valid_policy_string value =
    not (len value == 0) && leb (len value) max_policy_string_bytes && not (contains_nul value)

unfoldable pub validate_deferrals : Deferrals → Outcome String (Unit {0})
validate_deferrals deferrals =
    reject_if (ltb 365 deferrals.feature_days || ltb 35 deferrals.quality_days)
      "Windows Update deferrals exceed the legacy allowlisted ranges"

unfoldable pub validate_update_source : UpdateSource → Outcome String (Unit {0})
validate_update_source wufb = ok tt
validate_update_source wsus =
    err "WSUS is excluded until bounded server identities and service evidence are implemented"

unfoldable pub validate_target_release : TargetRelease → Outcome String (Unit {0})
unfolding valid_policy_string
validate_target_release target =
    reject_if (not (valid_policy_string target.product) || not (valid_policy_string target.release))
      "target release strings must be bounded non-empty strings without NUL"

-- `parameters.desired.or(parameters.config).unwrap_or_default()`
abbrev pub selected : WindowsUpdateParameters → WindowsUpdateConfig
selected parameters = elim parameters.desired [
  | some desired ↦ desired
  | none ↦ elim parameters.config [ some config ↦ config | none ↦ default_config ]
]

unfoldable pub resolve_desired_state : WindowsUpdateParameters → Outcome String WindowsUpdateConfig
unfolding validate_deferrals validate_update_source validate_target_release
resolve_desired_state parameters = do
  let desired = selected parameters
  validate_deferrals desired.deferrals
  validate_update_source desired.update_source
  validate_target_release desired.target_release
  ok desired

-- `values.get(&field)`
unfoldable pub get_field :
    WindowsUpdateField
    → List (WindowsUpdateField × PolicyValueSnapshot)
    → Option PolicyValueSnapshot
get_field f [] = none
get_field f ((g, v) ∷ m) = if rank f == rank g then some v else get_field f m

-- `values.insert(field, value)`
unfoldable pub insert_field :
    WindowsUpdateField
    → PolicyValueSnapshot
    → List (WindowsUpdateField × PolicyValueSnapshot)
    → List (WindowsUpdateField × PolicyValueSnapshot)
insert_field f v [] = (f, v) ∷ []
insert_field f v ((g, w) ∷ m) =
    if ltb (rank f) (rank g)
    then (f, v) ∷ (g, w) ∷ m
    else if rank f == rank g
    then (f, v) ∷ m
    else (g, w) ∷ insert_field f v m

unfoldable pub download_mode_value : DownloadMode → ℕ
download_mode_value http_only = 0
download_mode_value lan = 1
download_mode_value group = 2
download_mode_value internet = 3
download_mode_value simple = 99

abbrev pub is_wsus : UpdateSource → Bool
is_wsus wufb = false
is_wsus wsus = true

-- `u32::from(bool)`
abbrev pub bit : Bool → ℕ
bit false = 0
bit true = 1

-- `enabled.then(|| value).map_or(Missing, String)`
abbrev pub text_if : Bool → String → PolicyValueSnapshot
text_if enabled value = if enabled then text value else missing

unfoldable pub insert_target_release :
    List (WindowsUpdateField × PolicyValueSnapshot)
    → TargetRelease
    → List (WindowsUpdateField × PolicyValueSnapshot)
unfolding insert_field
insert_target_release expected target =
    insert_field target_release_version_info (text_if target.enabled target.release)
      (insert_field product_version (text_if target.enabled target.product) expected)

unfoldable pub expected_values :
    WindowsUpdateConfig → List (WindowsUpdateField × PolicyValueSnapshot)
unfolding insert_field insert_target_release download_mode_value rank
expected_values desired =
    let e₁ = insert_field use_wsus (dword (bit (is_wsus desired.update_source))) [] in
    let e₂ = insert_field defer_feature_updates (dword 1) e₁ in
    let e₃ = insert_field defer_feature_days (dword desired.deferrals.feature_days) e₂ in
    let e₄ = insert_field defer_quality_updates (dword 1) e₃ in
    let e₅ = insert_field defer_quality_days (dword desired.deferrals.quality_days) e₄ in
    let e₆ = insert_field target_release_version (dword (bit desired.target_release.enabled)) e₅ in
    let e₇ = insert_target_release e₆ desired.target_release in
    let e₈ =
      insert_field delivery_optimization_mode
        (dword (download_mode_value desired.delivery_optimization.download_mode)) e₇ in
    if is_wsus desired.update_source
    then e₈
    else insert_field wsus_status_server missing (insert_field wsus_server missing e₈)

-- `observation.values.get(&field) != Some(&desired)`
abbrev pub differs : Option PolicyValueSnapshot → PolicyValueSnapshot → Bool
differs none desired = true
differs (some value) desired = not (same PolicyValueSnapshot-discrete value desired)

-- The `filter_map` of `build_plan`.
unfoldable pub differences :
    List (WindowsUpdateField × PolicyValueSnapshot)
    → (expected : List (WindowsUpdateField × PolicyValueSnapshot)) → List WindowsUpdateMutation
unfolding get_field
differences values [] = []
differences values ((field, desired) ∷ expected) =
    let rest = differences values expected in
    if differs (get_field field values) desired
    then (record { field = field; desired = desired }) ∷ rest
    else rest

unfoldable pub build_windows_update_plan :
    WindowsUpdateObservation → WindowsUpdateConfig → WindowsUpdatePlan
unfolding expected_values differences
build_windows_update_plan observation desired = record {
  observation = observation;
  desired = desired;
  mutations = differences observation.values (expected_values desired);
  rollback = observation;
  requires_administrator = true;
  reboot_possible = true;
}
