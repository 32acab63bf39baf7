-- ===== src/Examples/Policies.antt =====
-- A host with two of the values that a default Windows Update plan is about.
use baseline_ops.Prelude.{◌≡◌, [], ◌∷◌}
use baseline_ops.WindowsUpdate.{
  WindowsUpdateObservation, use_wsus, allow_microsoft_update, defer_feature_days, wsus_server,
  dword, text, default_config, get_field, build_windows_update_plan,
}
use baseline_ops.WindowsUpdate.Applied.{applied}
use baseline_ops.WindowsUpdate.Laws.{or_else, wanted, build_windows_update_plan-applied}

abbrev observation : WindowsUpdateObservation
observation = record {
  values =
      (use_wsus, dword 0)
      ∷ (wsus_server, text "http://update")
      ∷ (allow_microsoft_update, dword 1)
      ∷ (defer_feature_days, dword 10)
      ∷ [];
}

build_windows_update_plan-applied_example :
    (let after =
        applied
          (build_windows_update_plan observation default_config).mutations
          observation.values in
      (get_field defer_feature_days after
        ≡ or_else
            (wanted default_config defer_feature_days)
            (get_field defer_feature_days observation.values))
      × ((build_windows_update_plan (record { values = after }) default_config).mutations ≡ []))
build_windows_update_plan-applied_example =
    build_windows_update_plan-applied observation default_config defer_feature_days
