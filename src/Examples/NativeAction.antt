-- ===== src/Examples/NativeAction.antt =====
-- A Windows Update action on a registry that is a list of values.
use baseline_ops.Domain.Results.{succeeded}
use baseline_ops.Prelude.{none, true, refl, ◌≡◌, some, List, [], ◌∷◌, length, ok}
use baseline_ops.WindowsUpdate.{
  WindowsUpdateField, PolicyValueSnapshot, WindowsUpdatePlan, use_wsus, wsus_server,
  wsus_status_server, allow_microsoft_update, defer_feature_updates, defer_feature_days,
  defer_quality_updates, defer_quality_days, target_release_version, product_version,
  target_release_version_info, delivery_optimization_mode, dword, missing, default_config,
  insert_field, build_windows_update_plan,
}
use baseline_ops.NativeExecution.{ActionOutcome, ActionPort, Rendering}
use baseline_ops.NativeExecution.Checks.{windows_update_capability}
use baseline_ops.NativeExecution.Action.{execute_windows_update}
use baseline_ops.NativeExecution.Monitor.{monitored, watch, Agrees}
use baseline_ops.NativeExecution.Laws.{execute_windows_update-Agrees}

abbrev Registry : Type 0
Registry = List (WindowsUpdateField × PolicyValueSnapshot)

abbrev registry : Registry
registry =
    (use_wsus, dword 0)
    ∷ (wsus_server, missing)
    ∷ (wsus_status_server, missing)
    ∷ (allow_microsoft_update, dword 1)
    ∷ (defer_feature_updates, dword 1)
    ∷ (defer_feature_days, dword 10)
    ∷ (defer_quality_updates, dword 1)
    ∷ (defer_quality_days, dword 7)
    ∷ (target_release_version, dword 0)
    ∷ (product_version, missing)
    ∷ (target_release_version_info, missing)
    ∷ (delivery_optimization_mode, dword 3)
    ∷ []

abbrev port : ActionPort Registry
port = record {
  observe = λ w. (ok (record { values = w }), w);
  persist_recovery = λ id pre post w. (ok tt, w);
  append = λ event w. (ok tt, w);
  mutate = λ field expected desired w. (ok desired, insert_field field desired w);
}

abbrev rendering : Rendering
rendering = record {
  observation_digest = λ o. ok (length o.values);
  receipt_digest = λ r. ok r.post_state_digest;
  action_text = λ id. "17";
  field_text = λ f. "field";
}

abbrev plan : WindowsUpdatePlan
plan = build_windows_update_plan (record { values = registry }) default_config

execute_windows_update-Agrees_example :
    (let r =
        execute_windows_update rendering
          (monitored port)
          17
          windows_update_capability
          plan
          (watch registry) in
      (outcome : ActionOutcome) × (r.0 ≡ some outcome)
      × Agrees rendering 17 plan outcome r.1.stage r.1.last)
execute_windows_update-Agrees_example =
    execute_windows_update-Agrees rendering port 17 windows_update_capability plan registry

-- The whole plan is carried out.
carried_out :
    (execute_windows_update rendering port 17 windows_update_capability plan registry).0
    ≡ some (record {
      receipt = some (record {
        action_id = 17;
        capability = windows_update_capability;
        pre_state_digest = 12;
        post_state_digest = 12;
        status = succeeded;
      });
      failure = none;
      reboot_possible = true;
      may_finish_run = true;
    })
unfolding execute_windows_update baseline_ops.NativeExecution.Action.prepare_action
    baseline_ops.NativeExecution.Action.build_receipt
    baseline_ops.NativeExecution.Action.record_terminal
    baseline_ops.NativeExecution.Action.finish_failure
    baseline_ops.NativeExecution.Action.finish_after_mutations
    baseline_ops.NativeExecution.Action.apply_mutation
    baseline_ops.NativeExecution.Action.mutate_all
    baseline_ops.NativeExecution.Action.mutate_then_observe
    baseline_ops.NativeExecution.Attempt.proceed baseline_ops.NativeExecution.Attempt.or_return
    baseline_ops.NativeExecution.Attempt.check baseline_ops.NativeExecution.Attempt.reject
    baseline_ops.NativeExecution.Attempt.expect
    baseline_ops.NativeExecution.Attempt.complete_observation
    baseline_ops.NativeExecution.Attempt.settle baseline_ops.NativeExecution.Checks.contains_all
    baseline_ops.NativeExecution.Checks.require_complete
    baseline_ops.NativeExecution.Checks.insert_mutations
    baseline_ops.NativeExecution.Checks.expected_post_state
    baseline_ops.NativeExecution.Checks.validate_plan baseline_ops.WindowsUpdate.rank
    baseline_ops.WindowsUpdate.contains_nul baseline_ops.WindowsUpdate.valid_policy_string
    baseline_ops.WindowsUpdate.validate_deferrals baseline_ops.WindowsUpdate.validate_update_source
    baseline_ops.WindowsUpdate.validate_target_release
    baseline_ops.WindowsUpdate.resolve_desired_state baseline_ops.WindowsUpdate.get_field
    baseline_ops.WindowsUpdate.insert_field baseline_ops.WindowsUpdate.download_mode_value
    baseline_ops.WindowsUpdate.insert_target_release baseline_ops.WindowsUpdate.expected_values
    baseline_ops.WindowsUpdate.differences baseline_ops.WindowsUpdate.build_windows_update_plan
    baseline_ops.WindowsUpdate.PolicyValueSnapshot-discrete
    baseline_ops.WindowsUpdate.WindowsUpdateObservation-discrete
    baseline_ops.WindowsUpdate.WindowsUpdatePlan-discrete baseline_ops.Prelude.String-discrete
    baseline_ops.Prelude.ℕ_discrete
carried_out = refl
