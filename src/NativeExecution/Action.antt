-- ===== src/NativeExecution/Action.antt =====
-- `execute_windows_update` of native_execution/action.rs, with the early returns of Attempt.
use Prim.Native.String.{◌++◌}
use baseline_ops.Prelude.{
  String, Bool, true, false, not, if◌then◌else◌, same, Option, none, some, List, is_empty, [], ◌∷◌,
  Outcome, ok, err,
}
use baseline_ops.Domain.Ids.{ActionId, CapabilityId}
use baseline_ops.Domain.Results.{ActionStatus, succeeded, failed, ActionReceipt}
use baseline_ops.Journal.Event.{action_started, action_finished}
use baseline_ops.WindowsUpdate.{
  PolicyValueSnapshot, PolicyValueSnapshot-discrete, WindowsUpdateObservation,
  WindowsUpdateObservation-discrete, WindowsUpdateMutation, WindowsUpdatePlan, get_field,
}
use baseline_ops.NativeExecution.{
  FailurePhase, precondition, recovery_evidence, mutation, postcondition, ActionOutcome, ActionPort,
  Rendering,
}
use baseline_ops.NativeExecution.Checks.{validate_plan}
use baseline_ops.NativeExecution.Attempt.{
  Attempt, ◌>>=◌, ◌>>◌, try, check, reject, expect, settle, failed_before_start, unmatched_start,
  journal_failure, complete_observation, action_failure, match_mutation,
}

-- The action's identity and capability, its plan and its port.
module _ {W : Type 0} (rendering : Rendering) (port : ActionPort W) (action_id : ActionId)
    (capability : CapabilityId) where
  abbrev pub observe_complete : String → W → Outcome String WindowsUpdateObservation × W
  observe_complete label w = complete_observation label (port.observe w)

  unfoldable pub prepare_action :
      WindowsUpdatePlan → Attempt W (WindowsUpdateObservation × WindowsUpdateObservation)
  unfolding validate_plan
  prepare_action plan = do
    expected_post ← check (validate_plan capability plan) (failed_before_start precondition)
    pre ← try (observe_complete "pre-state") (failed_before_start precondition)
    reject (not (same WindowsUpdateObservation-discrete pre plan.observation)) (
        failed_before_start precondition
          "Windows Update pre-state does not exactly match the trusted plan")
    pre_digest ←
        check (rendering.observation_digest pre) (λ e.
          failed_before_start precondition ("could not digest Windows Update pre-state: " ++ e))
    try (port.persist_recovery action_id pre expected_post) (λ e.
        failed_before_start recovery_evidence ("could not persist manual recovery evidence: " ++ e))
    try (port.append (action_started (rendering.action_text action_id) pre_digest))
        (journal_failure false)
    λ w. (ok (pre, expected_post), w)

  unfoldable pub build_receipt :
      WindowsUpdateObservation
      → WindowsUpdateObservation
      → ActionStatus
      → Bool
      → Attempt W ActionReceipt
  build_receipt pre post status mutation_attempted = do
    pre_digest ←
        check (rendering.observation_digest pre)
          (λ e. journal_failure mutation_attempted ("could not digest receipt pre-state: " ++ e))
    post_digest ←
        check (rendering.observation_digest post)
          (λ e. journal_failure mutation_attempted ("could not digest receipt post-state: " ++ e))
    λ w. (
      ok (record {
        action_id = action_id;
        capability = capability;
        pre_state_digest = pre_digest;
        post_state_digest = post_digest;
        status = status;
      }),
      w,
    )

  unfoldable pub record_terminal :
      WindowsUpdateObservation
      → Bool
      → WindowsUpdateObservation
      → ActionStatus
      → Option (FailurePhase × String)
      → Attempt W ActionOutcome
  unfolding build_receipt
  record_terminal pre mutation_attempted observed_post status failure = do
    receipt ← build_receipt pre observed_post status mutation_attempted
    digest ←
        check (rendering.receipt_digest receipt)
          (λ e. journal_failure mutation_attempted ("could not digest action receipt: " ++ e))
    try (port.append (action_finished (rendering.action_text action_id) status digest))
        (journal_failure mutation_attempted)
    λ w. (
      ok (record {
        receipt = some receipt;
        failure = action_failure failure mutation_attempted;
        reboot_possible = mutation_attempted;
        may_finish_run = true;
      }),
      w,
    )

  unfoldable pub finish_failure :
      WindowsUpdateObservation → FailurePhase → String → Bool → Attempt W ActionOutcome
  unfolding record_terminal
  finish_failure pre phase detail mutation_attempted = do
    observed_post ←
        try (observe_complete "failure post-state")
          (λ e. unmatched_start postcondition (detail ++ "; " ++ e) mutation_attempted)
    record_terminal pre mutation_attempted observed_post failed (some (phase, detail))

  unfoldable pub finish_after_mutations :
      WindowsUpdateObservation → WindowsUpdateObservation → Bool → Attempt W ActionOutcome
  unfolding record_terminal
  finish_after_mutations pre expected_post mutation_attempted = do
    observed_post ←
        try (observe_complete "post-state")
          (λ e. unmatched_start postcondition e mutation_attempted)
    (if same WindowsUpdateObservation-discrete observed_post expected_post
        then record_terminal pre mutation_attempted observed_post succeeded none
        else record_terminal pre mutation_attempted observed_post failed (
            some (
              postcondition,
              "Windows Update post-state does not match the canonical expected state",
            )))

  -- What `mutate` returned, as the `Result` of `apply_mutation`.
  abbrev pub check_mutation :
      WindowsUpdateMutation → Outcome String PolicyValueSnapshot → Outcome String (Unit {0})
  check_mutation m (err e) =
      err ("Windows Update " ++ rendering.field_text m.field ++ " mutation failed: " ++ e)
  check_mutation m (ok observed) =
      if same PolicyValueSnapshot-discrete observed m.desired
      then ok tt
      else err (
          "Windows Update "
          ++ rendering.field_text m.field
          ++ " mutation returned an unexpected value")

  unfoldable pub apply_mutation :
      WindowsUpdateMutation → PolicyValueSnapshot → Attempt W (Outcome String (Unit {0}))
  apply_mutation m expected w =
      let r = port.mutate m.field expected m.desired w in (ok (check_mutation m r.0), r.1)

  -- The loop of `mutate_then_observe`; `attempted` says whether the plan has mutations.
  unfoldable pub mutate_all :
      WindowsUpdateObservation
      → WindowsUpdateObservation
      → Bool
      → List WindowsUpdateMutation
      → Attempt W ActionOutcome
  unfolding finish_after_mutations finish_failure apply_mutation get_field
  mutate_all pre expected_post attempted [] = finish_after_mutations pre expected_post attempted
  mutate_all pre expected_post attempted (m ∷ mutations) =
      let rest = mutate_all pre expected_post attempted mutations in
      expect (get_field m.field pre.values) >>= λ expected. apply_mutation m expected >>= λ result.
      match_mutation rest (λ detail. finish_failure pre mutation detail true) result

  unfoldable pub mutate_then_observe :
      WindowsUpdatePlan
      → WindowsUpdateObservation
      → WindowsUpdateObservation
      → Attempt W ActionOutcome
  unfolding mutate_all
  mutate_then_observe plan pre expected_post =
      mutate_all pre expected_post (not (is_empty plan.mutations)) plan.mutations

  unfoldable pub execute_windows_update : WindowsUpdatePlan → W → Option ActionOutcome × W
  unfolding prepare_action mutate_then_observe
  execute_windows_update plan w = settle (
      (prepare_action plan >>= λ (prepared : WindowsUpdateObservation × WindowsUpdateObservation).
      mutate_then_observe plan prepared.0 prepared.1)
        w)
