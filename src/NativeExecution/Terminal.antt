-- ===== src/NativeExecution/Terminal.antt =====
-- The end of an action: the receipt, and the journal's record of it.
use baseline_ops.Prelude.{◌≡◌, refl, subst, String, Bool, true, Option, some, Outcome, ok}
use baseline_ops.Domain.Ids.{ActionId, CapabilityId, Digest}
use baseline_ops.Domain.Results.{ActionStatus, ActionReceipt}
use baseline_ops.Journal.Event.{action_finished}
use baseline_ops.WindowsUpdate.{WindowsUpdateObservation, WindowsUpdatePlan}
use baseline_ops.NativeExecution.{FailurePhase, journal, ActionOutcome, ActionPort, Rendering}
use baseline_ops.NativeExecution.Attempt.{action_failure, unmatched_start, failed_before_start}
use baseline_ops.NativeExecution.Action.{build_receipt, record_terminal}
use baseline_ops.NativeExecution.Monitor.{
  Stage, started, after_finish, IsUnmatched, IsUnstarted, Monitored, monitored, Agrees, IsFinished,
  IsTerminal,
}
use baseline_ops.NativeExecution.Triples.{
  Ends, Ends-ok, Ends-proceed-ok, Ends-proceed, Ends-check, Ends-call,
}

pub unmatched_start-IsUnmatched :
    (phase : FailurePhase) (detail : String) (attempted : Bool)
    → IsUnmatched attempted (unmatched_start phase detail attempted)
unmatched_start-IsUnmatched phase detail attempted = (refl, (_, refl, refl), refl, refl)

pub failed_before_start-IsUnstarted :
    (phase : FailurePhase) (detail : String) → IsUnstarted (failed_before_start phase detail)
failed_before_start-IsUnstarted phase detail = (refl, (_, refl, refl), refl, refl)

module _ {W : Type 0} (rendering : Rendering) (port : ActionPort W) (action_id : ActionId)
    (capability : CapabilityId) (plan : WindowsUpdatePlan) where
  abbrev pub Done : Outcome (Option ActionOutcome) ActionOutcome × Monitored W → Type 0
  Done = Ends (Agrees rendering action_id plan)

  abbrev pub R : ActionOutcome → Stage → Option WindowsUpdateObservation → Type 0
  R = Agrees rendering action_id plan

  -- The last failure and the observation fit the status that is recorded.
  abbrev pub MayRecord :
      ActionStatus → Bool → Option (FailurePhase × String) → WindowsUpdateObservation → Type 0
  MayRecord status attempted failure post =
      (outcome : ActionOutcome)
      → outcome.failure ≡ action_failure failure attempted
      → IsTerminal rendering action_id plan status attempted outcome post

  abbrev terminal_receipt : ActionStatus → Digest → Digest → ActionReceipt
  terminal_receipt status pre_digest post_digest = record {
    action_id = action_id;
    capability = capability;
    pre_state_digest = pre_digest;
    post_state_digest = post_digest;
    status = status;
  }

  record_terminal-IsFinished :
      (pre post : WindowsUpdateObservation) (attempted : Bool) (status : ActionStatus)
      (failure : Option (FailurePhase × String)) (pre_digest post_digest : Digest)
      → pre ≡ plan.observation
      → MayRecord status attempted failure post
      → rendering.observation_digest pre ≡ ok pre_digest
      → rendering.observation_digest post ≡ ok post_digest
      → IsFinished rendering action_id plan attempted status
          (record {
            receipt = some (terminal_receipt status pre_digest post_digest);
            failure = action_failure failure attempted;
            reboot_possible = attempted;
            may_finish_run = true;
          })
          (some post)
  record_terminal-IsFinished pre post attempted status failure pre_digest post_digest same_pre may
        pre_ok post_ok =
      (
        terminal_receipt status pre_digest post_digest,
        post,
        refl,
        refl,
        (
          refl,
          refl,
          subst (λ o. rendering.observation_digest o ≡ ok pre_digest) same_pre pre_ok,
          post_ok,
        ),
        may _ refl,
        refl,
        refl,
      )

  pub record_terminal-Done :
      (pre post : WindowsUpdateObservation) (attempted : Bool) (status : ActionStatus)
      (failure : Option (FailurePhase × String)) (w : W)
      → pre ≡ plan.observation
      → MayRecord status attempted failure post
      → Done (
          record_terminal rendering
            (monitored port)
            action_id
            capability
            pre
            attempted
            post
            status
            failure
            (record { world = w; stage = started attempted; last = some post }))
  unfolding record_terminal build_receipt
  record_terminal-Done pre post attempted status failure w same_pre may =
      let stopped = λ (detail : String). unmatched_start-IsUnmatched journal detail attempted in
      Ends-proceed R _ _ _ (
        Ends-check R (rendering.observation_digest pre) _ _ _ (λ e. stopped _)
          (λ pre_digest pre_ok. Ends-proceed R _ _ _ (
            Ends-check R (rendering.observation_digest post) _ _ _ (λ e. stopped _)
              (λ post_digest post_ok. Ends-proceed-ok R _ _ _ (
                Ends-check R (rendering.receipt_digest _) _ _ _ (λ e. stopped _)
                  (λ digest _.
                    Ends-call R
                      (port.append (action_finished (rendering.action_text action_id) status digest)
                        w)
                      _ _ (after_finish status (started attempted)) (some post) (λ e. stopped _)
                      (λ w'. Ends-ok R _ _ (
                        record_terminal-IsFinished pre post attempted status failure pre_digest
                          post_digest same_pre may pre_ok post_ok))))))))
