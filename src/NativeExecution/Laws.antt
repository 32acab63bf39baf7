-- ===== src/NativeExecution/Laws.antt =====
-- Whatever the port does, the outcome of an action says what was done.
use baseline_ops.Prelude.{
  is_empty, ◌≡◌, refl, subst, sym, String, Bool, true, false, not, ◌||◌, same, same_iff, Bool-cases,
  inl, inr, Option, none, some, List, [], ◌∷◌, Outcome, ok, err, arith,
}
use baseline_ops.Domain.Ids.{ActionId, CapabilityId}
use baseline_ops.Domain.Results.{succeeded, failed}
use baseline_ops.Journal.Event.{action_started}
use baseline_ops.WindowsUpdate.{
  WindowsUpdateField, PolicyValueSnapshot, WindowsUpdateObservation,
  WindowsUpdateObservation-discrete, WindowsUpdateMutation, WindowsUpdatePlan, get_field,
}
use baseline_ops.WindowsUpdate.{expected_values}
use baseline_ops.WindowsUpdate.Applied.{HasValues}
use baseline_ops.NativeExecution.{
  FailurePhase, precondition, recovery_evidence, journal, mutation, postcondition, ActionOutcome,
  ActionPort, Rendering,
}
use baseline_ops.NativeExecution.Checks.{validate_plan, expected_post_state}
use baseline_ops.NativeExecution.Attempt.{Attempt, match_mutation}
use baseline_ops.NativeExecution.Action.{
  prepare_action, finish_failure, finish_after_mutations, apply_mutation, check_mutation,
  mutate_all, mutate_then_observe, execute_windows_update,
}
use baseline_ops.NativeExecution.Monitor.{
  Stage, idle, recovered, started, after_start, after_recovery, Monitored, monitored, watch, Agrees,
}
use baseline_ops.NativeExecution.Triples.{
  Ends, Ends-proceed-ok, Ends-proceed, Ends-settle, Ends-check, Ends-reject, Ends-expect, Ends-call,
  Ends-observe,
}
use baseline_ops.NativeExecution.Complete.{
  MeetsDesired, validate_plan-MeetsDesired, require_complete-get_field, validate_plan-post,
  not-false,
}
use baseline_ops.NativeExecution.Terminal.{
  unmatched_start-IsUnmatched, failed_before_start-IsUnstarted, record_terminal-Done,
}

module _ {W : Type 0} (rendering : Rendering) (port : ActionPort W) (action_id : ActionId)
    (capability : CapabilityId) (plan : WindowsUpdatePlan) where
  abbrev Done : Outcome (Option ActionOutcome) ActionOutcome × Monitored W → Type 0
  Done = Ends (Agrees rendering action_id plan)

  abbrev R : ActionOutcome → Stage → Option WindowsUpdateObservation → Type 0
  R = Agrees rendering action_id plan

  finish_failure-Done :
      (pre : WindowsUpdateObservation) (phase : FailurePhase) (detail : String) (attempted : Bool)
      (w : W) (last : Option WindowsUpdateObservation)
      → pre ≡ plan.observation
      → Done (
          finish_failure rendering
            (monitored port)
            action_id
            capability
            pre
            phase
            detail
            attempted
            (record { world = w; stage = started attempted; last = last }))
  unfolding finish_failure
  finish_failure-Done pre phase detail attempted w last same_pre =
      Ends-observe R (port.observe w) _ _ _ (started attempted) last
        (λ e l. unmatched_start-IsUnmatched postcondition _ attempted)
        (λ post w' _.
          record_terminal-Done rendering port action_id capability plan pre post attempted failed
            (some (phase, detail)) w' same_pre (λ outcome h. (_, h, refl)))

  finish_after_mutations-Done :
      (pre : WindowsUpdateObservation) (attempted : Bool) (w : W)
      (last : Option WindowsUpdateObservation)
      → pre ≡ plan.observation
      → MeetsDesired plan
      → Done (
          finish_after_mutations rendering
            (monitored port)
            action_id
            capability
            pre
            (expected_post_state plan)
            attempted
            (record { world = w; stage = started attempted; last = last }))
  unfolding finish_after_mutations
  finish_after_mutations-Done pre attempted w last same_pre meets =
      Ends-observe R (port.observe w) _ _ _ (started attempted) last
        (λ e l. unmatched_start-IsUnmatched postcondition _ attempted)
        (λ post w' _.
          elim (Bool-cases
            (same WindowsUpdateObservation-discrete post (expected_post_state plan))) [
              | inl e ↦ rw e (
                  record_terminal-Done rendering port action_id capability plan pre post attempted
                    succeeded none w' same_pre
                    (λ outcome h.
                      let is_post =
                        (same_iff WindowsUpdateObservation-discrete post
                            (expected_post_state plan)).0
                          e in
                      (
                        h,
                        is_post,
                        subst
                            (λ (o : WindowsUpdateObservation).
                              HasValues o.values (expected_values plan.desired))
                            (sym is_post) meets,
                      )))
              | inr e ↦ rw e (
                  record_terminal-Done rendering port action_id capability plan pre post attempted
                    failed
                    (some (
                      postcondition,
                      "Windows Update post-state does not match the canonical expected state",
                    ))
                    w' same_pre (λ outcome h. (_, h, refl)))
            ])

  match_mutation-Done :
      (rest : Attempt (Monitored W) ActionOutcome)
      (failure : String → Attempt (Monitored W) ActionOutcome) (result : Outcome String (Unit {0}))
      (s : Monitored W)
      → Done (rest s)
      → ((detail : String) → Done (failure detail s))
      → Done (match_mutation rest failure result s)
  match_mutation-Done rest failure (ok _) s left right = left
  match_mutation-Done rest failure (err detail) s left right = right detail

  mutate_all-Done :
      (pre : WindowsUpdateObservation) (mutations : List WindowsUpdateMutation)
      (attempted before : Bool) (w : W) (last : Option WindowsUpdateObservation)
      → pre ≡ plan.observation
      → MeetsDesired plan
      → ((f : WindowsUpdateField) → (v : PolicyValueSnapshot) × (get_field f pre.values ≡ some v))
      → attempted ≡ (before || not (is_empty mutations))
      → Done (
          mutate_all rendering
            (monitored port)
            action_id
            capability
            pre
            (expected_post_state plan)
            attempted
            mutations
            (record { world = w; stage = started before; last = last }))
  unfolding mutate_all apply_mutation
  mutate_all-Done pre [] attempted before w last same_pre meets complete h =
      let none_left : before ≡ attempted = ground (arith, h) in
      subst
        (λ x. Done (
          finish_after_mutations rendering (monitored port) action_id capability pre
            (expected_post_state plan) x
            (record { world = w; stage = started before; last = last })))
        none_left (finish_after_mutations-Done pre before w last same_pre meets)
  mutate_all-Done pre (m ∷ mutations) attempted before w last same_pre meets complete h =
      let is_attempted : attempted ≡ true = ground (arith, h) in
      let (value, has_value) = complete m.field in
      Ends-expect R (get_field m.field pre.values) _ _ value has_value (λ expected.
        let r = port.mutate m.field expected m.desired w in
        Ends-proceed-ok R _ _ _ (
          match_mutation-Done _ _
            (check_mutation rendering (monitored port) action_id capability m r.0)
            (record { world = r.1; stage = started true; last = last })
            (mutate_all-Done pre mutations attempted true r.1 last same_pre meets complete
              is_attempted)
            (λ detail. finish_failure-Done pre mutation detail true r.1 last same_pre)))

  -- For any port, an action ends with an outcome, never in a panic. Every call comes in turn:
  -- the recovery is persisted before the start is journalled, and nothing is mutated before the
  -- start is journalled or after the end is. The outcome says what was done: without a start it
  -- has no receipt and asks for no reboot; behind a start that may have no end in the journal
  -- the run may not be finished; behind an end that is journalled it has the receipt of that
  -- end, which binds the action to the planned state and to the state that was observed last,
  -- and a success means that this is the state that the plan expects, in which every policy
  -- field has its desired value. A reboot is possible exactly behind a mutation that was
  -- attempted.
  pub execute_windows_update-Agrees :
      (w : W)
      → (let r =
            execute_windows_update rendering (monitored port) action_id capability plan (watch w) in
          (outcome : ActionOutcome) × (r.0 ≡ some outcome)
          × Agrees rendering action_id plan outcome r.1.stage r.1.last)
  unfolding execute_windows_update prepare_action mutate_then_observe
  execute_windows_update-Agrees w =
      let early =
        λ (phase : FailurePhase) (detail : String). failed_before_start-IsUnstarted phase detail in
      let next = λ (prepared : WindowsUpdateObservation × WindowsUpdateObservation).
        mutate_then_observe rendering (monitored port) action_id capability plan prepared.0
          prepared.1 in
      Ends-settle R _ (
        Ends-proceed R _ next _ (
          Ends-check R (validate_plan capability plan) _ _ _ (λ e. early precondition _)
            (λ expected_post valid. Ends-proceed R _ next _ (
              Ends-observe R (port.observe w) _ _ _ idle none (λ e l. early precondition _)
                (λ pre w₁ complete. Ends-proceed R _ next _ (
                  Ends-reject R (not (same WindowsUpdateObservation-discrete pre plan.observation))
                    _ _ _ (early precondition _)
                    (λ is_same. Ends-proceed R _ next _ (
                      Ends-check R (rendering.observation_digest pre) _ _ _
                        (λ e. early precondition _)
                        (λ pre_digest _. Ends-proceed R _ next _ (
                          Ends-call R (port.persist_recovery action_id pre expected_post w₁) _ _
                            (after_recovery idle) (some pre) (λ e. early recovery_evidence _)
                            (λ w₂. Ends-proceed R _ next _ (
                              Ends-call R
                                (port.append
                                  (action_started (rendering.action_text action_id) pre_digest) w₂)
                                _ _ (after_start recovered) (some pre)
                                (λ e. unmatched_start-IsUnmatched journal _ false)
                                (λ w₃. Ends-proceed-ok R next _ _ (
                                  subst
                                    (λ post. Done (
                                      mutate_then_observe rendering (monitored port) action_id
                                        capability plan pre post
                                        (record {
                                          world = w₃;
                                          stage = started false;
                                          last = some pre;
                                        })))
                                    (sym (validate_plan-post capability plan valid).1)
                                    (mutate_all-Done pre plan.mutations
                                      (not (is_empty plan.mutations)) false w₃ (some pre)
                                      ((same_iff WindowsUpdateObservation-discrete pre
                                          plan.observation).0
                                        (not-false
                                          (same WindowsUpdateObservation-discrete pre
                                            plan.observation)
                                          is_same))
                                      (validate_plan-MeetsDesired capability plan valid)
                                      (require_complete-get_field pre "pre-state" complete)
                                      refl)))))))))))))))
