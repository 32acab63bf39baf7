-- ===== src/Journal/Lifecycle/Recovery.antt =====
-- Which journals may be reopened.
use baseline_ops.Prelude.{
  ℕ, ◌==◌, ◌≡◌, ◌↔◌, Bool, true, false, not, ◌&&◌, List, [], ◌∷◌, ok, reject_if, >>-eq-ok, arith,
  Option-cases, inl, inr, refl,
}
use baseline_ops.Journal.Event.{
  JournalEvent, plan_approved, action_started, action_finished, run_finished,
}
use baseline_ops.Journal.Lifecycle.{
  Lifecycle, new_lifecycle, is_active, validate, accept, replay, require_resumable,
  validate_recovery,
}

-- The last event is the start of an action, or there was none and the action was open before.
abbrev pub is_interrupted : (started : Bool) → List JournalEvent → Bool
is_interrupted started [] = started
is_interrupted started (action_started action_id digest ∷ events) = is_interrupted true events
is_interrupted started (action_finished action_id status digest ∷ events) =
    is_interrupted false events
is_interrupted started (plan_approved plan_id digest ∷ events) = is_interrupted false events
is_interrupted started (run_finished result_id digest ∷ events) = is_interrupted false events

-- The event is the end of the run and it is the last one, or the run had ended before.
abbrev pub is_ended : (ended : Bool) → List JournalEvent → Bool
is_ended ended [] = ended
is_ended ended (action_started action_id digest ∷ events) = is_ended ended events
is_ended ended (action_finished action_id status digest ∷ events) = is_ended ended events
is_ended ended (plan_approved plan_id digest ∷ events) = is_ended ended events
is_ended ended (run_finished result_id digest ∷ events) = is_ended true events

replay_lem :
    (state : Lifecycle) (events : List JournalEvent) (end : Lifecycle)
    → (is_active state.active ≡ true → state.approved ≡ true)
    → replay state events ≡ ok end
    → (is_active end.active ≡ is_interrupted (is_active state.active) events)
      × (end.finished ≡ is_ended state.finished events)
unfolding replay
replay_lem state [] end known h = let same : state ≡ end = cc in rw (← same) (ground arith)
replay_lem state (plan_approved p d ∷ events) end known h =
    let (valid, rest) = >>-eq-ok (validate state (plan_approved p d)) _ h in
    let idle : is_active state.active ≡ false = ground (arith, valid, known) in
    let r = replay_lem (accept state (plan_approved p d)) events end (λ k. cc) rest in rw idle at r
replay_lem state (action_started a d ∷ events) end known h =
    let (valid, rest) = >>-eq-ok (validate state (action_started a d)) _ h in
    replay_lem (accept state (action_started a d)) events end (λ k. ground (arith, valid)) rest
replay_lem state (action_finished a s d ∷ events) end known h =
    let (valid, rest) = >>-eq-ok (validate state (action_finished a s d)) _ h in
    replay_lem (accept state (action_finished a s d)) events end (λ k. cc k) rest
replay_lem state (run_finished r d ∷ events) end known h =
    let (valid, rest) = >>-eq-ok (validate state (run_finished r d)) _ h in
    let idle : is_active state.active ≡ false = ground (arith, valid) in
    let t =
      replay_lem (accept state (run_finished r d)) events end (λ k. ground (arith, idle, k)) rest in
    rw idle at t

resumable_iff :
    (state : Lifecycle) → (require_resumable state ≡ ok tt) ↔ (is_active state.active ≡ false)
unfolding require_resumable
resumable_iff state = elim (Option-cases state.active) [
  | inl e ↦ (λ h. ground (arith, e), λ h. rw (require_resumable, e) refl)
  | inr (a, e) ↦ (λ h. absurd (ground (arith, e, h)), λ h. absurd (ground (arith, e, h)))
]

-- A journal whose events pass may be recovered exactly when its last event is not the start of an
-- action and, where the run has ended, no bytes trail behind the last frame.
pub validate_recovery_iff :
    (events : List JournalEvent) (end : Lifecycle) (trailing_bytes : ℕ)
    → replay new_lifecycle events ≡ ok end
    → (validate_recovery end trailing_bytes ≡ ok tt) ↔ (
        (is_interrupted false events ≡ false)
        × ((is_ended false events && not (trailing_bytes == 0)) ≡ false))
unfolding validate_recovery
validate_recovery_iff events end trailing_bytes h =
    let (active, finished) = replay_lem new_lifecycle events end (λ k. cc k) h in
    (
      λ v.
          let (ended, resumable) =
            >>-eq-ok (reject_if (end.finished && not (trailing_bytes == 0)) _) _ v in
          (cc (active, (resumable_iff end).0 resumable), ground (arith, ended, finished)),
      λ (idle, ended). rw (rw (← finished) at ended) ((resumable_iff end).1 (cc (active, idle))),
    )
