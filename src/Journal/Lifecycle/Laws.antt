-- ===== src/Journal/Lifecycle/Laws.antt =====
-- The sequences of events that the lifecycle accepts.
use Prim.Native.String.{len}
use baseline_ops.Prelude.{
  ◌≢◌, All, Bool-cases, inl, inr, ℕ, ◌==◌, ◌≡◌, refl, sym, ◌↔◌, String, true, false, same, same_iff,
  String-discrete, none, some, List, [], ◌∷◌, Outcome, ok, ◌>>◌, >>-eq-ok, arith,
}
use baseline_ops.Domain.Results.{
  ActionStatus, ActionStatus-discrete, succeeded, findings, blocked, skipped, failed,
}
use baseline_ops.Journal.Event.{
  JournalEvent, plan_approved, action_started, action_finished, run_finished, JournalError,
}
use baseline_ops.Journal.Lifecycle.{Lifecycle, new_lifecycle, contains, validate, accept, replay}

-- What may follow when no action may start any more: the end of the run.
abbrev pub IsEnd : List JournalEvent → Type 0
IsEnd [] = Unit
IsEnd (run_finished result_id result_digest ∷ []) = Unit
IsEnd (run_finished result_id result_digest ∷ event ∷ events) = ⊥
IsEnd (plan_approved plan_id plan_digest ∷ events) = ⊥
IsEnd (action_started action_id digest ∷ events) = ⊥
IsEnd (action_finished action_id status digest ∷ events) = ⊥

-- The identifier is none of those that are completed.
abbrev pub IsNewAction : (completed : List String) → String → Type 0
IsNewAction completed action_id = All (λ c. c ≢ action_id) completed

contains-IsNewAction :
    (completed : List String) (a : String)
    → (contains completed a ≡ false) ↔ IsNewAction completed a
contains-IsNewAction [] a = (λ _. tt, λ _. refl)
contains-IsNewAction (c ∷ completed) a =
    let rest = contains-IsNewAction completed a in
    let here = same_iff String-discrete c a in
    (
      λ h. (λ e. cc (here.1 e, other_first h), rest.0 (ground (arith, h))),
      λ (differs, news). elim (Bool-cases (same String-discrete c a)) [
        | inl e ↦ absurd (differs (here.0 e))
        | inr e ↦ rw e (rest.1 news)
      ],
    )
  where
    other_first : contains (c ∷ completed) a ≡ false → same String-discrete c a ≡ false
    other_first h = ground (arith, h)

abbrev mutual
  -- What may follow when an action may start: an action that is new, or the end.
  pub IsRun : (completed : List String) → List JournalEvent → Type 0
  IsRun completed [] = Unit
  IsRun completed (action_started action_id digest ∷ events) =
      ((len action_id == 0) ≡ false)
      × IsNewAction completed action_id
      × IsAction completed action_id events
  IsRun completed (run_finished result_id result_digest ∷ events) = events ≡ []
  IsRun completed (plan_approved plan_id plan_digest ∷ events) = ⊥
  IsRun completed (action_finished action_id status digest ∷ events) = ⊥

  -- What may follow the start of an action: its end, and further actions only where it succeeded.
  pub IsAction : (completed : List String) → String → List JournalEvent → Type 0
  IsAction completed active [] = Unit
  IsAction completed active (action_finished action_id succeeded digest ∷ events) =
      (action_id ≡ active) × IsRun (action_id ∷ completed) events
  IsAction completed active (action_finished action_id findings digest ∷ events) =
      (action_id ≡ active) × IsEnd events
  IsAction completed active (action_finished action_id blocked digest ∷ events) =
      (action_id ≡ active) × IsEnd events
  IsAction completed active (action_finished action_id skipped digest ∷ events) =
      (action_id ≡ active) × IsEnd events
  IsAction completed active (action_finished action_id failed digest ∷ events) =
      (action_id ≡ active) × IsEnd events
  IsAction completed active (action_started action_id digest ∷ events) = ⊥
  IsAction completed active (run_finished result_id result_digest ∷ events) = ⊥
  IsAction completed active (plan_approved plan_id plan_digest ∷ events) = ⊥

-- A journal begins with its one approval. It may be cut short at any event: every `[]` is allowed.
abbrev pub IsJournal : List JournalEvent → Type 0
IsJournal [] = Unit
IsJournal (plan_approved plan_id plan_digest ∷ events) = IsRun [] events
IsJournal (action_started action_id digest ∷ events) = ⊥
IsJournal (action_finished action_id status digest ∷ events) = ⊥
IsJournal (run_finished result_id result_digest ∷ events) = ⊥

abbrev Accepts : Lifecycle → List JournalEvent → Type 0
Accepts state events = (end : Lifecycle) × (replay state events ≡ ok end)

abbrev running : List String → Lifecycle
running completed = record {
  approved = true;
  finished = false;
  stopped = false;
  active = none;
  completed = completed;
}

abbrev acting : List String → String → Lifecycle
acting completed action_id = record {
  approved = true;
  finished = false;
  stopped = false;
  active = some action_id;
  completed = completed;
}

abbrev halted : List String → Lifecycle
halted completed = record {
  approved = true;
  finished = false;
  stopped = true;
  active = none;
  completed = completed;
}

finished_end :
    (state : Lifecycle) (events : List JournalEvent)
    → state.finished ≡ true
    → Accepts state events
    → events ≡ []
unfolding replay
finished_end state [] f h = refl
finished_end state (event ∷ events) f (end, h) = absurd (ground (arith, f, h))

halted_sound :
    (completed : List String) (events : List JournalEvent)
    → Accepts (halted completed) events
    → IsEnd events
unfolding replay
halted_sound completed [] h = tt
halted_sound completed (run_finished r d ∷ []) h = tt
halted_sound completed (run_finished r d ∷ event ∷ events) (end, h) = absurd (ground (arith, h))
halted_sound completed (plan_approved p d ∷ events) (end, h) = absurd (ground (arith, h))
halted_sound completed (action_started a d ∷ events) (end, h) = absurd (ground (arith, h))
halted_sound completed (action_finished a s d ∷ events) (end, h) = absurd (ground (arith, h))

halted_complete :
    (completed : List String) (events : List JournalEvent)
    → IsEnd events
    → Accepts (halted completed) events
unfolding replay
halted_complete completed [] h = (halted completed, refl)
halted_complete completed (run_finished r d ∷ []) h =
    (accept (halted completed) (run_finished r d), refl)
halted_complete completed (run_finished r d ∷ event ∷ events) h = absurd h
halted_complete completed (plan_approved p d ∷ events) h = absurd h
halted_complete completed (action_started a d ∷ events) h = absurd h
halted_complete completed (action_finished a s d ∷ events) h = absurd h

finish_lem :
    (completed : List String) (active a : String) (status : ActionStatus) (d : ℕ)
    (rest : Outcome JournalError Lifecycle) {end : Lifecycle}
    → (validate (acting completed active) (action_finished a status d) >> rest) ≡ ok end
    → (a ≡ active) × (rest ≡ ok end)
unfolding validate
finish_lem completed active a status d rest h =
    let (valid, h') =
      >>-eq-ok (validate (acting completed active) (action_finished a status d)) rest h in
    let named : same String-discrete active a ≡ true = ground (arith, valid) in
    (sym ((same_iff String-discrete active a).0 named), h')

mutual
  unfolding replay ActionStatus-discrete

  running_sound :
      (completed : List String) (events : List JournalEvent)
      → Accepts (running completed) events
      → IsRun completed events
  running_sound completed [] h = tt
  running_sound completed (action_started a d ∷ events) (end, h) =
      let (valid, rest) = >>-eq-ok (validate (running completed) (action_started a d)) _ h in
      let nonempty : (len a == 0) ≡ false = ground (arith, valid) in
      let new : contains completed a ≡ false = ground (arith, valid) in
      (
        nonempty,
        (contains-IsNewAction completed a).0 new,
        acting_sound completed a events (end, rest),
      )
  running_sound completed (run_finished r d ∷ events) (end, h) =
      finished_end (accept (running completed) (run_finished r d)) events refl (end, h)
  running_sound completed (plan_approved p d ∷ events) (end, h) = absurd (ground (arith, h))
  running_sound completed (action_finished a s d ∷ events) (end, h) = absurd (ground (arith, h))

  acting_sound :
      (completed : List String) (active : String) (events : List JournalEvent)
      → Accepts (acting completed active) events
      → IsAction completed active events
  acting_sound completed active [] h = tt
  acting_sound completed active (action_finished a succeeded d ∷ events) (end, h) =
      let (e, rest) = finish_lem completed active a succeeded d _ h in
      (e, running_sound (a ∷ completed) events (end, rest))
  acting_sound completed active (action_finished a findings d ∷ events) (end, h) =
      let (e, rest) = finish_lem completed active a findings d _ h in
      (e, halted_sound (a ∷ completed) events (end, rest))
  acting_sound completed active (action_finished a blocked d ∷ events) (end, h) =
      let (e, rest) = finish_lem completed active a blocked d _ h in
      (e, halted_sound (a ∷ completed) events (end, rest))
  acting_sound completed active (action_finished a skipped d ∷ events) (end, h) =
      let (e, rest) = finish_lem completed active a skipped d _ h in
      (e, halted_sound (a ∷ completed) events (end, rest))
  acting_sound completed active (action_finished a failed d ∷ events) (end, h) =
      let (e, rest) = finish_lem completed active a failed d _ h in
      (e, halted_sound (a ∷ completed) events (end, rest))
  acting_sound completed active (action_started a d ∷ events) (end, h) = absurd (ground (arith, h))
  acting_sound completed active (run_finished r d ∷ events) (end, h) = absurd (ground (arith, h))
  acting_sound completed active (plan_approved p d ∷ events) (end, h) = absurd (ground (arith, h))

mutual
  unfolding replay ActionStatus-discrete

  running_complete :
      (completed : List String) (events : List JournalEvent)
      → IsRun completed events
      → Accepts (running completed) events
  running_complete completed [] h = (running completed, refl)
  running_complete completed (action_started a d ∷ events) (nonempty, new, rest) =
      let (end, run) = acting_complete completed a events rest in
      (end, rw (nonempty, (contains-IsNewAction completed a).1 new) run)
  running_complete completed (run_finished r d ∷ events) h =
      (accept (running completed) (run_finished r d), rw h refl)
  running_complete completed (plan_approved p d ∷ events) h = absurd h
  running_complete completed (action_finished a s d ∷ events) h = absurd h

  acting_complete :
      (completed : List String) (active : String) (events : List JournalEvent)
      → IsAction completed active events
      → Accepts (acting completed active) events
  acting_complete completed active [] h = (acting completed active, refl)
  acting_complete completed active (action_finished a succeeded d ∷ events) (e, h) =
      let (end, run) = running_complete (a ∷ completed) events h in
      (end, rw ((same_iff String-discrete active a).1 (sym e)) run)
  acting_complete completed active (action_finished a findings d ∷ events) (e, h) =
      let (end, run) = halted_complete (a ∷ completed) events h in
      (end, rw ((same_iff String-discrete active a).1 (sym e)) run)
  acting_complete completed active (action_finished a blocked d ∷ events) (e, h) =
      let (end, run) = halted_complete (a ∷ completed) events h in
      (end, rw ((same_iff String-discrete active a).1 (sym e)) run)
  acting_complete completed active (action_finished a skipped d ∷ events) (e, h) =
      let (end, run) = halted_complete (a ∷ completed) events h in
      (end, rw ((same_iff String-discrete active a).1 (sym e)) run)
  acting_complete completed active (action_finished a failed d ∷ events) (e, h) =
      let (end, run) = halted_complete (a ∷ completed) events h in
      (end, rw ((same_iff String-discrete active a).1 (sym e)) run)
  acting_complete completed active (action_started a d ∷ events) h = absurd h
  acting_complete completed active (run_finished r d ∷ events) h = absurd h
  acting_complete completed active (plan_approved p d ∷ events) h = absurd h

-- A list of events passes the lifecycle exactly when it is a journal that may have been cut short:
-- empty, or one approval and then actions one after the other, each new, named and finished under
-- its own name, except that the last one may not be finished yet, a further one only behind a
-- success, and then at most the end of the run, which follows no unfinished action and behind which
-- nothing stands.
pub replay_iff :
    (events : List JournalEvent)
    → ((end : Lifecycle) × (replay new_lifecycle events ≡ ok end)) ↔ IsJournal events
unfolding replay
replay_iff [] = (λ h. tt, λ h. (new_lifecycle, refl))
replay_iff (plan_approved p d ∷ events) =
    (λ h. running_sound [] events h, λ h. running_complete [] events h)
replay_iff (action_started a d ∷ events) = (λ (end, h). absurd (ground (arith, h)), λ h. absurd h)
replay_iff (action_finished a s d ∷ events) =
    (λ (end, h). absurd (ground (arith, h)), λ h. absurd h)
replay_iff (run_finished r d ∷ events) = (λ (end, h). absurd (ground (arith, h)), λ h. absurd h)
