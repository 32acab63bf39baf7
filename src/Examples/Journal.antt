-- ===== src/Examples/Journal.antt =====
-- The lifecycle at a concrete journal.
use baseline_ops.Prelude.{◌==◌, ◌≡◌, refl, ◌↔◌, true, false, not, ◌&&◌, none, List, [], ◌∷◌, ok}
use baseline_ops.Domain.Results.{succeeded, blocked}
use baseline_ops.Journal.Event.{
  JournalEvent, plan_approved, action_started, action_finished, run_finished,
}
use baseline_ops.Journal.Lifecycle.{Lifecycle, new_lifecycle, replay, validate_recovery}
use baseline_ops.Journal.Lifecycle.Recovery.{is_interrupted, is_ended, validate_recovery_iff}
use baseline_ops.Journal.Lifecycle.Laws.{IsJournal, replay_iff}

abbrev events : List JournalEvent
events =
    plan_approved 1 2
    ∷ action_started "first" 3
    ∷ action_finished "first" succeeded 4
    ∷ action_started "second" 5
    ∷ action_finished "second" blocked 6
    ∷ run_finished 7 8
    ∷ []

replay_iff_example : ((end : Lifecycle) × (replay new_lifecycle events ≡ ok end)) ↔ IsJournal events
replay_iff_example = replay_iff events

-- The journal of a worker that was stopped between two actions, with half a frame behind it.
abbrev stopped_events : List JournalEvent
stopped_events =
    plan_approved 1 2 ∷ action_started "first" 3 ∷ action_finished "first" succeeded 4 ∷ []

abbrev stopped_end : Lifecycle
stopped_end = record {
  approved = true;
  finished = false;
  stopped = false;
  active = none;
  completed = "first" ∷ [];
}

stopped_replay : replay new_lifecycle stopped_events ≡ ok stopped_end
unfolding replay baseline_ops.Prelude.String-discrete
    baseline_ops.Domain.Results.ActionStatus-discrete
stopped_replay = refl

validate_recovery_iff_example : (validate_recovery stopped_end 7 ≡ ok tt) ↔ (
    (is_interrupted false stopped_events ≡ false)
    × ((is_ended false stopped_events && not (7 == 0)) ≡ false))
validate_recovery_iff_example = validate_recovery_iff stopped_events stopped_end 7 stopped_replay
