-- ===== src/NativeExecution/Monitor.antt =====
-- A port that passes every call on and keeps how far the action has come: what was persisted,
-- journalled and mutated, and what was observed last.
use baseline_ops.Prelude.{◌≡◌, String, Bool, true, false, Option, none, some, Outcome, ok, err}
use baseline_ops.Domain.Ids.{ActionId}
use baseline_ops.Domain.Results.{
  ActionStatus, succeeded, findings, blocked, skipped, failed, ActionReceipt,
}
use baseline_ops.Journal.Event.{
  JournalEvent, plan_approved, action_started, action_finished, run_finished,
}
use baseline_ops.WindowsUpdate.{WindowsUpdateObservation, WindowsUpdatePlan}
use baseline_ops.WindowsUpdate.{expected_values}
use baseline_ops.WindowsUpdate.Applied.{HasValues}
use baseline_ops.NativeExecution.{ActionFailure, ActionOutcome, ActionPort, Rendering}
use baseline_ops.NativeExecution.Checks.{expected_post_state}

-- `unclear_start` and `unclear_finish` stand behind an append that failed, and may yet be in the
-- journal; the Booleans say whether a mutation was attempted. `broken` stands behind a call that
-- comes out of turn: a recovery that is persisted twice, an action that starts before its recovery
-- is persisted, a mutation or an end before the action has started or behind its end.
pub data Stage : Type 0 where
  idle recovered unclear_start broken : Stage
  started unclear_finish : Bool → Stage
  finished : Bool → ActionStatus → Stage

pub record Monitored (W : Type 0) : Type 0 where
  pub world : W
  pub stage : Stage
  pub last : Option WindowsUpdateObservation

abbrev pub after_recovery : Stage → Outcome String (Unit {0}) → Stage
after_recovery idle (ok _) = recovered
after_recovery idle (err e) = idle
after_recovery recovered r = broken
after_recovery unclear_start r = broken
after_recovery broken r = broken
after_recovery (started m) r = broken
after_recovery (unclear_finish m) r = broken
after_recovery (finished m status) r = broken

abbrev pub after_start : Stage → Outcome String (Unit {0}) → Stage
after_start recovered (ok _) = started false
after_start recovered (err e) = unclear_start
after_start idle r = broken
after_start unclear_start r = broken
after_start broken r = broken
after_start (started m) r = broken
after_start (unclear_finish m) r = broken
after_start (finished m status) r = broken

abbrev pub after_finish : ActionStatus → Stage → Outcome String (Unit {0}) → Stage
after_finish status (started m) (ok _) = finished m status
after_finish status (started m) (err e) = unclear_finish m
after_finish status idle r = broken
after_finish status recovered r = broken
after_finish status unclear_start r = broken
after_finish status broken r = broken
after_finish status (unclear_finish m) r = broken
after_finish status (finished m s) r = broken

abbrev pub after_append : JournalEvent → Stage → Outcome String (Unit {0}) → Stage
after_append (plan_approved plan_id plan_digest) stage r = broken
after_append (action_started action_id digest) stage r = after_start stage r
after_append (action_finished action_id status digest) stage r = after_finish status stage r
after_append (run_finished result_id result_digest) stage r = broken

abbrev pub after_mutation : Stage → Stage
after_mutation (started m) = started true
after_mutation idle = broken
after_mutation recovered = broken
after_mutation unclear_start = broken
after_mutation broken = broken
after_mutation (unclear_finish m) = broken
after_mutation (finished m status) = broken

abbrev pub seen :
    Option WindowsUpdateObservation
    → Outcome String WindowsUpdateObservation
    → Option WindowsUpdateObservation
seen last (ok observation) = some observation
seen last (err e) = last

abbrev pub watch : {W : Type 0} → W → Monitored W
watch w = record { world = w; stage = idle; last = none }

abbrev pub monitored : {W : Type 0} → ActionPort W → ActionPort (Monitored W)
monitored port = record {
  observe = λ s.
      let r = port.observe s.world in
      (r.0, record { world = r.1; stage = s.stage; last = seen s.last r.0 });
  persist_recovery = λ id pre post s.
      let r = port.persist_recovery id pre post s.world in
      (r.0, record { world = r.1; stage = after_recovery s.stage r.0; last = s.last });
  append = λ event s.
      let r = port.append event s.world in
      (r.0, record { world = r.1; stage = after_append event s.stage r.0; last = s.last });
  mutate = λ field expected desired s.
      let r = port.mutate field expected desired s.world in
      (r.0, record { world = r.1; stage = after_mutation s.stage; last = s.last });
}

abbrev pub Fails : Bool → ActionOutcome → Type 0
Fails attempted outcome =
    (f : ActionFailure) × (outcome.failure ≡ some f) × (f.mutation_attempted ≡ attempted)

-- Nothing was started: the run may be finished.
abbrev pub IsUnstarted : ActionOutcome → Type 0
IsUnstarted outcome =
    (outcome.receipt ≡ none)
    × Fails false outcome
    × (outcome.reboot_possible ≡ false)
    × (outcome.may_finish_run ≡ true)

-- The journal may hold a start without an end: the run must not be finished.
abbrev pub IsUnmatched : Bool → ActionOutcome → Type 0
IsUnmatched attempted outcome =
    (outcome.receipt ≡ none)
    × Fails attempted outcome
    × (outcome.reboot_possible ≡ attempted)
    × (outcome.may_finish_run ≡ false)

module _ (rendering : Rendering) (action_id : ActionId) (plan : WindowsUpdatePlan) where
  -- The status beside the failure and the state that was observed last.
  abbrev pub IsTerminal : ActionStatus → Bool → ActionOutcome → WindowsUpdateObservation → Type 0
  IsTerminal succeeded attempted outcome post =
      (outcome.failure ≡ none)
      × (post ≡ expected_post_state plan)
      × HasValues post.values (expected_values plan.desired)
  IsTerminal failed attempted outcome post = Fails attempted outcome
  IsTerminal findings attempted outcome post = ⊥
  IsTerminal blocked attempted outcome post = ⊥
  IsTerminal skipped attempted outcome post = ⊥

  -- The receipt binds the action to the planned state and to the one that was observed last.
  abbrev pub IsReceipt : ActionReceipt → ActionStatus → WindowsUpdateObservation → Type 0
  IsReceipt receipt status post =
      (receipt.action_id ≡ action_id)
      × (receipt.status ≡ status)
      × (rendering.observation_digest plan.observation ≡ ok receipt.pre_state_digest)
      × (rendering.observation_digest post ≡ ok receipt.post_state_digest)

  abbrev pub IsFinished :
      Bool → ActionStatus → ActionOutcome → Option WindowsUpdateObservation → Type 0
  IsFinished attempted status outcome last =
      (receipt : ActionReceipt) × (post : WindowsUpdateObservation) × (outcome.receipt
        ≡ some receipt)
      × (last ≡ some post)
      × IsReceipt receipt status post
      × IsTerminal status attempted outcome post
      × (outcome.reboot_possible ≡ attempted)
      × (outcome.may_finish_run ≡ true)

  -- An outcome says what was done.
  abbrev pub Agrees : ActionOutcome → Stage → Option WindowsUpdateObservation → Type 0
  Agrees outcome idle last = IsUnstarted outcome
  Agrees outcome recovered last = IsUnstarted outcome
  Agrees outcome unclear_start last = IsUnmatched false outcome
  Agrees outcome broken last = ⊥
  Agrees outcome (started attempted) last = IsUnmatched attempted outcome
  Agrees outcome (unclear_finish attempted) last = IsUnmatched attempted outcome
  Agrees outcome (finished attempted status) last = IsFinished attempted status outcome last
