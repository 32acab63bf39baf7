-- ===== src/Orchestrator/Laws.antt =====
-- The reboot of a disposition is the highest one of the actions that may have run.
use baseline_ops.Prelude.{
  ◌≤◌, ◌≡◌, ◌≢◌, ◌↔◌, refl, Bool, true, some, List, [], ◌∷◌, All, any, ◌⊎◌, inl, inr, arith,
  Bool-cases, Option-cases,
}
use baseline_ops.Domain.Primitives.{RebootRequirement, not_required, recommended, required}
use baseline_ops.Domain.Action.{PlannedAction, Plan}
use baseline_ops.Domain.Results.{
  ActionStatus, ActionResult, succeeded, findings, blocked, skipped, failed,
}
use baseline_ops.Scheduler.Run.{find_action}
use baseline_ops.Orchestrator.{reboot_rank, may_have_executed, aggregate_disposition}
use baseline_ops.Orchestrator.Ranks.{raises, IsCovered, aggregate_disposition-covers}

-- A reboot that another one makes up for: one that is required for every one, one that is
-- recommended for all but that.
abbrev pub IsAtMost : RebootRequirement → RebootRequirement → Type 0
IsAtMost not_required b = Unit
IsAtMost recommended not_required = ⊥
IsAtMost recommended recommended = Unit
IsAtMost recommended required = Unit
IsAtMost required not_required = ⊥
IsAtMost required recommended = ⊥
IsAtMost required required = Unit

IsAtMost-of : (a b : RebootRequirement) → reboot_rank a ≤ reboot_rank b → IsAtMost a b
IsAtMost-of not_required b le = tt
IsAtMost-of recommended not_required le = absurd (omega (arith, le))
IsAtMost-of recommended recommended le = tt
IsAtMost-of recommended required le = tt
IsAtMost-of required not_required le = absurd (omega (arith, le))
IsAtMost-of required recommended le = absurd (omega (arith, le))
IsAtMost-of required required le = tt

reboot_rank-inj : (a b : RebootRequirement) → reboot_rank a ≡ reboot_rank b → a ≡ b
reboot_rank-inj not_required not_required e = refl
reboot_rank-inj not_required recommended e = absurd (omega (arith, e))
reboot_rank-inj not_required required e = absurd (omega (arith, e))
reboot_rank-inj recommended not_required e = absurd (omega (arith, e))
reboot_rank-inj recommended recommended e = refl
reboot_rank-inj recommended required e = absurd (omega (arith, e))
reboot_rank-inj required not_required e = absurd (omega (arith, e))
reboot_rank-inj required recommended e = absurd (omega (arith, e))
reboot_rank-inj required required e = refl

-- Neither a skip nor a block.
abbrev pub IsExecuted : ActionStatus → Type 0
IsExecuted status = (status ≢ skipped) × (status ≢ blocked)

may_have_executed_iff :
    (status : ActionStatus) → (may_have_executed status ≡ true) ↔ IsExecuted status
may_have_executed_iff succeeded = (λ _. (λ e. cc, λ e. cc), λ _. refl)
may_have_executed_iff findings = (λ _. (λ e. cc, λ e. cc), λ _. refl)
may_have_executed_iff failed = (λ _. (λ e. cc, λ e. cc), λ _. refl)
may_have_executed_iff blocked = (λ e. absurd (cc e), λ h. absurd (h.1 refl))
may_have_executed_iff skipped = (λ e. absurd (cc e), λ h. absurd (h.0 refl))

-- The result is of an action of the plan with the reboot, and it is neither a skip nor a block.
abbrev pub Asks : Plan → RebootRequirement → ActionResult → Type 0
Asks plan reboot result =
    (action : PlannedAction) × (find_action result.action_id plan.actions ≡ some action)
    × IsExecuted result.status
    × (action.reboot ≡ reboot)

abbrev pub Some : (ActionResult → Type 0) → List ActionResult → Type 0
Some P [] = ⊥
Some P (r ∷ results) = P r ⊎ Some P results

Asks-of :
    (plan : Plan) (reboot : RebootRequirement) (r : ActionResult)
    → raises plan (reboot_rank reboot) r ≡ true
    → Asks plan reboot r
Asks-of plan reboot r h = elim (Option-cases (find_action r.action_id plan.actions)) [
  | inl e ↦ absurd (ground (arith, e, h))
  | inr (action, e) ↦
      let executed : may_have_executed r.status ≡ true = ground (arith, e, h) in
      let rank : reboot_rank action.reboot ≡ reboot_rank reboot = ground (arith, e, h) in
      (
        action,
        e,
        (may_have_executed_iff r.status).0 executed,
        reboot_rank-inj action.reboot reboot rank,
      )
]

Some-Asks :
    (plan : Plan) (reboot : RebootRequirement) (results : List ActionResult)
    → any (raises plan (reboot_rank reboot)) results ≡ true
    → Some (Asks plan reboot) results
Some-Asks plan reboot [] h = absurd (cc h)
Some-Asks plan reboot (r ∷ results) h = elim (Bool-cases (raises plan (reboot_rank reboot) r)) [
  | inl e ↦ inl (Asks-of plan reboot r e)
  | inr n ↦ inr (Some-Asks plan reboot results (rw n at h))
]

-- Every reboot that is asked for is made up for.
abbrev pub IsEnough : Plan → RebootRequirement → ActionResult → Type 0
IsEnough plan reboot result =
    (action : PlannedAction)
    → find_action result.action_id plan.actions ≡ some action
    → IsExecuted result.status
    → IsAtMost action.reboot reboot

IsEnough-of :
    (plan : Plan) (reboot : RebootRequirement) (results : List ActionResult)
    → All (IsCovered plan (reboot_rank reboot)) results
    → All (IsEnough plan reboot) results
IsEnough-of plan reboot [] h = tt
IsEnough-of plan reboot (r ∷ results) (here, rest) = (
  λ action e x.
      IsAtMost-of action.reboot reboot (here action e ((may_have_executed_iff r.status).1 x)),
  IsEnough-of plan reboot results rest,
)

-- The reboot of a disposition is at least that of every action of the plan with a result that is
-- neither a skip nor a block, where a required reboot is above a recommended one and that above
-- none; and it is that of such an action unless no reboot is required.
pub aggregate_disposition_lem :
    (plan : Plan) (results : List ActionResult) (cancelled : Bool)
    → All (IsEnough plan (aggregate_disposition plan results cancelled).reboot) results
      × (((aggregate_disposition plan results cancelled).reboot ≡ not_required)
          ⊎ Some (Asks plan (aggregate_disposition plan results cancelled).reboot) results)
aggregate_disposition_lem plan results cancelled =
    let reboot = (aggregate_disposition plan results cancelled).reboot in
    let (covers, attained) = aggregate_disposition-covers plan results cancelled in
    (
      IsEnough-of plan reboot results covers,
      elim attained [ inl e ↦ inl e | inr e ↦ inr (Some-Asks plan reboot results e) ],
    )
