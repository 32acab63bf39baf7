-- ===== src/Orchestrator.antt =====
-- rust/crates/baselineops-engine/src/orchestrator.rs: the disposition of an execution.
pub mod Ranks
pub mod Laws
use baseline_ops.Prelude.{
  ℕ, ltb, Bool, true, false, if◌then◌else◌, Option, none, some, List, [], ◌∷◌,
}
use baseline_ops.Domain.Primitives.{RebootRequirement, not_required, recommended, required}
use baseline_ops.Domain.Action.{PlannedAction, Plan}
use baseline_ops.Domain.Results.{
  ActionStatus, ActionResult, succeeded, findings, blocked, skipped, failed,
}
use baseline_ops.Scheduler.Run.{find_action}

pub record ExecutionDisposition : Type 0 where
  pub cancelled : Bool
  pub reboot : RebootRequirement

abbrev pub reboot_rank : RebootRequirement → ℕ
reboot_rank not_required = 0
reboot_rank recommended = 1
reboot_rank required = 2

-- `matches!(status, Skipped | Blocked)`, negated
abbrev pub may_have_executed : ActionStatus → Bool
may_have_executed skipped = false
may_have_executed blocked = false
may_have_executed succeeded = true
may_have_executed findings = true
may_have_executed failed = true

-- `.max_by_key(reboot_rank)`, which takes the last of the greatest, from the greatest so far on.
unfoldable pub max_reboot :
    Option RebootRequirement → List RebootRequirement → Option RebootRequirement
max_reboot greatest [] = greatest
max_reboot none (reboot ∷ rest) = max_reboot (some reboot) rest
max_reboot (some greatest) (reboot ∷ rest) =
    max_reboot (some (if ltb (reboot_rank reboot) (reboot_rank greatest) then greatest else reboot))
      rest

-- the statuses and reboots that `aggregate_disposition` collects
unfoldable pub executed_reboots : Plan → List ActionResult → List (ActionStatus × RebootRequirement)
unfolding find_action
executed_reboots plan [] = []
executed_reboots plan (result ∷ actions) =
    let rest = executed_reboots plan actions in
    elim (find_action result.action_id plan.actions) [
      | none ↦ rest
      | some action ↦ (result.status, action.reboot) ∷ rest
    ]

unfoldable pub executed_only : List (ActionStatus × RebootRequirement) → List RebootRequirement
executed_only [] = []
executed_only ((status, reboot) ∷ actions) =
    let rest = executed_only actions in if may_have_executed status then reboot ∷ rest else rest

unfoldable pub aggregate_reboot : List (ActionStatus × RebootRequirement) → RebootRequirement
unfolding max_reboot executed_only
aggregate_reboot actions = elim (max_reboot none (executed_only actions)) [
  | none ↦ not_required
  | some reboot ↦ reboot
]

unfoldable pub aggregate_disposition :
    Plan → List ActionResult → (cancelled : Bool) → ExecutionDisposition
unfolding aggregate_reboot executed_reboots
aggregate_disposition plan actions cancelled = record {
  cancelled = cancelled;
  reboot = aggregate_reboot (executed_reboots plan actions);
}
