-- ===== src/Orchestrator/Ranks.antt =====
-- The rank of the reboot that is aggregated.
use baseline_ops.Prelude.{
  ℕ, ◌≤◌, ◌≡◌, refl, ltb, Bool, true, false, none, some, List, [], ◌∷◌, All, any, ◌⊎◌, inl, inr,
  arith, Bool-cases, Option-cases, ◌==◌, ◌&&◌, ap, sym, subst,
}
use baseline_ops.Domain.Primitives.{RebootRequirement, not_required}
use baseline_ops.Domain.Action.{PlannedAction, Plan}
use baseline_ops.Domain.Results.{ActionStatus, ActionResult}
use baseline_ops.Scheduler.Run.{find_action}
use baseline_ops.Orchestrator.{
  reboot_rank, may_have_executed, max_reboot, executed_reboots, executed_only, aggregate_reboot,
  aggregate_disposition,
}

-- The greatest from the greatest so far on.
record Greatest (start : RebootRequirement) (xs : List RebootRequirement) : Type 0 where
  greatest : RebootRequirement
  run : max_reboot (some start) xs ≡ some greatest
  above_start : reboot_rank start ≤ reboot_rank greatest
  above : All (λ x. reboot_rank x ≤ reboot_rank greatest) xs
  attained : (greatest ≡ start) ⊎ (any (λ x. reboot_rank x == reboot_rank greatest) xs ≡ true)

max_reboot-Greatest : (start : RebootRequirement) (xs : List RebootRequirement) → Greatest start xs
unfolding max_reboot
max_reboot-Greatest start [] = record {
  greatest = start;
  run = refl;
  above_start = omega arith;
  above = tt;
  attained = inl refl;
}
max_reboot-Greatest start (x ∷ xs) = elim (Bool-cases (ltb (reboot_rank x) (reboot_rank start))) [
  | inl less ↦
      let g = max_reboot-Greatest start xs in
      record {
        greatest = g.greatest;
        run = rw less g.run;
        above_start = g.above_start;
        above = (ground (arith, less, g.above_start), g.above);
        attained = elim g.attained [ inl e ↦ inl e | inr e ↦ inr (ground (arith, e)) ];
      }
  | inr more ↦
      let g = max_reboot-Greatest x xs in
      record {
        greatest = g.greatest;
        run = rw more g.run;
        above_start = ground (arith, more, g.above_start);
        above = (g.above_start, g.above);
        attained = elim g.attained [
          | inl e ↦ inr (rw e (ground arith))
          | inr e ↦ inr (ground (arith, e))
        ];
      }
]

-- An executed action with a reboot of a rank.
abbrev has_rank : ℕ → List (ActionStatus × RebootRequirement) → Bool
has_rank rank actions =
    any
      (λ ((status, reboot) : ActionStatus × RebootRequirement).
        may_have_executed status && reboot_rank reboot == rank)
      actions

abbrev AreBelow : ℕ → List (ActionStatus × RebootRequirement) → Type 0
AreBelow rank actions =
    All
      (λ ((status, reboot) : ActionStatus × RebootRequirement).
        may_have_executed status ≡ true → reboot_rank reboot ≤ rank)
      actions

AreBelow-of_executed :
    (rank : ℕ) (actions : List (ActionStatus × RebootRequirement))
    → All (λ x. reboot_rank x ≤ rank) (executed_only actions)
    → AreBelow rank actions
unfolding executed_only
AreBelow-of_executed rank [] h = tt
AreBelow-of_executed rank ((status, reboot) ∷ actions) h =
    elim (Bool-cases (may_have_executed status)) [
      | inl e ↦ let h' = rw e at h in (λ _. h'.0, AreBelow-of_executed rank actions h'.1)
      | inr n ↦ (λ e. cc (e, n), AreBelow-of_executed rank actions (rw n at h))
    ]

has_rank_of_executed :
    (rank : ℕ) (actions : List (ActionStatus × RebootRequirement))
    → any (λ x. reboot_rank x == rank) (executed_only actions) ≡ true
    → has_rank rank actions ≡ true
unfolding executed_only
has_rank_of_executed rank [] h = h
has_rank_of_executed rank ((status, reboot) ∷ actions) h =
    elim (Bool-cases (may_have_executed status)) [
      | inl e ↦ ground (arith, e, h, has_rank_of_executed rank actions)
      | inr n ↦ ground (arith, n, h, has_rank_of_executed rank actions)
    ]

aggregate_lem :
    (actions : List (ActionStatus × RebootRequirement)) (xs : List RebootRequirement)
    → executed_only actions ≡ xs
    → AreBelow (reboot_rank (aggregate_reboot actions)) actions
      × ((aggregate_reboot actions ≡ not_required)
          ⊎ (has_rank (reboot_rank (aggregate_reboot actions)) actions ≡ true))
unfolding aggregate_reboot max_reboot
aggregate_lem actions [] e = (AreBelow-of_executed _ actions (rw e tt), inl (ground (arith, e)))
aggregate_lem actions (x ∷ xs) e =
    let g = max_reboot-Greatest x xs in
    let same : aggregate_reboot actions ≡ g.greatest = ground (arith, e, g.run) in
    let raised : any (λ y. reboot_rank y == reboot_rank g.greatest) (x ∷ xs) ≡ true =
      elim g.attained [ inl f ↦ ground (arith, ap reboot_rank f) | inr f ↦ ground (arith, f) ] in
    subst
      (λ m.
        AreBelow (reboot_rank m) actions
        × ((m ≡ not_required) ⊎ (has_rank (reboot_rank m) actions ≡ true)))
      (sym same)
      (
        AreBelow-of_executed (reboot_rank g.greatest) actions (rw e (g.above_start, g.above)),
        inr (has_rank_of_executed (reboot_rank g.greatest) actions (rw e raised)),
      )

-- The result is of an action of the plan that may have run and has a reboot of the rank.
abbrev pub raises : Plan → ℕ → ActionResult → Bool
raises plan rank result = elim (find_action result.action_id plan.actions) [
  | none ↦ false
  | some action ↦ may_have_executed result.status && reboot_rank action.reboot == rank
]

abbrev pub IsCovered : Plan → ℕ → ActionResult → Type 0
IsCovered plan rank result =
    (action : PlannedAction)
    → find_action result.action_id plan.actions ≡ some action
    → may_have_executed result.status ≡ true
    → reboot_rank action.reboot ≤ rank

IsCovered-of :
    (plan : Plan) (rank : ℕ) (results : List ActionResult)
    → AreBelow rank (executed_reboots plan results)
    → All (IsCovered plan rank) results
unfolding executed_reboots
IsCovered-of plan rank [] h = tt
IsCovered-of plan rank (r ∷ results) h =
    elim (Option-cases (find_action r.action_id plan.actions)) [
      | inl e ↦
          (λ action k m. cc (e, k), IsCovered-of plan rank results (rw (e, executed_reboots) at h))
      | inr (a, e) ↦
          let h' = rw (e, executed_reboots) at h in
          (
            λ action k m.
                ground (arith, e, k, ap reboot_rank (reboot_same a action (cc (e, k))), h'.0 m),
            IsCovered-of plan rank results h'.1,
          )
    ]
  where
    reboot_same : (a b : PlannedAction) → a ≡ b → a.reboot ≡ b.reboot
    reboot_same a b e = cc

raises_of :
    (plan : Plan) (rank : ℕ) (results : List ActionResult)
    → has_rank rank (executed_reboots plan results) ≡ true
    → any (raises plan rank) results ≡ true
unfolding executed_reboots
raises_of plan rank [] h = h
raises_of plan rank (r ∷ results) h = elim (Option-cases (find_action r.action_id plan.actions)) [
  | inl e ↦ ground (arith, e, h, raises_of plan rank results)
  | inr (a, e) ↦ ground (arith, e, h, raises_of plan rank results)
]

pub aggregate_disposition-covers :
    (plan : Plan) (results : List ActionResult) (cancelled : Bool)
    → (let reboot = (aggregate_disposition plan results cancelled).reboot in
        All (IsCovered plan (reboot_rank reboot)) results
        × ((reboot ≡ not_required) ⊎ (any (raises plan (reboot_rank reboot)) results ≡ true)))
unfolding aggregate_disposition
aggregate_disposition-covers plan results cancelled =
    let (below, attained) = aggregate_lem (executed_reboots plan results) _ refl in
    (
      IsCovered-of plan _ results below,
      elim attained [ inl e ↦ inl e | inr e ↦ inr (raises_of plan _ results e) ],
    )
