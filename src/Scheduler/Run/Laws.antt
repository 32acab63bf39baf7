-- ===== src/Scheduler/Run/Laws.antt =====
-- What `execute_actions` promises.
use baseline_ops.Prelude.{
  ◌≡◌, refl, sym, ap, ◌∙◌, subst, inl, inr, ◌==◌, true, some, List, [], ◌∷◌, map, has, count,
  has-count, Outcome, ok, err, Holds, arith, Bool-cases, Option-cases,
}
use baseline_ops.Domain.Ids.{ActionId}
use baseline_ops.Domain.Primitives.{Operation}
use baseline_ops.Domain.Action.{PlannedAction}
use baseline_ops.Scheduler.Index.{SchedulerError, ids_of}
use baseline_ops.Scheduler.Order.{topological_order}
use baseline_ops.Scheduler.Order.Laws.{topological_order-sorts}
use baseline_ops.Scheduler.State.{
  ExecutionPolicy, ExecutionState, ExecutionSummary, Environment, new_state, finish,
}
use baseline_ops.Scheduler.Run.{
  execute_action, execute_order, execute_from, execute_actions, find_action,
}
use baseline_ops.Scheduler.Run.Calls.{Logged, logged, OnlyLastMayFail, execute_from-OnlyLastMayFail}
use baseline_ops.Scheduler.Run.Results.{StopsAfterFailure, Ran, execute_order-Ran}
use baseline_ops.Scheduler.Run.Backed.{AreBacked, execute_order-RanBacked, served_order}

module _ {W : Type 0} (env : Environment W) (policy : ExecutionPolicy)
    (actions : List PlannedAction) where
  find_action_total :
      (id : ActionId) (items : List PlannedAction)
      → has id (ids_of items) ≡ true
      → (a : PlannedAction) × (find_action id items ≡ some a)
  unfolding find_action
  find_action_total id [] h = absurd (cc)
  find_action_total id (a ∷ items) h = elim (Bool-cases (id == a.id)) [
    | inl e ↦ (a, rw e)
    | inr n ↦ let (b, k) = find_action_total id items (ground arith) in (b, rw n k)
  ]

  execute_order_total :
      (order : List ActionId) (state : ExecutionState) (w : W)
      → ((x : ActionId) → has x order ≡ true → has x (ids_of actions) ≡ true)
      → Holds (execute_order env actions policy order state w)
  unfolding execute_order
  execute_order_total [] state w known = ((state, w), refl)
  execute_order_total (id ∷ order) state w known =
      let (a, e) = find_action_total id actions (known id (ground arith)) in
      let next = execute_action env a policy state w in
      let (end, run) = execute_order_total order next.0 next.1 (λ x h. known x (ground arith)) in
      (end, rw (e, execute_order) run)

  has_of_counts :
      (order : List ActionId)
      → ((x : ActionId) → count x order ≡ count x (ids_of actions))
      → (x : ActionId) → has x order ≡ true
      → has x (ids_of actions) ≡ true
  has_of_counts order same x h =
      ground (arith, same x, has-count x order, has-count x (ids_of actions))

  execute_from_total :
      (r : Outcome SchedulerError (List ActionId)) (w : W)
      → topological_order actions ≡ r
      → Holds (execute_from env actions policy r w)
  unfolding execute_from
  execute_from_total (err error) w h = ((err error, w), refl)
  execute_from_total (ok order) w h =
      let ((state, w'), run) =
        execute_order_total order new_state w
          (has_of_counts order (topological_order-sorts actions order h).0) in
      ((ok (finish state), w'), rw (run, execute_from))

  -- Whatever the runner, the clock and the cancellation do, the execution ends without a panic.
  pub execute_actions_total : (w : W) → Holds (execute_actions env actions policy w)
  unfolding execute_actions
  execute_actions_total w = execute_from_total (topological_order actions) w refl

  -- A summary comes from a run of the loop over the order.
  record Summarised (summary : ExecutionSummary) : Type 0 where
    order : List ActionId
    ordered : topological_order actions ≡ ok order
    state : ExecutionState
    results : state.results ≡ summary.actions
    before : W
    after : W
    ran : execute_order env actions policy order new_state before ≡ some (state, after)

  summarised_of :
      (r : Outcome SchedulerError (List ActionId)) (w w' : W) (summary : ExecutionSummary)
      → topological_order actions ≡ r
      → execute_from env actions policy r w ≡ some (ok summary, w')
      → Summarised summary
  unfolding execute_from finish
  summarised_of (err error) w w' summary h k = cc
  summarised_of (ok order) w w' summary h k =
      elim (Option-cases (execute_order env actions policy order new_state w)) [
        | inl e ↦ absurd (ground (arith, e))
        | inr ((state, w''), e) ↦ record {
          order = order;
          ordered = h;
          state = state;
          results = ground (arith, e, k);
          before = w;
          after = w'';
          ran = e;
        }
      ]

  module _ (w w' : W) (summary : ExecutionSummary)
      (done : execute_actions env actions policy w ≡ some (ok summary, w')) where
    summarised : Summarised summary
    unfolding execute_actions
    summarised = summarised_of (topological_order actions) w w' summary refl done

    loop : Ran env policy actions summarised.order new_state summarised.state
    loop =
        execute_order-Ran env policy actions summarised.order new_state summarised.before
          summarised.state summarised.after summarised.ran

    loop_results : loop.new ≡ summary.actions
    loop_results = sym loop.appended ∙ summarised.results

    -- The results are one for each action, in the topological order.
    pub execute_actions-reports_all :
        (order : List ActionId) × (topological_order actions ≡ ok order)
        × (map (λ r. r.action_id) summary.actions ≡ order)
    execute_actions-reports_all = (
      summarised.order,
      summarised.ordered,
      ap (map (λ r. r.action_id)) (sym loop_results) ∙ loop.idents,
    )

    results_stop : policy.operation ≡ Operation.apply → StopsAfterFailure summary.actions
    results_stop a = subst StopsAfterFailure loop_results (loop.fail_fast a)

    -- An action whose result is not a skip ran behind results of all of its dependencies that
    -- succeeded or succeeded with findings.
    pub execute_actions-AreBacked : AreBacked actions [] summary.actions
    execute_actions-AreBacked =
        let (same, distinct, before) =
          topological_order-sorts actions summarised.order summarised.ordered in
        let b =
          execute_order-RanBacked env policy actions summarised.order [] new_state summarised.before
            summarised.state summarised.after
            (served_order actions summarised.order [] summarised.order refl distinct before)
            (record { sync = λ d. refl; idents = λ d. refl }) summarised.ran in
        subst (AreBacked actions []) (sym b.appended ∙ summarised.results) b.backed

-- When applying, whatever the profile says of continuing on errors, the runner is not called again
-- once a call of it has ended in an error or has answered with a failure or a block; and in the
-- results everything behind the first failed or blocked one is skipped.
pub execute_actions-stops :
    {W : Type 0} (env : Environment W) (policy : ExecutionPolicy) (actions : List PlannedAction)
    (w : W) (s : Logged W) (summary : ExecutionSummary)
    → policy.operation ≡ Operation.apply
    → execute_actions (logged env) actions policy (record { world = w; calls = [] })
      ≡ some (ok summary, s)
    → OnlyLastMayFail s.calls × StopsAfterFailure summary.actions
unfolding execute_actions
execute_actions-stops env policy actions w s summary applies ended = (
  execute_from-OnlyLastMayFail env policy applies actions (topological_order actions) w ended,
  results_stop (logged env) policy actions (record { world = w; calls = [] }) s summary ended
      applies,
)
