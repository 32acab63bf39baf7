-- ===== src/Scheduler/Run/Backed.antt =====
-- An action runs only on the strength of its dependencies' recorded results.
use baseline_ops.Prelude.{
  ℕ, ◌≡◌, refl, sym, ap, ◌∙◌, subst, ◌⊎◌, inl, inr, ◌==◌, if◌then◌else◌, Bool, true, false, ◌||◌,
  any, Option, none, some, List, [], ◌∷◌, ◌++◌, map, All, has, has_snoc, has-append, lookup,
  lookup-insert, IsDistinct, arith, Bool-cases, Option-cases, ==_iff,
}
use mathlib.Core.List.{append_assoc, append-nil}
use baseline_ops.Domain.Ids.{ActionId}
use baseline_ops.Domain.Action.{PlannedAction}
use baseline_ops.Domain.Results.{
  ActionStatus, succeeded, findings, blocked, skipped, failed, ActionResult,
}
use baseline_ops.Graph.Edges.{before}
use baseline_ops.Scheduler.Order.Laws.{IsDependencyOrder}
use baseline_ops.Scheduler.State.{
  ExecutionPolicy, ExecutionState, Environment, is_incomplete, dependency_failed,
}
use baseline_ops.Scheduler.Run.{execute_action, execute_order, find_action}
use baseline_ops.Scheduler.Run.Results.{is_skipped, Stepped, stepped, find_action_lem}

abbrev pub status_of : ActionId → List ActionResult → Option ActionStatus
status_of id [] = none
status_of id (r ∷ rs) = if id == r.action_id then some r.status else status_of id rs

-- The action ran to an end that lets its dependents go on.
abbrev pub is_complete : Option ActionStatus → Bool
is_complete (some succeeded) = true
is_complete (some findings) = true
is_complete (some failed) = false
is_complete (some blocked) = false
is_complete (some skipped) = false
is_complete none = false

abbrev pub deps_of : ActionId → List PlannedAction → List ActionId
deps_of id [] = []
deps_of id (action ∷ actions) = if id == action.id then action.depends_on else deps_of id actions

-- A result that is not a skip has all of the dependencies of its action complete before it.
abbrev pub AreBacked : List PlannedAction → (earlier later : List ActionResult) → Type 0
AreBacked actions earlier [] = Unit
AreBacked actions earlier (r ∷ rs) =
    ((is_skipped r.status ≡ true)
      ⊎ All (λ d. is_complete (status_of d earlier) ≡ true) (deps_of r.action_id actions))
    × AreBacked actions (earlier ++ r ∷ []) rs

-- The identifiers of an order come behind their dependencies, and once.
abbrev IsServedOrder : List PlannedAction → (done order : List ActionId) → Type 0
IsServedOrder actions done [] = Unit
IsServedOrder actions done (id ∷ order) =
    All (λ d. has d done ≡ true) (deps_of id actions)
    × (has id done ≡ false)
    × IsServedOrder actions (done ++ id ∷ []) order

before_middle :
    (x : ℕ) (done rest : List ℕ) → has x done ≡ false → before x (done ++ x ∷ rest) ≡ done
before_middle x [] rest h = ground arith
before_middle x (y ∷ done) rest h = ground (arith, before_middle x done rest)

distinct_middle : (x : ℕ) (done rest : List ℕ) → IsDistinct (done ++ x ∷ rest) → has x done ≡ false
distinct_middle x [] rest d = refl
distinct_middle x (y ∷ done) rest d =
    ground (arith, distinct_middle x done rest d.1, has-append y done (x ∷ rest))

All-before :
    (x : ℕ) (order ds : List ℕ) (done : List ℕ)
    → before x order ≡ done
    → All (λ d. has d (before x order) ≡ true) ds
    → All (λ d. has d done ≡ true) ds
All-before x order ds done e all = subst (λ l. All (λ d. has d l ≡ true) ds) e all

deps_before :
    (actions : List PlannedAction) (order : List ActionId) (id : ActionId)
    → IsDependencyOrder actions order
    → All (λ d. has d (before id order) ≡ true) (deps_of id actions)
deps_before [] order id h = tt
deps_before (action ∷ actions) order id h = elim (Bool-cases (id == action.id)) [
  | inl e ↦ let same = (==_iff id action.id).0 e in rw e (rw same h.0)
  | inr n ↦ rw n (deps_before actions order id h.1)
]

pub served_order :
    (actions : List PlannedAction) (whole done rest : List ActionId)
    → done ++ rest ≡ whole
    → IsDistinct whole
    → IsDependencyOrder actions whole
    → IsServedOrder actions done rest
served_order actions whole done [] e d h = tt
served_order actions whole done (x ∷ rest) e d h =
    let new = distinct_middle x done rest (rw (← e) at d) in
    (
      All-before x whole (deps_of x actions) done (rw (← e) (before_middle x done rest new))
          (deps_before actions whole x h),
      new,
      served_order actions whole (done ++ x ∷ []) rest (append_assoc done (x ∷ []) rest ∙ e) d h,
    )

status_of-snoc :
    (d : ActionId) (rs : List ActionResult) (r : ActionResult)
    → has r.action_id (map (λ x. x.action_id) rs) ≡ false
    → status_of d (rs ++ r ∷ []) ≡ (if d == r.action_id then some r.status else status_of d rs)
status_of-snoc d [] r h = refl
status_of-snoc d (q ∷ rs) r h = ground (arith, status_of-snoc d rs r)

has-idents_snoc :
    (d : ActionId) (rs : List ActionResult) (r : ActionResult)
    → has d (map (λ x. x.action_id) (rs ++ r ∷ []))
      ≡ (has d (map (λ x. x.action_id) rs) || d == r.action_id)
has-idents_snoc d [] r = ground arith
has-idents_snoc d (q ∷ rs) r = ground (arith, has-idents_snoc d rs r)

known_status :
    (d : ActionId) (rs : List ActionResult)
    → has d (map (λ x. x.action_id) rs) ≡ true
    → (s : ActionStatus) × (status_of d rs ≡ some s)
known_status d [] h = absurd (cc)
known_status d (q ∷ rs) h = elim (Bool-cases (d == q.action_id)) [
  | inl e ↦ (q.status, rw e)
  | inr n ↦ let (s, k) = known_status d rs (ground arith) in (s, rw n k)
]

not_incomplete : (s : ActionStatus) → is_incomplete (some s) ≡ false → is_complete (some s) ≡ true
not_incomplete s h = ground arith

-- What is recorded of every dependency and does not stop the action is an end that completes it.
complete-All :
    (ds : List ActionId) (rs : List ActionResult) (statuses : List (ActionId × ActionStatus))
    → ((d : ActionId) → lookup d statuses ≡ status_of d rs)
    → All (λ d. has d (map (λ x. x.action_id) rs) ≡ true) ds
    → any (λ d. is_incomplete (lookup d statuses)) ds ≡ false
    → All (λ d. is_complete (status_of d rs) ≡ true) ds
complete-All [] rs statuses sync known h = tt
complete-All (d ∷ ds) rs statuses sync known h =
    let (s, e) = known_status d rs known.0 in
    (
      rw e (not_incomplete s (ground (arith, sync d, e))),
      complete-All ds rs statuses sync known.1 (ground arith),
    )

All-cong :
    (a b : List ActionId)
    → ((d : ActionId) → has d a ≡ has d b)
    → (ds : List ActionId) → All (λ d. has d a ≡ true) ds
    → All (λ d. has d b ≡ true) ds
All-cong a b e [] all = tt
All-cong a b e (d ∷ ds) all = (sym (e d) ∙ all.0, All-cong a b e ds all.1)

deps_of-find_action :
    (id : ActionId) (actions : List PlannedAction) (action : PlannedAction)
    → find_action id actions ≡ some action
    → deps_of id actions ≡ action.depends_on
unfolding find_action
deps_of-find_action id [] action h = cc
deps_of-find_action id (a ∷ actions) action h =
    ground (arith, deps_of-find_action id actions action)

module _ {W : Type 0} (env : Environment W) (policy : ExecutionPolicy)
    (actions : List PlannedAction) where
  -- The recorded statuses are those of the results, and `done` are their identifiers.
  pub record IsSynchronised (done : List ActionId) (state : ExecutionState) : Type 0 where
    pub sync : (d : ActionId) → lookup d state.statuses ≡ status_of d state.results
    pub idents : (d : ActionId) → has d (map (λ x. x.action_id) state.results) ≡ has d done

  IsSynchronised-step :
      (action : PlannedAction) (done : List ActionId) (state state' : ExecutionState)
      → Stepped env policy action state state'
      → has action.id done ≡ false
      → IsSynchronised done state
      → IsSynchronised (done ++ action.id ∷ []) state'
  IsSynchronised-step action done state state' step new s = record {
    sync = λ d.
        rw (step.appended, step.recorded)
          (ground (
            arith,
            s.sync d,
            step.ident,
            s.idents action.id,
            lookup-insert d action.id step.result.status state.statuses,
            status_of-snoc d state.results step.result,
          ));
    idents = λ d. rw step.appended (
        ground (
          arith,
          s.idents d,
          step.ident,
          has-idents_snoc d state.results step.result,
          has_snoc d action.id done,
        ));
  }

  AreBacked-step :
      (action : PlannedAction) (done : List ActionId) (state state' : ExecutionState)
      (step : Stepped env policy action state state')
      → find_action action.id actions ≡ some action
      → All (λ d. has d done ≡ true) (deps_of action.id actions)
      → IsSynchronised done state
      → (is_skipped step.result.status ≡ true)
        ⊎ All
            (λ d. is_complete (status_of d state.results) ≡ true)
            (deps_of step.result.action_id actions)
  unfolding dependency_failed
  AreBacked-step action done state state' step found served s = elim step.ran [
    | inl skip ↦ inl skip
    | inr fine ↦
        let same = deps_of-find_action action.id actions action found in
        inr (
          rw (step.ident, same)
            (complete-All action.depends_on state.results state.statuses s.sync
              (All-cong done (map (λ x. x.action_id) state.results) (λ d. sym (s.idents d))
                action.depends_on (rw same at served))
              fine))
  ]

  -- The results that a run of the loop adds are backed.
  pub record RanBacked (state state' : ExecutionState) : Type 0 where
    pub new : List ActionResult
    pub appended : state'.results ≡ state.results ++ new
    pub backed : AreBacked actions state.results new

  pub execute_order-RanBacked :
      (order done : List ActionId) (state : ExecutionState) (w : W) (state' : ExecutionState)
      (w' : W)
      → IsServedOrder actions done order
      → IsSynchronised done state
      → execute_order env actions policy order state w ≡ some (state', w')
      → RanBacked state state'
  unfolding execute_order
  execute_order-RanBacked [] done state w state' w' o s h =
      let same : state ≡ state' = ap (λ o. elim o [ none ↦ state | some p ↦ p.0 ]) h in
      record {
        new = [];
        appended = ap (λ s. s.results) (sym same) ∙ sym (append-nil state.results);
        backed = tt;
      }
  execute_order-RanBacked (id ∷ order) done state w state' w' o s h =
      elim (Option-cases (find_action id actions)) [
        | inl e ↦ absurd (ground (arith, e))
        | inr (action, e) ↦
            let next = execute_action env action policy state w in
            let h' : execute_order env actions policy order next.0 next.1 ≡ some (state', w') =
              rw (e, execute_order) at h in
            let named = find_action_lem env policy actions id actions action e in
            let step = stepped env policy action state w in
            let s' =
              subst (λ x. IsSynchronised (done ++ x ∷ []) next.0) named
                (IsSynchronised-step action done state next.0 step
                  (subst (λ x. has x done ≡ false) (sym named) o.1) s) in
            let rest =
              execute_order-RanBacked order (done ++ id ∷ []) next.0 next.1 state' w' o.2 s' h' in
            record {
              new = step.result ∷ rest.new;
              appended =
                  rest.appended
                  ∙ ap (λ l. l ++ rest.new) step.appended
                  ∙ append_assoc state.results (step.result ∷ []) rest.new;
              backed = (
                AreBacked-step action done state next.0 step
                    (subst (λ x. find_action x actions ≡ some action) (sym named) e)
                    (subst (λ x. All (λ d. has d done ≡ true) (deps_of x actions)) (sym named) o.0)
                    s,
                subst (λ l. AreBacked actions l rest.new) step.appended rest.backed,
              );
            }
      ]
