-- ===== src/Validate/Plan/Observations.antt =====
-- The observations that the actions of a valid plan rest on.
use baseline_ops.Prelude.{
  true, not, ◌==◌, ◌≡◌, sym, ap, ◌∙◌, same, same_iff, String-discrete, some, List, [], ◌∷◌, map,
  length, length-map, lookup, keys, length-keys, has, has_key-keys, insert_key, IsDistinct,
  Subset-full, All, ok, reject_if, ok_or, ◌>>=◌, >>=-eq-ok, >>-eq-ok, arith, Bool-cases,
  Option-cases, inl, inr, ==_iff,
}
use baseline_ops.Domain.Ids.{ActionId, Digest}
use baseline_ops.Domain.Json.{validation}
use baseline_ops.Domain.Bindings.{ObservedValue}
use baseline_ops.Domain.Action.{PlannedAction, Plan}
use baseline_ops.Graph.Positions.{IsNew, IsNew-IsDistinct}
use baseline_ops.Validate.Identity.{Canonical}
use baseline_ops.Validate.Plan.{
  validate_action_observation, validate_bindings, validate_plan_observation_bindings,
}

module _ (c : Canonical) (plan : Plan) where
  -- The observation that an action rests on.
  abbrev pub IsBound : Digest → List (ActionId × ObservedValue) → PlannedAction → Type 0
  IsBound digest values action =
      (observed : ObservedValue) × (lookup action.source_step values ≡ some observed)
      × (action.facts_digest ≡ digest)
      × (observed.capability ≡ action.capability)
      × (c.parameters_digest action.parameters ≡ ok observed.parameters_digest)

  validate_action_observation_lem :
      (action : PlannedAction) (digest : Digest) (observed : ObservedValue)
      → validate_action_observation c action digest observed ≡ ok tt
      → (action.facts_digest ≡ digest)
        × (observed.capability ≡ action.capability)
        × (c.parameters_digest action.parameters ≡ ok observed.parameters_digest)
  unfolding validate_action_observation
  validate_action_observation_lem action digest observed h =
      elim (Bool-cases (same String-discrete observed.capability action.capability)) [
        | inl e ↦
            let facts : action.facts_digest ≡ digest = ground (arith, e) in
            let h' : (c.parameters_digest action.parameters >>= λ parameters.
            reject_if (not (observed.parameters_digest == parameters))
              (validation "planned action does not match its step observation binding"))
                ≡ ok tt =
              ground (arith, e, facts) in
            let (parameters, first, second) =
              >>=-eq-ok (c.parameters_digest action.parameters) _ h' in
            let equal : observed.parameters_digest ≡ parameters = ground (arith, second) in
            (
              facts,
              (same_iff String-discrete observed.capability action.capability).0 e,
              first ∙ ap ok (sym equal),
            )
        | inr n ↦ absurd (ground (arith, n))
      ]

  validate_bindings_lem :
      (digest : Digest) (values : List (ActionId × ObservedValue)) (seen : List ActionId)
      (actions : List PlannedAction)
      → validate_bindings c digest values seen actions ≡ ok tt
      → IsNew (map (λ a. a.source_step) actions) seen × All (IsBound digest values) actions
  unfolding validate_bindings
  validate_bindings_lem digest values seen [] h = (tt, tt)
  validate_bindings_lem digest values seen (action ∷ actions) h =
      let (fresh, h') = >>-eq-ok (reject_if (has action.source_step seen) _) _ h in
      let (observed, found, h'') = >>=-eq-ok (ok_or (lookup action.source_step values) _) _ h' in
      let (bound, h''') = >>-eq-ok (validate_action_observation c action digest observed) _ h'' in
      let (new, all) =
        validate_bindings_lem digest values (insert_key action.source_step seen) actions h''' in
      let there : lookup action.source_step values ≡ some observed =
        elim (Option-cases (lookup action.source_step values)) [
          | inl e ↦ absurd (ground (arith, e, found))
          | inr (o, e) ↦ ground (arith, e, found)
        ] in
      let (facts, capability, parameters) =
        validate_action_observation_lem action digest observed bound in
      ((ground (arith, fresh), new), ((observed, there, facts, capability, parameters), all))

  known_steps :
      (digest : Digest) (values : List (ActionId × ObservedValue)) (actions : List PlannedAction)
      → All (IsBound digest values) actions
      → (step : ActionId) → has step (map (λ a. a.source_step) actions) ≡ true
      → has step (keys values) ≡ true
  known_steps digest values [] all step h = cc
  known_steps digest values (action ∷ actions) ((observed, found, _, _, _), all) step h =
      elim (Bool-cases (step == action.source_step)) [
        | inl e ↦
            let equal : step ≡ action.source_step = (==_iff step action.source_step).0 e in
            rw (equal) (ground (arith, has_key-keys action.source_step values, found))
        | inr n ↦ known_steps digest values actions all step (ground arith)
      ]

  -- In a plan that passes the observation checks every action rests on an observation of its
  -- source step, with the plan's digest, the action's capability and the digest of its parameters;
  -- no two actions share a source step, and every observation of the plan is that of an action.
  pub validate_plan_observation_bindings_lem :
      validate_plan_observation_bindings c plan ≡ ok tt
      → All (IsBound plan.observed_state.digest plan.observed_state.values) plan.actions
        × IsDistinct (map (λ a. a.source_step) plan.actions)
        × ((step : ActionId)
            → has step (keys plan.observed_state.values)
              ≡ has step (map (λ a. a.source_step) plan.actions))
  unfolding validate_plan_observation_bindings
  validate_plan_observation_bindings_lem h =
      let (len, h') =
        >>-eq-ok (reject_if (not (length plan.observed_state.values == length plan.actions)) _) _
          h in
      let (new, all) =
        validate_bindings_lem plan.observed_state.digest plan.observed_state.values [] plan.actions
          h' in
      let steps = map (λ (a : PlannedAction). a.source_step) plan.actions in
      let distinct = (IsNew-IsDistinct steps [] new).0 in
      let known =
        known_steps plan.observed_state.digest plan.observed_state.values plan.actions all in
      let full : length steps ≡ length (keys plan.observed_state.values) = ground (
        arith,
        len,
        length-keys {0} plan.observed_state.values,
        length-map {0, 0} plan.actions (λ (a : PlannedAction). a.source_step),
      ) in
      let whole = Subset-full steps (keys plan.observed_state.values) distinct known full in
      (all, distinct, λ step. ground (arith, known step, whole step))
