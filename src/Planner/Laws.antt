-- ===== src/Planner/Laws.antt =====
-- What a plan that was built is made of.
use baseline_ops.Prelude.{
  ℕ, ◌+◌, ◌≡◌, refl, sym, ◌∙◌, ap, ◌==◌, ==_iff, Bool, true, false, if◌then◌else◌, same, same_iff,
  Bool-cases, inl, inr, String-discrete, Option, none, some, List, [], ◌∷◌, ◌++◌, append_assoc,
  length, length-append, lookup, insert, lookup-insert, get_elem?, ok, ok_or, map_err, >>=-eq-ok,
  >>-eq-ok, map_err-eq-ok, ok_or-eq-ok, subst, arith,
}
use baseline_ops.Domain.Ids.{ActionId, CapabilityId}
use baseline_ops.Domain.Primitives.{Operation-discrete, operation_of}
use baseline_ops.Domain.Action.{Profile, ProfileStep, PlannedAction}
use baseline_ops.Planner.{
  PlanBuildContext, TrustedActionDeriver, source_step_mismatch, derivation, PlanningIndex,
  get_capability, insert_step, index_steps, from_validated, and_then, step_of,
  validate_derived_action, derive_action, derive_actions,
}

-- The steps that the index knows of a capability.
abbrev or_default : Option (List (ActionId × ℕ)) → List (ActionId × ℕ)
or_default none = []
or_default (some steps) = steps

abbrev steps_for : CapabilityId → List (CapabilityId × List (ActionId × ℕ)) → List (ActionId × ℕ)
steps_for k m = or_default (get_capability k m)

get_capability-insert_step :
    (k j : CapabilityId) (step_id : ActionId) (position : ℕ)
    (m : List (CapabilityId × List (ActionId × ℕ)))
    → get_capability k (insert_step j step_id position m) ≡ (
        if same String-discrete k j
        then some (insert step_id position (steps_for j m))
        else get_capability k m)
get_capability-insert_step k j step_id position [] = refl
get_capability-insert_step k j step_id position ((i, steps) ∷ m) = ground (
  arith,
  same_iff String-discrete k j,
  same_iff String-discrete k i,
  same_iff String-discrete j i,
  get_capability-insert_step k j step_id position m,
)

get_elem?-append :
    (before : List ProfileStep) (step : ProfileStep) (after : List ProfileStep)
    → get_elem? (before ++ step ∷ after) (length before) ≡ some step
get_elem?-append [] step after = refl
get_elem?-append (s ∷ before) step after = get_elem?-append before step after

-- Whatever position the index gives for a step is one at which the step stands.
abbrev IsIndex : List ProfileStep → List (CapabilityId × List (ActionId × ℕ)) → Type 0
IsIndex all m =
    (k : CapabilityId) (id : ActionId) (position : ℕ)
    → lookup id (steps_for k m) ≡ some position
    → (step : ProfileStep) × (get_elem? all position ≡ some step) × (step.step_id ≡ id)

or_default-if :
    (b : Bool) (x : List (ActionId × ℕ)) (y : Option (List (ActionId × ℕ)))
    → or_default (if b then some x else y) ≡ (if b then x else or_default y)
or_default-if true x y = refl
or_default-if false x y = refl

steps_for-insert_step :
    (k j : CapabilityId) (step_id : ActionId) (position : ℕ)
    (m : List (CapabilityId × List (ActionId × ℕ)))
    → steps_for k (insert_step j step_id position m) ≡ (
        if same String-discrete k j then insert step_id position (steps_for j m) else steps_for k m)
steps_for-insert_step k j step_id position m =
    ap or_default (get_capability-insert_step k j step_id position m)
    ∙ or_default-if (same String-discrete k j) (insert step_id position (steps_for j m))
        (get_capability k m)

insert_step-IsIndex :
    (all : List ProfileStep) (step : ProfileStep) (position : ℕ)
    (m : List (CapabilityId × List (ActionId × ℕ)))
    → get_elem? all position ≡ some step
    → IsIndex all m
    → IsIndex all (insert_step step.capability_id step.step_id position m)
insert_step-IsIndex all step position m here known k id at h =
    let law = steps_for-insert_step k step.capability_id step.step_id position m in
    let after = lookup-insert id step.step_id position (steps_for step.capability_id m) in
    elim (Bool-cases (same String-discrete k step.capability_id)) [
      | inl e ↦ elim (Bool-cases (id == step.step_id)) [
        | inl same_id ↦
            let found : some position ≡ some at = (rw (law, e, after, same_id) at h) in
            let at_same : position ≡ at = cc found in
            (step, rw (← at_same) here, sym ((==_iff id step.step_id).0 same_id))
        | inr other ↦ known step.capability_id id at (rw (law, e, after, other) at h)
      ]
      | inr e ↦ known k id at (rw (law, e) at h)
    ]

index_steps-IsIndex :
    (all before steps : List ProfileStep) (n : ℕ) (index : PlanningIndex)
    → all ≡ before ++ steps
    → n ≡ length before
    → IsIndex all index.steps_by_capability
    → IsIndex all (index_steps n steps index).steps_by_capability
unfolding index_steps
index_steps-IsIndex all before [] n index split counted known = known
index_steps-IsIndex all before (step ∷ steps) n index split counted known =
    index_steps-IsIndex all (before ++ step ∷ []) steps (n + 1)
      (record {
        capability_by_step = insert step.step_id step.capability_id index.capability_by_step;
        steps_by_capability =
            insert_step step.capability_id step.step_id n index.steps_by_capability;
      })
      (split ∙ sym (append_assoc before (step ∷ []) steps))
      (omega (arith, counted, length-append before (step ∷ [])))
      (insert_step-IsIndex all step n index.steps_by_capability
        (rw (split, counted) (get_elem?-append before step steps)) known)

and_then-eq-some :
    {A B : Type 0} (o : Option A) (f : A → Option B) {b : B}
    → and_then o f ≡ some b
    → (a : A) × (o ≡ some a) × (f a ≡ some b)
and_then-eq-some none f h = absurd (cc h)
and_then-eq-some (some a) f h = (a, refl, h)

-- The step that the index finds is one of the profile's, with the identifier that was asked for.
step_of-eq-some :
    (profile : Profile) (id : ActionId) {step : ProfileStep}
    → step_of (from_validated profile) profile id ≡ some step
    → (step.step_id ≡ id) × ((position : ℕ) × (get_elem? profile.steps position ≡ some step))
unfolding step_of from_validated
step_of-eq-some profile id {step} h =
    let index = from_validated profile in
    let (capability, _, h1) = and_then-eq-some (lookup id index.capability_by_step) _ h in
    let (steps, found, h2) =
      and_then-eq-some (get_capability capability index.steps_by_capability) _ h1 in
    let (position, at, h3) = and_then-eq-some (lookup id steps) _ h2 in
    let start =
      index_steps-IsIndex profile.steps [] profile.steps 0
        (record { capability_by_step = []; steps_by_capability = [] }) refl refl
        (λ k i q h. absurd (cc h)) in
    let (s, here, same_id) = start capability id position (rw found at) in
    let same_step : s ≡ step = cc (here, h3) in (rw (← same_step) same_id, (position, h3))

-- An action that was derived for a step of the order.
pub record IsDerived (profile : Profile) (context : PlanBuildContext)
    (derive : TrustedActionDeriver) (step_id : ActionId) (action : PlannedAction) : Type 0 where
  pub step : ProfileStep
  pub found : step_of (from_validated profile) profile step_id ≡ some step
  pub position : ℕ
  pub stands : get_elem? profile.steps position ≡ some step
  pub derived : derive step context.intent context.observed_state ≡ ok action
  pub source_step : action.source_step ≡ step_id
  pub same_step : step.step_id ≡ step_id
  pub capability : action.capability ≡ step.capability_id
  pub operation : action.operation ≡ operation_of context.intent
  pub facts : action.facts_digest ≡ context.observed_state.digest

-- The actions answer the steps of the order, one by one.
abbrev pub AreDerived :
    Profile → PlanBuildContext → TrustedActionDeriver → List ActionId → List PlannedAction → Type 0
AreDerived profile context derive [] [] = Unit
AreDerived profile context derive [] (action ∷ actions) = ⊥
AreDerived profile context derive (id ∷ order) [] = ⊥
AreDerived profile context derive (id ∷ order) (action ∷ actions) =
    IsDerived profile context derive id action × AreDerived profile context derive order actions

module _ (profile : Profile) (context : PlanBuildContext) (derive : TrustedActionDeriver) where
  validate_derived_action-eq-ok :
      (action : PlannedAction) (step : ProfileStep)
      → validate_derived_action action step context ≡ ok tt
      → (action.source_step ≡ step.step_id)
        × (action.capability ≡ step.capability_id)
        × (action.operation ≡ operation_of context.intent)
        × (action.facts_digest ≡ context.observed_state.digest)
  unfolding validate_derived_action
  validate_derived_action-eq-ok action step h = ground (
    arith,
    h,
    same_iff String-discrete action.capability step.capability_id,
    same_iff Operation-discrete action.operation (operation_of context.intent),
  )

  derive_action-IsDerived :
      (step_id : ActionId) {action : PlannedAction}
      → derive_action (from_validated profile) profile context derive step_id ≡ ok action
      → IsDerived profile context derive step_id action
  unfolding derive_action
  derive_action-IsDerived step_id {action} h =
      let (step, found, h1) =
        >>=-eq-ok (ok_or (step_of (from_validated profile) profile step_id) source_step_mismatch) _
          h in
      let (a, derived, h2) =
        >>=-eq-ok (map_err derivation (derive step context.intent context.observed_state)) _ h1 in
      let (valid, h3) = >>-eq-ok (validate_derived_action a step context) _ h2 in
      let (source, capability, operation, facts) = validate_derived_action-eq-ok a step valid in
      let same_action : a ≡ action = cc h3 in
      let there =
        ok_or-eq-ok (step_of (from_validated profile) profile step_id) source_step_mismatch found in
      let (same_step, (position, stands)) = step_of-eq-some profile step_id there in
      rw (← same_action) (record {
        step = step;
        found = there;
        position = position;
        stands = stands;
        derived =
            map_err-eq-ok derivation (derive step context.intent context.observed_state) derived;
        source_step = source ∙ same_step;
        same_step = same_step;
        capability = capability;
        operation = operation;
        facts = facts;
      })

  pub derive_actions-AreDerived :
      (order : List ActionId) {actions : List PlannedAction}
      → derive_actions (from_validated profile) profile context derive order ≡ ok actions
      → AreDerived profile context derive order actions
  unfolding derive_actions
  derive_actions-AreDerived [] {actions} h =
      let none_left : [] ≡ actions = cc h in
      subst (λ xs. AreDerived profile context derive [] xs) (none_left) tt
  derive_actions-AreDerived (step_id ∷ order) {actions} h =
      let (a, first, h1) =
        >>=-eq-ok (derive_action (from_validated profile) profile context derive step_id) _ h in
      let (rest, others, h2) =
        >>=-eq-ok (derive_actions (from_validated profile) profile context derive order) _ h1 in
      let all : a ∷ rest ≡ actions = cc h2 in
      subst (λ xs. AreDerived profile context derive (step_id ∷ order) xs) (all)
        (derive_action-IsDerived step_id first, derive_actions-AreDerived order others)
