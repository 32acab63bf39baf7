-- ===== src/Graph/Discharge.antt =====
-- One round of `discharge` takes one from the count of a position for each time that it stands
-- among the dependents, and makes ready just those whose count it brings to zero.
use baseline_ops.Prelude.{
  ℕ, zero, suc, ◌+◌, ◌≤◌, ◌≡◌, refl, ◌∙◌, inl, inr, ◌==◌, ltb, if◌then◌else◌, some, List, [], ◌∷◌,
  get_elem?, set, length, length-set, has, count, insert_key, IsAscending, insert_key-IsAscending,
  has-insert_key, ◌&&◌, ◌||◌, arith, zero_or_suc,
}
use baseline_ops.Graph.{discharge}

-- `xs[i]`, where nothing stands there zero.
abbrev pub at : List ℕ → ℕ → ℕ
at [] i = 0
at (x ∷ xs) zero = x
at (x ∷ xs) (suc i) = at xs i

get_elem?-at : (xs : List ℕ) (i k : ℕ) → at xs i ≡ suc k → get_elem? xs i ≡ some (suc k)
get_elem?-at [] i k h = absurd (omega arith)
get_elem?-at (x ∷ xs) zero k h = ground arith
get_elem?-at (x ∷ xs) (suc i) k h = get_elem?-at xs i k h

at-set :
    (xs : List ℕ) (i j k v : ℕ)
    → at xs i ≡ suc k
    → at (set xs i v) j ≡ (if j == i then v else at xs j)
at-set [] i j k v h = absurd (omega arith)
at-set (x ∷ xs) zero zero k v h = refl
at-set (x ∷ xs) zero (suc j) k v h = ground arith
at-set (x ∷ xs) (suc i) zero k v h = ground arith
at-set (x ∷ xs) (suc i) (suc j) k v h = ground (arith, at-set xs i j k v h)

-- What a round leaves.
pub record Discharged (dependents pending ready : List ℕ) : Type 0 where
  pub pending' : List ℕ
  pub ready' : List ℕ
  pub run : discharge dependents pending ready ≡ some (pending', ready')
  pub kept : length pending' ≡ length pending
  pub taken : (i : ℕ) → at pending' i + count i dependents ≡ at pending i
  pub made_ready :
      (i : ℕ) → has i ready' ≡ (has i ready || (ltb 0 (count i dependents) && at pending' i == 0))
  pub ascending : IsAscending ready → IsAscending ready'

enough_after :
    (c : ℕ) (cs pending : List ℕ) (k : ℕ)
    → at pending c ≡ suc k
    → ((i : ℕ) → count i (c ∷ cs) ≤ at pending i)
    → (i : ℕ) → count i cs ≤ at (set pending c k) i
enough_after c cs pending k e enough i = ground (arith, enough i, at-set pending c i k k e)

discharge-cons :
    (c : ℕ) (cs pending ready : List ℕ) (k : ℕ)
    → at pending c ≡ suc k
    → Discharged cs (set pending c k) (if k == 0 then insert_key c ready else ready)
    → Discharged (c ∷ cs) pending ready
unfolding discharge
discharge-cons c cs pending ready k e rest = record {
  pending' = rest.pending';
  ready' = rest.ready';
  run = ground (arith, get_elem?-at pending c k e, rest.run);
  kept = rest.kept ∙ length-set pending c k;
  taken = λ i. ground (arith, rest.taken i, at-set pending c i k k e);
  made_ready = λ i.
      ground (
        arith,
        rest.made_ready i,
        rest.taken i,
        at-set pending c i k k e,
        has-insert_key i c ready,
      );
  ascending = λ a. rest.ascending (ground (arith, a, insert_key-IsAscending c ready a));
}

pub discharge_lem :
    (dependents pending ready : List ℕ)
    → ((i : ℕ) → count i dependents ≤ at pending i)
    → Discharged dependents pending ready
unfolding discharge
discharge_lem [] pending ready enough = record {
  pending' = pending;
  ready' = ready;
  run = refl;
  kept = refl;
  taken = λ i. omega arith;
  made_ready = λ i. ground arith;
  ascending = λ a. a;
}
discharge_lem (c ∷ cs) pending ready enough = elim (zero_or_suc (at pending c)) [
  | inl e ↦ absurd (ground (arith, enough c))
  | inr (k, e) ↦ discharge-cons c cs pending ready k e (
      discharge_lem cs (set pending c k) (if k == 0 then insert_key c ready else ready)
        (enough_after c cs pending k e enough))
]
