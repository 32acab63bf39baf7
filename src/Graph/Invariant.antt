-- ===== src/Graph/Invariant.antt =====
-- The state of the sort between two rounds, and the result that it ends with.
use baseline_ops.Prelude.{
  ℕ, zero, suc, ◌+◌, ◌≤◌, ◌<◌, ◌≡◌, refl, ap, ◌==◌, ltb, true, false, not, some, List, [], ◌∷◌,
  ◌++◌, length, length-append, has, has_snoc, count, IsDistinct, IsDistinct-snoc, IsAscending,
  All-has, length-le_of_subset, ◌&&◌, ◌||◌, arith, Bool-cases, inl, inr,
}
use baseline_ops.Graph.{drain}
use baseline_ops.Graph.Discharge.{at, Discharged, discharge_lem}
use baseline_ops.Graph.Network.{
  row, missing, IsNetwork, IsServed, IsOrdered, IsOrdered-snoc, get_elem?_of_at, get_elem?_of_row,
  row_out, has-at, at_inj, missing_snoc, missing_cong,
}

module _ (ids : List ℕ) (deps children : List (List ℕ)) where
  pub record IsSound (pending ready order : List ℕ) : Type 0 where
    pub counts : (i : ℕ) → at pending i ≡ missing order (row deps i)
    pub ready_iff :
        (i : ℕ)
        → has i ready ≡ (ltb i (length ids) && (at pending i == 0 && not (has (at ids i) order)))
    pub ascending : IsAscending ready
    pub distinct : IsDistinct order
    pub known : (z : ℕ) → has z order ≡ true → has z ids ≡ true
    pub closed :
        (i : ℕ) → i < length ids → has (at ids i) order ≡ true → missing order (row deps i) ≡ 0
    pub ordered : IsOrdered ids deps [] order

module _ {ids : List ℕ} {deps children : List (List ℕ)} (net : IsNetwork ids deps children) where
  module _ {p : ℕ} {pending ready order : List ℕ}
      (s : IsSound ids deps children pending (p ∷ ready) order) where
    popped : (p < length ids) × (at pending p ≡ 0) × (has (at ids p) order ≡ false)
    popped = ground (arith, s.ready_iff p)

    enough : (i : ℕ) → count i (row children p) ≤ at pending i
    enough i = omega (
      arith,
      net.edges p i popped.0,
      s.counts i,
      missing_snoc order (row deps i) (at ids p) popped.2,
    )

    after : Discharged (row children p) pending ready
    after = discharge_lem (row children p) pending ready enough

    counts_after : (i : ℕ) → at after.pending' i ≡ missing (order ++ at ids p ∷ []) (row deps i)
    counts_after i = omega (
      arith,
      after.taken i,
      net.edges p i popped.0,
      s.counts i,
      missing_snoc order (row deps i) (at ids p) popped.2,
    )

    id-same : (i : ℕ) → i < length ids → (at ids i == at ids p) ≡ (i == p)
    id-same i lt = elim (Bool-cases (i == p)) [
      | inl e ↦ ground arith
      | inr n ↦ elim (Bool-cases (at ids i == at ids p)) [
        | inl m ↦ absurd (ground (arith, at_inj ids i p net.distinct lt popped.0 (ground arith)))
        | inr m ↦ ground arith
      ]
    ]

    not_again : has p ready ≡ false
    not_again = All-has p ready s.ascending.0

    ready_in :
        (i : ℕ)
        → i < length ids
        → has i after.ready'
          ≡ (at after.pending' i == 0 && not (has (at ids i) (order ++ at ids p ∷ [])))
    ready_in i lt = ground (
      arith,
      after.made_ready i,
      after.taken i,
      s.ready_iff i,
      s.closed i lt,
      s.counts i,
      has_snoc (at ids i) (at ids p) order,
      id-same i lt,
      not_again,
      popped,
    )

    ready_out : (i : ℕ) → length ids ≤ i → has i after.ready' ≡ false
    ready_out i out = ground (
      arith,
      after.made_ready i,
      s.ready_iff i,
      s.counts i,
      enough i,
      ap (missing order) (row_out deps i (rw net.deps_length out)),
    )

    closed_after :
        (i : ℕ)
        → i < length ids
        → has (at ids i) (order ++ at ids p ∷ []) ≡ true
        → missing (order ++ at ids p ∷ []) (row deps i) ≡ 0
    closed_after i lt h = ground (
      arith,
      s.closed i lt,
      s.counts i,
      missing_snoc order (row deps i) (at ids p) popped.2,
      has_snoc (at ids i) (at ids p) order,
      id-same i lt,
      popped,
    )

    IsServed-after :
        (more : List ℕ)
        → ((z : ℕ) → has z more ≡ (has z [] || has z order))
        → IsServed ids deps more (at ids p)
    IsServed-after more e i lt h =
        let same : i ≡ p = at_inj ids i p net.distinct lt popped.0 h in
        omega (
          arith,
          missing_cong more order (row deps i) (λ z. e z),
          s.counts i,
          popped.1,
          ap (at pending) same,
        )

    known_after : (z : ℕ) → has z (order ++ at ids p ∷ []) ≡ true → has z ids ≡ true
    known_after z h = ground (arith, has_snoc z (at ids p) order, s.known z, has-at ids p popped.0)

    next-IsSound : IsSound ids deps children after.pending' after.ready' (order ++ at ids p ∷ [])
    next-IsSound = record {
      counts = counts_after;
      ready_iff = λ i. elim (Bool-cases (ltb i (length ids))) [
        | inl lt ↦ ground (arith, ready_in i (ground arith))
        | inr out ↦ ground (arith, ready_out i (ground arith))
      ];
      ascending = after.ascending s.ascending.1;
      distinct = IsDistinct-snoc order (at ids p) s.distinct popped.2;
      known = known_after;
      closed = closed_after;
      ordered = IsOrdered-snoc ids deps [] order (at ids p) s.ordered IsServed-after;
    }

  -- From a sound state the sort ends, with nothing ready, in a sound state.
  pub record Drained (fuel : ℕ) (pending ready order : List ℕ) : Type 0 where
    pub pending' : List ℕ
    pub order' : List ℕ
    pub run : drain ids children fuel pending ready order ≡ some (pending', order')
    pub sound : IsSound ids deps children pending' [] order'

  pub drain_lem :
      (fuel : ℕ) (pending ready order : List ℕ)
      → IsSound ids deps children pending ready order
      → length ids < fuel + length order
      → Drained fuel pending ready order
  unfolding drain
  drain_lem zero pending ready order s enough =
      absurd (omega (arith, length-le_of_subset order ids s.distinct s.known))
  drain_lem (suc fuel) pending [] order s enough = record {
    pending' = pending;
    order' = order;
    run = refl;
    sound = s;
  }
  drain_lem (suc fuel) pending (p ∷ ready) order s enough =
      let d = after s in
      let rest =
        drain_lem fuel d.pending' d.ready' (order ++ at ids p ∷ []) (next-IsSound s)
          (omega (arith, length-append {0} order (at ids p ∷ []))) in
      record {
        pending' = rest.pending';
        order' = rest.order';
        run = ground (
          arith,
          get_elem?_of_at ids p (popped s).0,
          get_elem?_of_row children p (rw net.children_length (popped s).0),
          d.run,
          rest.run,
        );
        sound = rest.sound;
      }
