-- ===== src/Graph/Sorted.antt =====
-- What the sort says when it has started with every position that waits for nothing.
use baseline_ops.Prelude.{
  ℕ, zero, suc, ◌+◌, ◌-◌, ◌<◌, ◌≡◌, ap, ◌==◌, ltb, leb, if◌then◌else◌, true, List, [], ◌∷◌, length,
  has, count, count_of_IsDistinct, IsAscending, All, Subset-full, ◌&&◌, arith, Bool-cases, inl, inr,
  zero_or_suc,
}
use baseline_ops.Graph.Discharge.{at}
use baseline_ops.Graph.Network.{row, missing, IsNetwork, missing_witness, position_of}
use baseline_ops.Graph.Invariant.{IsSound}

-- `pending.iter().enumerate().filter_map(|(position, count)| (*count == 0).then_some(position))`
unfoldable pub ready_positions : ℕ → List ℕ → List ℕ
ready_positions p [] = []
ready_positions p (c ∷ cs) =
    let rest = ready_positions (suc p) cs in if c == 0 then p ∷ rest else rest

has-ready_positions :
    (p : ℕ) (cs : List ℕ) (i : ℕ)
    → has i (ready_positions p cs) ≡ (leb p i && (ltb i (p + length cs) && at cs (i - p) == 0))
unfolding ready_positions
has-ready_positions p [] i = ground arith
has-ready_positions p (c ∷ cs) i = elim (zero_or_suc (i - p)) [
  | inl e ↦ ground (arith, has-ready_positions (suc p) cs i)
  | inr (k, e) ↦
      let shift : i - suc p ≡ k = omega arith in
      ground (arith, has-ready_positions (suc p) cs i, ap (at cs) shift, ap (at (c ∷ cs)) e)
]

above : (p q : ℕ) (cs : List ℕ) → q < p → All (λ y. q < y) (ready_positions p cs)
unfolding ready_positions
above p q [] h = tt
above p q (c ∷ cs) h = ground (arith, above (suc p) q cs (omega arith))

ready_positions-IsAscending : (p : ℕ) (cs : List ℕ) → IsAscending (ready_positions p cs)
unfolding ready_positions
ready_positions-IsAscending p [] = tt
ready_positions-IsAscending p (c ∷ cs) =
    ground (arith, ready_positions-IsAscending (suc p) cs, above (suc p) p cs (omega arith))

module _ {ids : List ℕ} {deps children : List (List ℕ)} (net : IsNetwork ids deps children) where
  pub start-IsSound :
      (pending : List ℕ)
      → length pending ≡ length ids
      → ((i : ℕ) → at pending i ≡ missing [] (row deps i))
      → IsSound ids deps children pending (ready_positions 0 pending) []
  start-IsSound pending len counts = record {
    counts = counts;
    ready_iff = λ i. ground (arith, has-ready_positions 0 pending i);
    ascending = ready_positions-IsAscending 0 pending;
    distinct = tt;
    known = λ z h. cc;
    closed = λ i lt h. cc;
    ordered = tt;
  }

  module _ {pending order : List ℕ} (s : IsSound ids deps children pending [] order) where
    -- A full order holds each identifier as often as it was given.
    pub full_counts : length order ≡ length ids → (x : ℕ) → count x order ≡ count x ids
    full_counts len x = ground (
      arith,
      count_of_IsDistinct x order s.distinct,
      count_of_IsDistinct x ids net.distinct,
      s.known x,
      Subset-full order ids s.distinct s.known len x,
    )

    -- With ranks that fall along every dependency nothing is left over.
    module _ (rank : ℕ → ℕ)
        (falls : (i d : ℕ)
          → i < length ids
          → has d (row deps i) ≡ true
          → (has d ids ≡ true) × (rank d < rank (at ids i))) where
      reached :
          (bound i : ℕ) → i < length ids → rank (at ids i) < bound → has (at ids i) order ≡ true
      reached zero i lt b = absurd (omega arith)
      reached (suc bound) i lt b = elim (Bool-cases (has (at ids i) order)) [
        | inl old ↦ old
        | inr new ↦
            let waits : 0 < missing order (row deps i) =
              ground (arith, s.ready_iff i, s.counts i) in
            let (d, in_deps, unknown) = missing_witness order (row deps i) waits in
            let (in_ids, lower) = falls i d lt in_deps in
            let (j, lt', e) = position_of ids d in_ids in
            let lower' : rank (at ids j) < bound = omega (arith, ap rank e) in
            cc (reached bound j lt' lower', e, unknown)
      ]

      pub reached_all : (z : ℕ) → has z ids ≡ true → has z order ≡ true
      reached_all z h =
          let (i, lt, e) = position_of ids z h in
          cc (reached (suc (rank (at ids i))) i lt (omega arith), e)
