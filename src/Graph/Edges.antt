-- ===== src/Graph/Edges.antt =====
-- A property of every edge of a list of items, by items and by positions, and what stands before
-- an identifier in an order.
use baseline_ops.Prelude.{
  ℕ, zero, suc, ◌<◌, ◌≡◌, subst, sym, ◌==◌, if◌then◌else◌, true, List, [], ◌∷◌, map, length, has,
  All, ◌||◌, arith, Bool-cases, ==_iff, inl, inr,
}
use baseline_ops.Graph.Discharge.{at}
use baseline_ops.Graph.Network.{row, missing, IsOrdered, missing_cong}

-- What stands before an identifier in an order.
abbrev pub before : ℕ → List ℕ → List ℕ
before x [] = []
before x (y ∷ ys) = if x == y then [] else y ∷ before x ys

All-of_has : {Q : ℕ → Type 0} (ds : List ℕ) → ((d : ℕ) → has d ds ≡ true → Q d) → All Q ds
All-of_has [] h = tt
All-of_has (d ∷ ds) h = (h d (ground arith), All-of_has ds (λ e k. h e (ground arith)))

has_of_All : (Q : ℕ → Type 0) (ds : List ℕ) → All Q ds → (d : ℕ) → has d ds ≡ true → Q d
has_of_All Q [] h d k = cc
has_of_All Q (e ∷ ds) h d k = elim (Bool-cases (d == e)) [
  | inl s ↦ subst Q (sym ((==_iff d e).0 s)) h.0
  | inr n ↦ has_of_All Q ds h.1 d (ground arith)
]

module _ {T : Type 0} (id : T → ℕ) (dependencies : T → List ℕ) (Q : ℕ → ℕ → Type 0) where
  -- `Q` of every item and each of its dependencies.
  abbrev pub EveryEdge : List T → Type 0
  EveryEdge items = All (λ item. All (Q (id item)) (dependencies item)) items

  pub EveryEdge-at :
      (items : List T) (i d : ℕ)
      → EveryEdge items
      → i < length items
      → has d (row (map dependencies items) i) ≡ true
      → Q (at (map id items) i) d
  EveryEdge-at [] i d e lt h = absurd (omega arith)
  EveryEdge-at (item ∷ items) zero d e lt h = has_of_All (Q (id item)) (dependencies item) e.0 d h
  EveryEdge-at (item ∷ items) (suc i) d e lt h = EveryEdge-at items i d e.1 (omega arith) h

  pub EveryEdge-of_at :
      (items : List T)
      → ((i d : ℕ)
          → i < length items
          → has d (row (map dependencies items) i) ≡ true
          → Q (at (map id items) i) d)
      → EveryEdge items
  EveryEdge-of_at [] h = tt
  EveryEdge-of_at (item ∷ items) h = (
    All-of_has (dependencies item) (λ d. h 0 d (omega arith)),
    EveryEdge-of_at items (λ i d lt. h (suc i) d (omega arith)),
  )

-- In an ordered list what an identifier depends on stands before it.
pub IsOrdered-before :
    (ids : List ℕ) (deps : List (List ℕ)) (known order more : List ℕ) (i : ℕ)
    → IsOrdered ids deps known order
    → i < length ids
    → has (at ids i) order ≡ true
    → ((z : ℕ) → has z more ≡ (has z known || has z (before (at ids i) order)))
    → missing more (row deps i) ≡ 0
IsOrdered-before ids deps known [] more i o lt h e = cc
IsOrdered-before ids deps known (y ∷ order) more i o lt h e = elim (Bool-cases (at ids i == y)) [
  | inl s ↦
      let same : (z : ℕ) → has z more ≡ has z known = λ z. ground (arith, e z) in
      rw (missing_cong more known (row deps i) same) (o.0 i lt ((==_iff (at ids i) y).0 s))
  | inr n ↦
      IsOrdered-before ids deps (y ∷ known) order more i o.1 lt (ground arith)
        (λ z. ground (arith, e z))
]

pub length-before :
    (x d : ℕ) (order : List ℕ)
    → has d (before x order) ≡ true
    → length (before d order) < length (before x order)
length-before x d [] h = cc
length-before x d (y ∷ order) h = ground (arith, length-before x d order)

pub has-before : (x d : ℕ) (order : List ℕ) → has d (before x order) ≡ true → has d order ≡ true
has-before x d [] h = cc
has-before x d (y ∷ order) h = ground (arith, has-before x d order)
