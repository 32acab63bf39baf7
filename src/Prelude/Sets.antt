-- ===== src/Prelude/Sets.antt =====
-- Sets of identifiers: membership, counting, and `BTreeSet` as an ascending list.
use Prim.Native.Nat.{ℕ, suc, ◌+◌, ◌≤◌, ◌<◌}
use mathlib.Core.Path.{◌≡◌, refl}
use mathlib.Core.Logic.{◌≢◌}
use mathlib.Core.Bool.{Bool, true, false, ◌||◌}
use mathlib.Core.List.{List, [], ◌∷◌, ◌++◌}
use native.Mathlib.Omega.{arith}
use baseline_ops.Prelude.Tests.{ltb, ◌==◌, if◌then◌else◌, Bool-cases}
use baseline_ops.Prelude.Lists.{length, All}
use mathlib.Core.Logic.{inl, inr}

abbrev pub has : ℕ → List ℕ → Bool
has x [] = false
has x (y ∷ ys) = x == y || has x ys

abbrev pub count : ℕ → List ℕ → ℕ
count x [] = 0
count x (y ∷ ys) = if x == y then suc (count x ys) else count x ys

-- `BTreeSet::insert`
abbrev pub insert_key : ℕ → List ℕ → List ℕ
insert_key k [] = k ∷ []
insert_key k (j ∷ s) = if ltb k j then k ∷ j ∷ s else if k == j then j ∷ s else j ∷ insert_key k s

abbrev pub IsAscending : List ℕ → Type 0
IsAscending [] = Unit
IsAscending (x ∷ xs) = All (λ y. x < y) xs × IsAscending xs

-- No identifier stands twice.
abbrev pub IsDistinct : List ℕ → Type 0
IsDistinct [] = Unit
IsDistinct (x ∷ xs) = (has x xs ≡ false) × IsDistinct xs

pub has-append : (x : ℕ) (xs ys : List ℕ) → has x (xs ++ ys) ≡ (has x xs || has x ys)
has-append x [] ys = refl
has-append x (z ∷ xs) ys = ground (arith, has-append x xs ys)

pub has_snoc : (x y : ℕ) (xs : List ℕ) → has x (xs ++ y ∷ []) ≡ (has x xs || x == y)
has_snoc x y [] = ground arith
has_snoc x y (z ∷ xs) = ground (arith, has_snoc x y xs)

pub count-append : (x : ℕ) (xs ys : List ℕ) → count x (xs ++ ys) ≡ count x xs + count x ys
count-append x [] ys = omega arith
count-append x (z ∷ xs) ys = ground (arith, count-append x xs ys)

pub has-count : (x : ℕ) (xs : List ℕ) → has x xs ≡ ltb 0 (count x xs)
has-count x [] = refl
has-count x (z ∷ xs) = ground (arith, has-count x xs)

pub has-insert_key : (x k : ℕ) (s : List ℕ) → has x (insert_key k s) ≡ (x == k || has x s)
has-insert_key x k [] = refl
has-insert_key x k (j ∷ s) = ground (arith, has-insert_key x k s)

All-insert_key :
    (a k : ℕ) (s : List ℕ) → a < k → All (λ y. a < y) s → All (λ y. a < y) (insert_key k s)
All-insert_key a k [] h all = ground arith
All-insert_key a k (j ∷ s) h all = ground (arith, All-insert_key a k s)

All-above : (a b : ℕ) (s : List ℕ) → a < b → All (λ y. b < y) s → All (λ y. a < y) s
All-above a b [] h all = tt
All-above a b (j ∷ s) h all = ground (arith, All-above a b s)

pub insert_key-IsAscending : (k : ℕ) (s : List ℕ) → IsAscending s → IsAscending (insert_key k s)
insert_key-IsAscending k [] h = (tt, tt)
insert_key-IsAscending k (j ∷ s) h =
    ground (arith, insert_key-IsAscending k s, All-insert_key j k s, All-above k j s)

pub All-has : (a : ℕ) (s : List ℕ) → All (λ y. a < y) s → has a s ≡ false
All-has a [] h = refl
All-has a (j ∷ s) h = ground (arith, All-has a s)

-- `xs` without the first `x`.
abbrev without : ℕ → List ℕ → List ℕ
without x [] = []
without x (y ∷ ys) = if x == y then ys else y ∷ without x ys

length-without : (x : ℕ) (ys : List ℕ) → has x ys ≡ true → length ys ≡ suc (length (without x ys))
length-without x [] h = absurd (ground arith)
length-without x (y ∷ ys) h = ground (arith, length-without x ys)

has-without : (x z : ℕ) (ys : List ℕ) → z ≢ x → has z ys ≡ true → has z (without x ys) ≡ true
has-without x z [] n h = h
has-without x z (y ∷ ys) n h = ground (arith, has-without x z ys)

has_ne : (x z : ℕ) (xs : List ℕ) → has x xs ≡ false → has z xs ≡ true → z ≢ x
has_ne x z xs a b e = ground arith

-- Distinct identifiers, all from another list, are no more than it holds.
pub length-le_of_subset :
    (xs ys : List ℕ)
    → IsDistinct xs
    → ((z : ℕ) → has z xs ≡ true → has z ys ≡ true)
    → length xs ≤ length ys
length-le_of_subset [] ys d sub = omega arith
length-le_of_subset (x ∷ xs) ys d sub = omega (
  arith,
  length-without x ys (sub x (ground arith)),
  length-le_of_subset xs (without x ys) d.1
      λ z h. has-without x z ys (has_ne x z xs d.0 h) (sub z (ground arith)),
)

pub IsDistinct-snoc :
    (xs : List ℕ) (x : ℕ) → IsDistinct xs → has x xs ≡ false → IsDistinct (xs ++ x ∷ [])
IsDistinct-snoc [] x d h = (refl, tt)
IsDistinct-snoc (y ∷ xs) x d h = ground (arith, IsDistinct-snoc xs x d.1, has_snoc y x xs)

pub count_of_IsDistinct :
    (x : ℕ) (xs : List ℕ) → IsDistinct xs → count x xs ≡ (if has x xs then 1 else 0)
count_of_IsDistinct x [] d = refl
count_of_IsDistinct x (y ∷ xs) d = ground (arith, count_of_IsDistinct x xs d.1)

pub Subset-full :
    (xs ys : List ℕ)
    → IsDistinct xs
    → ((z : ℕ) → has z xs ≡ true → has z ys ≡ true)
    → length xs ≡ length ys
    → (z : ℕ) → has z ys ≡ true
    → has z xs ≡ true
Subset-full xs ys d sub e z h = elim (Bool-cases (has z xs)) [
  | inl old ↦ old
  | inr new ↦ absurd (omega (arith, length-le_of_subset (z ∷ xs) ys (new, d) (more new)))
]
  where
    more : has z xs ≡ false → (w : ℕ) → has w (z ∷ xs) ≡ true → has w ys ≡ true
    more new w k = elim (Bool-cases (has w xs)) [ inl old ↦ sub w old | inr other ↦ ground arith ]

pub length-insert_key :
    (k : ℕ) (s : List ℕ)
    → IsAscending s
    → length (insert_key k s) ≡ (if has k s then length s else suc (length s))
length-insert_key k [] h = refl
length-insert_key k (j ∷ s) h =
    ground (arith, length-insert_key k s h.1, All-has k s, All-above k j s)
