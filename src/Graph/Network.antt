-- ===== src/Graph/Network.antt =====
-- What the sort is given: the identifiers in their positions, the dependencies of each position,
-- and the positions that wait for each position.
use baseline_ops.Prelude.{
  ℕ, zero, suc, ◌+◌, ◌≤◌, ◌<◌, ◌≡◌, refl, ap, ◌==◌, if◌then◌else◌, true, false, some, List, [], ◌∷◌,
  ◌++◌, get_elem?, length, has, has_snoc, count, IsDistinct, ◌||◌, arith, Bool-cases, inl, inr,
}
use baseline_ops.Graph.Discharge.{at}

abbrev pub row : List (List ℕ) → ℕ → List ℕ
row [] i = []
row (r ∷ rs) zero = r
row (r ∷ rs) (suc i) = row rs i

-- How many of the dependencies `ds` are not among the known identifiers.
abbrev pub missing : (known ds : List ℕ) → ℕ
missing known [] = 0
missing known (d ∷ ds) = if has d known then missing known ds else suc (missing known ds)

pub record IsNetwork (ids : List ℕ) (deps children : List (List ℕ)) : Type 0 where
  pub distinct : IsDistinct ids
  pub deps_length : length deps ≡ length ids
  pub children_length : length children ≡ length ids
  pub edges : (p i : ℕ) → p < length ids → count i (row children p) ≡ count (at ids p) (row deps i)

pub get_elem?_of_at : (xs : List ℕ) (i : ℕ) → i < length xs → get_elem? xs i ≡ some (at xs i)
get_elem?_of_at [] i h = absurd (omega arith)
get_elem?_of_at (x ∷ xs) zero h = refl
get_elem?_of_at (x ∷ xs) (suc i) h = get_elem?_of_at xs i (omega arith)

pub get_elem?_of_row :
    (xs : List (List ℕ)) (i : ℕ) → i < length xs → get_elem? xs i ≡ some (row xs i)
get_elem?_of_row [] i h = absurd (omega arith)
get_elem?_of_row (x ∷ xs) zero h = refl
get_elem?_of_row (x ∷ xs) (suc i) h = get_elem?_of_row xs i (omega arith)

pub row_out : (xs : List (List ℕ)) (i : ℕ) → length xs ≤ i → row xs i ≡ []
row_out [] i h = refl
row_out (x ∷ xs) zero h = absurd (omega arith)
row_out (x ∷ xs) (suc i) h = row_out xs i (omega arith)

pub has-at : (xs : List ℕ) (i : ℕ) → i < length xs → has (at xs i) xs ≡ true
has-at [] i h = absurd (omega arith)
has-at (x ∷ xs) zero h = ground arith
has-at (x ∷ xs) (suc i) h = ground (arith, has-at xs i (omega arith))

pub at_inj :
    (xs : List ℕ) (i j : ℕ)
    → IsDistinct xs
    → i < length xs
    → j < length xs
    → at xs i ≡ at xs j
    → i ≡ j
at_inj [] i j d h k e = absurd (omega arith)
at_inj (x ∷ xs) zero zero d h k e = refl
at_inj (x ∷ xs) zero (suc j) d h k e = absurd (ground (arith, has-at xs j (omega arith)))
at_inj (x ∷ xs) (suc i) zero d h k e = absurd (ground (arith, has-at xs i (omega arith)))
at_inj (x ∷ xs) (suc i) (suc j) d h k e = ap suc (at_inj xs i j d.1 (omega arith) (omega arith) e)

-- The position of an identifier.
pub position_of :
    (xs : List ℕ) (x : ℕ) → has x xs ≡ true → (i : ℕ) × (i < length xs) × (at xs i ≡ x)
position_of [] x h = absurd (ground arith)
position_of (y ∷ xs) x h = elim (Bool-cases (x == y)) [
  | inl e ↦ (0, omega arith, ground arith)
  | inr n ↦ let (i, lt, e) = position_of xs x (ground arith) in (suc i, omega arith, e)
]

pub missing_snoc :
    (known ds : List ℕ) (x : ℕ)
    → has x known ≡ false
    → missing (known ++ x ∷ []) ds + count x ds ≡ missing known ds
missing_snoc known [] x h = omega arith
missing_snoc known (d ∷ ds) x h = ground (arith, missing_snoc known ds x h, has_snoc d x known)

pub missing_cong : (a b ds : List ℕ) → ((z : ℕ) → has z a ≡ has z b) → missing a ds ≡ missing b ds
missing_cong a b [] h = refl
missing_cong a b (d ∷ ds) h = ground (arith, missing_cong a b ds h, h d)

-- A dependency that is missing.
pub missing_witness :
    (known ds : List ℕ) → 0 < missing known ds → (d : ℕ) × (has d ds ≡ true) × (has d known ≡ false)
missing_witness known [] h = absurd (omega arith)
missing_witness known (d ∷ ds) h = elim (Bool-cases (has d known)) [
  | inl old ↦ let (e, p, q) = missing_witness known ds (ground arith) in (e, ground arith, q)
  | inr new ↦ (d, ground arith, new)
]

pub missing-zero :
    (known ds : List ℕ) (d : ℕ) → missing known ds ≡ 0 → has d ds ≡ true → has d known ≡ true
missing-zero known [] d h k = absurd (ground arith)
missing-zero known (e ∷ ds) d h k = ground (arith, missing-zero known ds d)

-- Every identifier of the list has its dependencies among `known` and the identifiers before it.
module _ (ids : List ℕ) (deps : List (List ℕ)) where
  abbrev pub IsServed : (known : List ℕ) → ℕ → Type 0
  IsServed known x = (i : ℕ) → i < length ids → at ids i ≡ x → missing known (row deps i) ≡ 0

  abbrev pub IsOrdered : (known order : List ℕ) → Type 0
  IsOrdered known [] = Unit
  IsOrdered known (x ∷ xs) = IsServed known x × IsOrdered (x ∷ known) xs

  pub IsOrdered-snoc :
      (known xs : List ℕ) (x : ℕ)
      → IsOrdered known xs
      → ((more : List ℕ) → ((z : ℕ) → has z more ≡ (has z known || has z xs)) → IsServed more x)
      → IsOrdered known (xs ++ x ∷ [])
  IsOrdered-snoc known [] x h served = (served known (λ z. ground arith), tt)
  IsOrdered-snoc known (y ∷ xs) x h served =
      (h.0, IsOrdered-snoc (y ∷ known) xs x h.1 λ more e. served more (λ z. ground (arith, e z)))
