-- ===== src/Prelude/Tests.antt =====
-- Boolean tests on numbers and texts, the conditional, and decidable equality as a test.
use Prim.Native.Nat.{ℕ, zero, suc, ◌≤◌, ◌<◌, compare, Ordering}
use Prim.Native.String.{String}
use mathlib.Core.Path.{◌≡◌, refl}
use mathlib.Core.Logic.{◌↔◌, ◌⊎◌, inl, inr}
use mathlib.Core.Bool.{Bool, true, false}
use mathlib.Core.Option.{Option, none, some}
use native.Mathlib.Omega.{arith}
use native.Mathlib.Decide.{ℕ_discrete}
use text.Mathlib.Text.{◌==◌ as text_eq}
use text.Mathlib.TextEquality.{eq_iff}

abbrev pub ltb : ℕ → ℕ → Bool
ltb a b = elim (compare a b) [ Ordering.lt ↦ true | _ ↦ false ]

abbrev pub leb : ℕ → ℕ → Bool
leb a b = elim (compare a b) [ Ordering.gt ↦ false | _ ↦ true ]

infix 50 ◌==◌
abbrev pub ◌==◌ : ℕ → ℕ → Bool
a == b = elim (compare a b) [ Ordering.eq ↦ true | _ ↦ false ]

infix 1 if◌then◌else◌
abbrev pub if◌then◌else◌ {ℓ} : {A : Type ℓ} → Bool → A → A → A
if true then x else y = x
if false then x else y = y

pub ltb→lt : (a b : ℕ) → ltb a b ≡ true → a < b
ltb→lt a b h = ground arith

pub lt→ltb : (a b : ℕ) → a < b → ltb a b ≡ true
lt→ltb a b h = ground arith

pub leb→le : (a b : ℕ) → leb a b ≡ true → a ≤ b
leb→le a b h = ground arith

pub le-or-lt : (a b : ℕ) → (a ≤ b) ⊎ (b < a)
le-or-lt zero b = inl (omega arith)
le-or-lt (suc a) zero = inr (omega arith)
le-or-lt (suc a) (suc b) = elim (le-or-lt a b) [
  | inl le ↦ inl (omega (arith, le))
  | inr lt ↦ inr (omega (arith, lt))
]

pub ==_iff : (a b : ℕ) → ((a == b) ≡ true) ↔ (a ≡ b)
==_iff a b = ground arith

pub ==_refl : (a : ℕ) → (a == a) ≡ true
==_refl a = ground arith

pub Bool-cases : (b : Bool) → (b ≡ true) ⊎ (b ≡ false)
Bool-cases true = inl refl
Bool-cases false = inr refl

pub Option-cases {ℓ} : {A : Type ℓ} (o : Option A) → (o ≡ none) ⊎ ((a : A) × (o ≡ some a))
Option-cases none = inl refl
Option-cases (some a) = inr (a, refl)

-- The answer of a decision as a test, and what the test says.
abbrev pub same {ℓ} : {A : Type ℓ} → Discrete A → A → A → Bool
same d a b = elim (d a b) [ yes _ ↦ true | no _ ↦ false ]

pub same_iff {ℓ} : {A : Type ℓ} (d : Discrete A) (a b : A) → (same d a b ≡ true) ↔ (a ≡ b)
same_iff {A} d a b = go (d a b)
  where
    go :
        (t : Dec (a ≡ b)) → (◌≡◌ {A = Bool} (elim t [ yes _ ↦ true | no _ ↦ false ]) true) ↔ (a ≡ b)
    go (yes e) = (λ _. e, λ _. refl)
    go (no n) = (λ e. cc, λ e. absurd (n e))

decision_of : {s t : String} (b : Bool) → ((b ≡ true) ↔ (s ≡ t)) → Dec (s ≡ t)
decision_of true h = yes (h.0 refl)
decision_of false h = no (λ e. cc (h.1 e))

unfoldable pub String-discrete : Discrete String
unfolding decision_of
String-discrete s t = decision_of (text_eq s t) (eq_iff s t)

pub zero_or_suc : (n : ℕ) → (n ≡ 0) ⊎ ((k : ℕ) × (n ≡ suc k))
zero_or_suc zero = inl refl
zero_or_suc (suc k) = inr (k, refl)

-- The integers, over the native ℕ.
pub data ℤ : Type 0 where
  pos : ℕ → ℤ
  negsuc : ℕ → ℤ

unfoldable pub ℤ-discrete : Discrete ℤ
ℤ-discrete = hlevel ℕ_discrete
