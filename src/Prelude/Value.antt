-- ===== src/Prelude/Value.antt =====
-- The value of an option that is proved to hold one.
use mathlib.Core.Path.{◌≡◌, refl}
use mathlib.Core.Option.{Option, none, some}

abbrev pub Holds {ℓ} : {A : Type ℓ} → Option A → Type ℓ
Holds {A} o = (a : A) × (o ≡ some a)

unfoldable pub value_of {ℓ} : {A : Type ℓ} (o : Option A) → Holds o → A
value_of (some a) h = a
value_of none h = absurd (cc h.1)

pub value_of-eq {ℓ} :
    {A : Type ℓ} (o : Option A) (h : Holds o) {a : A} → o ≡ some a → value_of o h ≡ a
unfolding value_of
value_of-eq (some b) h e = cc
value_of-eq none h e = cc

pub value_of_run {ℓ} : {A : Type ℓ} (o : Option A) (h : Holds o) → o ≡ some (value_of o h)
unfolding value_of
value_of_run (some b) h = refl
value_of_run none h = cc h.1
