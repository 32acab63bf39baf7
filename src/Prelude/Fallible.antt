-- ===== src/Prelude/Fallible.antt =====
-- `Result<T, E>`, with the `?` operator as bind.
use mathlib.Core.Path.{◌≡◌, refl}
use mathlib.Core.Bool.{Bool, true, false}
use mathlib.Core.Option.{Option, none, some}
use mathlib.Core.List.{List, [], ◌∷◌}
use mathlib.Core.Logic.{◌↔◌}
use baseline_ops.Prelude.Lists.{All}

pub data Outcome {ℓ} (E A : Type ℓ) : Type ℓ where
  err : E → Outcome E A
  ok : A → Outcome E A

infixl 5 ◌>>=◌ ◌>>◌
abbrev pub ◌>>=◌ {ℓ} : {E T U : Type ℓ} → Outcome E T → (T → Outcome E U) → Outcome E U
err failure >>= next = err failure
ok value >>= next = next value

-- `if test { return Err(e); }`
abbrev pub reject_if : {E : Type 0} → Bool → E → Outcome E (Unit {0})
reject_if true e = err e
reject_if false e = ok tt

abbrev pub done : {E : Type 0} → Outcome E (Unit {0})
done = ok tt

abbrev pub ◌>>◌ {ℓ} : {E U : Type ℓ} → Outcome E (Unit {ℓ}) → Outcome E U → Outcome E U
check >> rest = check >>= λ _. rest

-- `option.ok_or(e)`
abbrev pub ok_or : {E A : Type 0} → Option A → E → Outcome E A
ok_or none e = err e
ok_or (some a) e = ok a

-- `result.map_err(f)`
abbrev pub map_err : {E F A : Type 0} → (E → F) → Outcome E A → Outcome F A
map_err f (ok a) = ok a
map_err f (err e) = err (f e)

abbrev pub is_ok : {E A : Type 0} → Outcome E A → Bool
is_ok (ok a) = true
is_ok (err e) = false

-- A chain that succeeds has a first step that succeeds.
pub >>=-eq-ok :
    {E T U : Type 0} (step : Outcome E T) (next : T → Outcome E U) {result : U}
    → (step >>= next) ≡ ok result
    → (value : T) × (step ≡ ok value) × (next value ≡ ok result)
>>=-eq-ok (err failure) next chain = cc
>>=-eq-ok (ok value) next chain = (value, refl, chain)

pub >>-eq-ok :
    {E B : Type 0} (m : Outcome E (Unit {0})) (k : Outcome E B) {b : B}
    → (m >> k) ≡ ok b
    → (m ≡ ok tt) × (k ≡ ok b)
>>-eq-ok (ok tt) k h = (refl, h)
>>-eq-ok (err e) k h = cc

pub map_err-eq-ok :
    {E F A : Type 0} (f : E → F) (m : Outcome E A) {a : A} → map_err f m ≡ ok a → m ≡ ok a
map_err-eq-ok f (ok a) h = cc h
map_err-eq-ok f (err e) h = absurd (cc h)

pub ok_or-eq-ok : {E A : Type 0} (o : Option A) (e : E) {a : A} → ok_or o e ≡ ok a → o ≡ some a
ok_or-eq-ok none e h = absurd (cc h)
ok_or-eq-ok (some a) e h = cc h

-- `for x in xs { f(x)?; }`
abbrev pub each : {E T : Type 0} → (T → Outcome E (Unit {0})) → List T → Outcome E (Unit {0})
each f [] = ok tt
each f (x ∷ xs) = f x >> each f xs

pub each_iff :
    {E T : Type 0} (f : T → Outcome E (Unit {0})) (xs : List T)
    → (each f xs ≡ ok tt) ↔ All (λ x. f x ≡ ok tt) xs
each_iff f [] = (λ h. tt, λ h. refl)
each_iff f (x ∷ xs) = (
  λ h. let (first, rest) = >>-eq-ok (f x) (each f xs) h in (first, (each_iff f xs).0 rest),
  λ (first, rest). rw (first) ((each_iff f xs).1 rest),
)
