-- ===== src/Prelude/Maps.antt =====
-- `BTreeMap` by identifier: an association list in the order of the keys.
use Prim.Native.Nat.{ℕ, suc}
use mathlib.Core.Path.{◌≡◌, refl, ap}
use mathlib.Core.Option.{Option, none, some}
use mathlib.Core.List.{List, [], ◌∷◌}
use mathlib.Core.Bool.{Bool, true, false}
use native.Mathlib.Omega.{arith}
use baseline_ops.Prelude.Tests.{ltb, ◌==◌, if◌then◌else◌}
use baseline_ops.Prelude.Lists.{length}
use baseline_ops.Prelude.Sets.{has, insert_key}

module _ {ℓ} {V : Type ℓ} where
  abbrev pub lookup : ℕ → List (ℕ × V) → Option V
  lookup k [] = none
  lookup k ((j, v) ∷ m) = if k == j then some v else lookup k m

  -- `BTreeMap::insert`, which replaces the value of a key that is there.
  abbrev pub insert : ℕ → V → List (ℕ × V) → List (ℕ × V)
  insert k v [] = (k, v) ∷ []
  insert k v ((j, w) ∷ m) =
      if ltb k j then (k, v) ∷ (j, w) ∷ m else if k == j then (k, v) ∷ m else (j, w) ∷ insert k v m

  abbrev pub has_key : ℕ → List (ℕ × V) → Bool
  has_key k m = elim (lookup k m) [ none ↦ false | some _ ↦ true ]

  pub lookup-insert :
      (j k : ℕ) (v : V) (m : List (ℕ × V))
      → lookup j (insert k v m) ≡ (if j == k then some v else lookup j m)
  lookup-insert j k v [] = refl
  lookup-insert j k v ((i, w) ∷ m) = ground (arith, lookup-insert j k v m)

module _ {ℓ} {V : Type ℓ} where
  abbrev pub keys : List (ℕ × V) → List ℕ
  keys [] = []
  keys ((j, w) ∷ m) = j ∷ keys m

  pub keys-insert : (k : ℕ) (v : V) (m : List (ℕ × V)) → keys (insert k v m) ≡ insert_key k (keys m)
  keys-insert k v [] = refl
  keys-insert k v ((j, w) ∷ m) = ground (arith, keys-insert k v m)

  pub has_key-keys : (k : ℕ) (m : List (ℕ × V)) → has_key k m ≡ has k (keys m)
  has_key-keys k [] = refl
  has_key-keys k ((j, w) ∷ m) = ground (arith, has_key-keys k m)

  pub length-keys : (m : List (ℕ × V)) → length (keys m) ≡ length m
  length-keys [] = refl
  length-keys ((j, w) ∷ m) = ap suc (length-keys m)
