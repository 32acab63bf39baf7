-- ===== src/WindowsUpdate/Applied.antt =====
-- What a plan does to the values that it was made for.
use baseline_ops.Prelude.{
  ◌≡◌, refl, sym, ◌∙◌, ap, subst, ◌==◌, ==_refl, true, false, if◌then◌else◌, same, same_iff,
  Bool-cases, inl, inr, Option, none, some, List, [], ◌∷◌, All, arith,
}
use baseline_ops.WindowsUpdate.{
  WindowsUpdateField, rank, PolicyValueSnapshot, PolicyValueSnapshot-discrete,
  WindowsUpdateObservation, WindowsUpdateConfig, WindowsUpdateMutation, UpdateSource, wufb, wsus,
  get_field, insert_field, expected_values, differs, differences, build_windows_update_plan,
}

abbrev pub Values : Type 0
Values = List (WindowsUpdateField × PolicyValueSnapshot)

-- Each of the fields has the value that stands beside it.
abbrev pub HasValues : Values → Values → Type 0
HasValues values expected =
    All (λ (e : WindowsUpdateField × PolicyValueSnapshot). get_field e.0 values ≡ some e.1) expected

-- The values after the mutations, in their order.
unfoldable pub applied : List WindowsUpdateMutation → Values → Values
applied [] values = values
applied (m ∷ mutations) values = applied mutations (insert_field m.field m.desired values)

pub get_field-insert_field :
    (f g : WindowsUpdateField) (v : PolicyValueSnapshot) (m : Values)
    → get_field f (insert_field g v m) ≡ (if rank f == rank g then some v else get_field f m)
unfolding get_field insert_field
get_field-insert_field f g v [] = refl
get_field-insert_field f g v ((h, w) ∷ m) = ground (arith, get_field-insert_field f g v m)

-- No field stands twice, and none is `f`.
abbrev pub IsFresh : WindowsUpdateField → Values → Type 0
IsFresh f expected =
    All (λ (e : WindowsUpdateField × PolicyValueSnapshot). (rank f == rank e.0) ≡ false) expected

abbrev HasDistinctFields : Values → Type 0
HasDistinctFields [] = Unit
HasDistinctFields (e ∷ expected) = IsFresh e.0 expected × HasDistinctFields expected

-- A field of which the plan says nothing keeps its value.
pub applied-other :
    (f : WindowsUpdateField) (observed : Values) (expected values : Values)
    → IsFresh f expected
    → get_field f (applied (differences observed expected) values) ≡ get_field f values
unfolding applied differences
applied-other f observed [] values fresh = refl
applied-other f observed ((g, v) ∷ expected) values (apart, fresh) =
    elim (Bool-cases (differs (get_field g observed) v)) [
      | inl e ↦ rw e (
          applied-other f observed expected (insert_field g v values) fresh
          ∙ (get_field-insert_field f g v values ∙ rw apart refl))
      | inr e ↦ rw e (applied-other f observed expected values fresh)
    ]

not_differs :
    (o : Option PolicyValueSnapshot) (v : PolicyValueSnapshot) → differs o v ≡ false → o ≡ some v
not_differs none v h = absurd (cc h)
not_differs (some w) v h =
    ap (λ x. some x) ((same_iff PolicyValueSnapshot-discrete w v).0 (ground (arith, h)))

abbrev Unchanged : Values → Values → Values → Type 0
Unchanged observed values expected =
    All
      (λ (e : WindowsUpdateField × PolicyValueSnapshot).
        get_field e.0 values ≡ get_field e.0 observed)
      expected

insert_field-Unchanged :
    (g : WindowsUpdateField) (v : PolicyValueSnapshot) (observed expected values : Values)
    → IsFresh g expected
    → Unchanged observed values expected
    → Unchanged observed (insert_field g v values) expected
insert_field-Unchanged g v observed [] values fresh unchanged = tt
insert_field-Unchanged g v observed ((f, w) ∷ expected) values (apart, fresh) (here, unchanged) =
    let other : (rank f == rank g) ≡ false = ground (arith, apart) in
    (
      get_field-insert_field f g v values ∙ rw other here,
      insert_field-Unchanged g v observed expected values fresh unchanged,
    )

-- The fields that the plan is about have their desired values afterwards.
pub applied-expected :
    (observed expected values : Values)
    → HasDistinctFields expected
    → Unchanged observed values expected
    → HasValues (applied (differences observed expected) values) expected
unfolding applied differences
applied-expected observed [] values distinct unchanged = tt
applied-expected observed ((g, v) ∷ expected) values (fresh, distinct) (here, unchanged) =
    let P =
      λ (ms : List WindowsUpdateMutation). HasValues (applied ms values) ((g, v) ∷ expected) in
    elim (Bool-cases (differs (get_field g observed) v)) [
      | inl e ↦
          let first : differences observed ((g, v) ∷ expected)
              ≡ (record { field = g; desired = v }) ∷ differences observed expected =
            rw e refl in
          subst P (sym first) (
            applied-other g observed expected (insert_field g v values) fresh
                ∙ (get_field-insert_field g g v values ∙ rw (==_refl (rank g)) refl),
            applied-expected observed expected (insert_field g v values) distinct
                (insert_field-Unchanged g v observed expected values fresh unchanged),
          )
      | inr e ↦
          let none_here : differences observed ((g, v) ∷ expected) ≡ differences observed expected =
            rw e refl in
          subst P (sym none_here) (
            applied-other g observed expected values fresh
                ∙ (here ∙ not_differs (get_field g observed) v e),
            applied-expected observed expected values distinct unchanged,
          )
    ]

-- Where every field has its desired value nothing differs.
pub no_differences :
    (values expected : Values) → HasValues values expected → differences values expected ≡ []
unfolding differences
no_differences values [] h = refl
no_differences values ((g, v) ∷ expected) (here, h) =
    let same_value : same PolicyValueSnapshot-discrete v v ≡ true =
      (same_iff PolicyValueSnapshot-discrete v v).1 refl in
    rw (here, same_value) (no_differences values expected h)

Unchanged-refl : (observed expected : Values) → Unchanged observed observed expected
Unchanged-refl observed [] = tt
Unchanged-refl observed (e ∷ expected) = (refl, Unchanged-refl observed expected)

expected_values-HasDistinctFields :
    (desired : WindowsUpdateConfig) → HasDistinctFields (expected_values desired)
unfolding expected_values
expected_values-HasDistinctFields desired = go desired.update_source
  where
    go :
        (s : UpdateSource)
        → HasDistinctFields (expected_values (record desired { update_source = s }))
    go wufb = ground arith
    go wsus = ground arith

pub expected-HasValues :
    (observation : WindowsUpdateObservation) (desired : WindowsUpdateConfig)
    → HasValues
        (applied (build_windows_update_plan observation desired).mutations observation.values)
        (expected_values desired)
unfolding build_windows_update_plan
expected-HasValues observation desired =
    applied-expected observation.values (expected_values desired) observation.values
      (expected_values-HasDistinctFields desired)
      (Unchanged-refl observation.values (expected_values desired))
