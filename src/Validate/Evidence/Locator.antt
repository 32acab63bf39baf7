-- ===== src/Validate/Evidence/Locator.antt =====
-- Which locators are relative, character by character: a slash is 47, a backslash 92, a dot 46.
use Prim.Native.Char.{Char, char, code}
use text.Mathlib.TextEquality.{Char-path}
use baseline_ops.Prelude.{
  ℕ, String, ◌≡◌, ◌≢◌, refl, sym, ap, ◌∙◌, ◌⊎◌, inl, inr, ◌↔◌, Bool, true, false, ◌&&◌, ◌||◌, ◌==◌,
  if◌then◌else◌, any, same, same_iff, String-discrete, List, [], ◌∷◌, Bool-cases, arith,
}
use baseline_ops.Validate.Evidence.{is_slash, starts_with_slash, split_on_slash, has_parent}

abbrev pub IsSeparator : ℕ → Type 0
IsSeparator c = (c ≡ 47) ⊎ (c ≡ 92)

abbrev pub IsOther : ℕ → Type 0
IsOther c = (c ≢ 47) × (c ≢ 92)

-- The text does not begin with a separator.
abbrev pub IsUnrooted : String → Type 0
IsUnrooted String.[] = Unit
IsUnrooted (String.◌∷◌ c s) = IsOther (code c)

abbrev pub EndsSegment : String → Type 0
EndsSegment String.[] = Unit
EndsSegment (String.◌∷◌ c s) = IsSeparator (code c)

-- The text begins with two dots and then ends or has a separator.
abbrev pub StartsParent : String → Type 0
StartsParent String.[] = ⊥
StartsParent (String.◌∷◌ a String.[]) = ⊥
StartsParent (String.◌∷◌ a (String.◌∷◌ b s)) = (code a ≡ 46) × (code b ≡ 46) × EndsSegment s

-- Behind no separator do two dots follow that end there or have another separator behind them.
abbrev pub HasNoLaterParent : String → Type 0
HasNoLaterParent String.[] = Unit
HasNoLaterParent (String.◌∷◌ c s) = (IsOther (code c) ⊎ ¬ StartsParent s) × HasNoLaterParent s

abbrev pub HasNoParent : String → Type 0
HasNoParent s = ¬ StartsParent s × HasNoLaterParent s

is_slash_iff : (c : ℕ) → (is_slash c ≡ true) ↔ IsSeparator c
unfolding is_slash
is_slash_iff c = ground arith

is_slash-false_iff : (c : ℕ) → (is_slash c ≡ false) ↔ IsOther c
unfolding is_slash
is_slash-false_iff c = ground arith

pub starts_with_slash_iff : (s : String) → (starts_with_slash s ≡ false) ↔ IsUnrooted s
unfolding starts_with_slash
starts_with_slash_iff String.[] = (λ _. tt, λ _. refl)
starts_with_slash_iff (String.◌∷◌ c s) = is_slash-false_iff (code c)

-- The first segment and the others.
first : String → String
first String.[] = ""
first (String.◌∷◌ c s) = let rest = first s in if is_slash (code c) then "" else String.◌∷◌ c rest

others : String → List String
unfolding first
others String.[] = []
others (String.◌∷◌ c s) = let rest = others s in if is_slash (code c) then first s ∷ rest else rest

split_on_slash-first : (s : String) → split_on_slash s ≡ first s ∷ others s
unfolding split_on_slash first others
split_on_slash-first String.[] = refl
split_on_slash-first (String.◌∷◌ c s) = elim (Bool-cases (is_slash (code c))) [
  | inl e ↦ rw (e, split_on_slash-first s) refl
  | inr e ↦ rw (e, split_on_slash-first s) refl
]

abbrev is_dots : String → Bool
is_dots String.[] = false
is_dots (String.◌∷◌ a String.[]) = false
is_dots (String.◌∷◌ a (String.◌∷◌ b String.[])) = code a == 46 && code b == 46
is_dots (String.◌∷◌ a (String.◌∷◌ b (String.◌∷◌ c s))) = false

is_dots-eq : (s : String) → is_dots s ≡ true → s ≡ ".."
is_dots-eq String.[] h = absurd (cc h)
is_dots-eq (String.◌∷◌ a String.[]) h = absurd (cc h)
is_dots-eq (String.◌∷◌ a (String.◌∷◌ b String.[])) h =
    let here : a ≡ char 46 tt = Char-path a (char 46 tt) (ground (arith, h)) in
    let next : b ≡ char 46 tt = Char-path b (char 46 tt) (ground (arith, h)) in
    λ i. String.◌∷◌ (here i) (String.◌∷◌ (next i) String.[])
is_dots-eq (String.◌∷◌ a (String.◌∷◌ b (String.◌∷◌ c s))) h = absurd (cc h)

same-dots : (s : String) → same String-discrete s ".." ≡ is_dots s
same-dots s = elim (Bool-cases (is_dots s)) [
  | inl e ↦ (same_iff String-discrete s "..").1 (is_dots-eq s e) ∙ sym e
  | inr e ↦ elim (Bool-cases (same String-discrete s "..")) [
    | inl k ↦ absurd (cc (ap is_dots ((same_iff String-discrete s "..").0 k), e))
    | inr k ↦ k ∙ sym e
  ]
]

abbrev ends_here : String → Bool
ends_here String.[] = true
ends_here (String.◌∷◌ c s) = is_slash (code c)

abbrev parent_here : String → Bool
parent_here String.[] = false
parent_here (String.◌∷◌ a String.[]) = false
parent_here (String.◌∷◌ a (String.◌∷◌ b s)) = code a == 46 && code b == 46 && ends_here s

abbrev parent_later : String → Bool
parent_later String.[] = false
parent_later (String.◌∷◌ c s) = is_slash (code c) && parent_here s || parent_later s

slash_not_dot : (c : ℕ) → is_slash c ≡ true → (c == 46) ≡ false
unfolding is_slash
slash_not_dot c h = ground (arith, h)

and_false : (a b : Bool) → b ≡ false → (a && b) ≡ false
and_false true b h = h
and_false false b h = refl

and_true : (a : Bool) → (a && true) ≡ a
and_true true = refl
and_true false = refl

-- Behind two characters that are no separators.
is_dots-first_rest :
    (a b : Char) (s : String)
    → is_dots (String.◌∷◌ a (String.◌∷◌ b (first s)))
      ≡ ((code a == 46 && code b == 46) && ends_here s)
unfolding first
is_dots-first_rest a b String.[] = sym (and_true (code a == 46 && code b == 46))
is_dots-first_rest a b (String.◌∷◌ c s) = elim (Bool-cases (is_slash (code c))) [
  | inl e ↦ rw (e, and_true (code a == 46 && code b == 46)) refl
  | inr e ↦ rw (e, and_false (code a == 46 && code b == 46) false refl) refl
]

is_dots-first : (s : String) → is_dots (first s) ≡ parent_here s
unfolding first
is_dots-first String.[] = refl
is_dots-first (String.◌∷◌ a String.[]) = elim (Bool-cases (is_slash (code a))) [
  | inl e ↦ rw e refl
  | inr e ↦ rw e refl
]
is_dots-first (String.◌∷◌ a (String.◌∷◌ b s)) = elim (Bool-cases (is_slash (code a))) [
  | inl e ↦ rw (e, slash_not_dot (code a) e) refl
  | inr e ↦ elim (Bool-cases (is_slash (code b))) [
    | inl k ↦ rw (e, k, slash_not_dot (code b) k, and_false (code a == 46) false refl) refl
    | inr k ↦ rw (e, k) (is_dots-first_rest a b s)
  ]
]

any-others :
    (s : String) → any (λ segment. same String-discrete segment "..") (others s) ≡ parent_later s
unfolding others
any-others String.[] = refl
any-others (String.◌∷◌ c s) = elim (Bool-cases (is_slash (code c))) [
  | inl e ↦ rw (e, same-dots (first s), is_dots-first s, any-others s) refl
  | inr e ↦ rw (e, any-others s) refl
]

has_parent-eq : (s : String) → has_parent s ≡ (parent_here s || parent_later s)
unfolding has_parent
has_parent-eq s =
    rw (split_on_slash-first s, same-dots (first s), is_dots-first s, any-others s) refl

ends_here_iff : (s : String) → (ends_here s ≡ true) ↔ EndsSegment s
ends_here_iff String.[] = (λ _. tt, λ _. refl)
ends_here_iff (String.◌∷◌ c s) = is_slash_iff (code c)

parent_here_iff : (s : String) → (parent_here s ≡ true) ↔ StartsParent s
parent_here_iff String.[] = (λ h. absurd (cc h), λ h. absurd h)
parent_here_iff (String.◌∷◌ a String.[]) = (λ h. absurd (cc h), λ h. absurd h)
parent_here_iff (String.◌∷◌ a (String.◌∷◌ b s)) = (
  λ h. (ground (arith, h), ground (arith, h), (ends_here_iff s).0 (ground (arith, h))),
  λ (x, y, z). ground (arith, x, y, (ends_here_iff s).1 z),
)

parent_here-false_iff : (s : String) → (parent_here s ≡ false) ↔ (¬ StartsParent s)
parent_here-false_iff s = (
  λ h k. cc (h, (parent_here_iff s).1 k),
  λ n. elim (Bool-cases (parent_here s)) [
    | inl e ↦ absurd (n ((parent_here_iff s).0 e))
    | inr e ↦ e
  ],
)

parent_later_iff : (s : String) → (parent_later s ≡ false) ↔ HasNoLaterParent s
parent_later_iff String.[] = (λ _. tt, λ _. refl)
parent_later_iff (String.◌∷◌ c s) = (
  λ h.
      let rest = (parent_later_iff s).0 (ground (arith, h)) in
      elim (Bool-cases (is_slash (code c))) [
        | inl e ↦ (inr ((parent_here-false_iff s).0 (ground (arith, h, e))), rest)
        | inr e ↦ (inl ((is_slash-false_iff (code c)).0 e), rest)
      ],
  λ (here, rest).
      let later = (parent_later_iff s).1 rest in
      elim here [
        | inl other ↦ let e = (is_slash-false_iff (code c)).1 other in ground (arith, e, later)
        | inr n ↦ let e = (parent_here-false_iff s).1 n in ground (arith, e, later)
      ],
)

pub has_parent_iff : (s : String) → (has_parent s ≡ false) ↔ HasNoParent s
has_parent_iff s = (
  λ h.
      let here : parent_here s ≡ false = ground (arith, h, has_parent-eq s) in
      let later : parent_later s ≡ false = ground (arith, h, has_parent-eq s) in
      ((parent_here-false_iff s).0 here, (parent_later_iff s).0 later),
  λ (here, later).
      ground
        (arith, has_parent-eq s, (parent_here-false_iff s).1 here, (parent_later_iff s).1 later),
)
