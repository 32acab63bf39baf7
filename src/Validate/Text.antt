-- ===== src/Validate/Text.antt =====
-- The checks on one text: `validate_nonempty`, `validate_optional_text`, `validate_equal`.
use Prim.Native.Char.{code}
use Prim.Native.String.{len, ◌++◌ as text_append}
use baseline_ops.Prelude.{
  ℕ, zero, suc, ◌/◌, ◌%◌, ◌≤◌, String, Bool, true, false, ◌&&◌, ◌||◌, ◌==◌, ltb, leb, same,
  if◌then◌else◌, Option, none, some, ok, err, done, ◌≡◌, ◌↔◌, arith,
}
use baseline_ops.Domain.Json.{DomainResult, validation}

abbrev digit : ℕ → String
digit n =
    if n == 0
    then "0"
    else if n == 1
    then "1"
    else if n == 2
    then "2"
    else if n == 3
    then "3"
    else if n == 4
    then "4"
    else if n == 5
    then "5"
    else if n == 6
    then "6"
    else if n == 7
    then "7"
    else if n == 8
    then "8"
    else "9"

-- A number as `format!` prints it: twenty digits are enough for a `usize`.
decimal_from : ℕ → ℕ → String → String
decimal_from zero n tail = tail
decimal_from (suc f) n tail =
    let rest = decimal_from f (n / 10) (text_append (digit (n % 10)) tail) in
    if ltb n 10 then text_append (digit n) tail else rest

unfoldable pub decimal : ℕ → String
unfolding decimal_from
decimal n = decimal_from 20 n ""

-- Unicode's White_Space, which `str::trim` removes.
is_white_space : ℕ → Bool
is_white_space c =
    (leb 9 c && leb c 13)
    || c == 0x20
    || c == 0x85
    || c == 0xa0
    || c == 0x1680
    || (leb 0x2000 c && leb c 0x200a)
    || c == 0x2028
    || c == 0x2029
    || c == 0x202f
    || c == 0x205f
    || c == 0x3000

-- `value.trim().is_empty()`
unfoldable pub is_blank : String → Bool
unfolding is_white_space
is_blank String.[] = true
is_blank (String.◌∷◌ c s) = is_white_space (code c) && is_blank s

unfoldable pub validate_nonempty : (name value : String) → (max_bytes : ℕ) → DomainResult Unit
validate_nonempty name value max_bytes =
    if is_blank value
    then err (validation (text_append name " must not be empty"))
    else if ltb max_bytes (len value)
    then err (
        validation (
          text_append name
            (text_append " exceeds the " (text_append (decimal max_bytes) " byte limit"))))
    else done

unfoldable pub validate_optional_text :
    (name : String) → Option String → (max_bytes : ℕ) → DomainResult Unit
validate_optional_text name none max_bytes = done
validate_optional_text name (some value) max_bytes = validate_nonempty name value max_bytes

unfoldable pub validate_equal :
    {T : Type 0} → Discrete T → (expected actual : T) → String → DomainResult Unit
validate_equal d expected actual message =
    if same d expected actual then done else err (validation message)

-- A text that is not blank and fits.
abbrev pub IsText : ℕ → String → Type 0
IsText max_bytes value = (is_blank value ≡ false) × (len value ≤ max_bytes)

pub validate_nonempty_iff :
    (name value : String) (max_bytes : ℕ)
    → (validate_nonempty name value max_bytes ≡ ok tt) ↔ IsText max_bytes value
unfolding validate_nonempty
validate_nonempty_iff name value max_bytes = (λ h. ground arith, λ h. ground arith)
