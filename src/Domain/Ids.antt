-- ===== src/Domain/Ids.antt =====
-- rust/crates/baselineops-domain/src/ids.rs and the digest of canonical.rs. A UUID and a SHA-256
-- digest are compared and ordered as the numbers that their bytes write. A moment is the number of
-- its tick since the first one that chrono can hold.
use Prim.Native.Char.{code}
use Prim.Native.String.{len}
use baseline_ops.Prelude.{
  ℕ, String, Bool, true, ◌&&◌, ◌||◌, ◌==◌, ltb, leb, if◌then◌else◌, Outcome, ok, err,
}

abbrev pub ActionId : Type 0
ActionId = ℕ

abbrev pub ProfileId : Type 0
ProfileId = ℕ

abbrev pub PlanId : Type 0
PlanId = ℕ

abbrev pub ResultId : Type 0
ResultId = ℕ

abbrev pub RunId : Type 0
RunId = ℕ

abbrev pub FindingId : Type 0
FindingId = ℕ

abbrev pub ArtifactId : Type 0
ArtifactId = ℕ

abbrev pub Digest : Type 0
Digest = ℕ

abbrev pub DateTime : Type 0
DateTime = ℕ

abbrev pub CapabilityId : Type 0
CapabilityId = String

abbrev pub LogicalResourceId : Type 0
LogicalResourceId = String

-- `value.bytes().all(test)`. A character above ASCII has bytes above 127, which every test used
-- here refuses, as it refuses the character's code point.
all_bytes : (ℕ → Bool) → String → Bool
all_bytes test String.[] = true
all_bytes test (String.◌∷◌ c s) = test (code c) && all_bytes test s

is_ascii_lowercase : ℕ → Bool
is_ascii_lowercase b = leb b'a' b && leb b b'z'

is_ascii_uppercase : ℕ → Bool
is_ascii_uppercase b = leb b'A' b && leb b b'Z'

is_ascii_digit : ℕ → Bool
is_ascii_digit b = leb b'0' b && leb b b'9'

is_separator : ℕ → Bool
is_separator b = b == b'.' || b == b'-' || b == b'_'

is_capability_byte : ℕ → Bool
unfolding is_ascii_lowercase is_ascii_uppercase is_ascii_digit is_separator
is_capability_byte b =
    is_ascii_lowercase b || is_ascii_uppercase b || is_ascii_digit b || is_separator b

is_resource_byte : ℕ → Bool
unfolding is_ascii_lowercase is_ascii_digit is_separator
is_resource_byte b = is_ascii_lowercase b || is_ascii_digit b || is_separator b

-- `CapabilityId::new`
unfoldable pub capability_id : String → Outcome String CapabilityId
unfolding all_bytes is_capability_byte
capability_id value =
    if len value == 0 || ltb 128 (len value)
    then err "capability IDs must be between 1 and 128 bytes"
    else if all_bytes is_capability_byte value
    then ok value
    else err "capability IDs may contain only ASCII letters, digits, '.', '-' and '_'"

-- `LogicalResourceId::new`
unfoldable pub logical_resource_id : String → Outcome String LogicalResourceId
unfolding all_bytes is_resource_byte
logical_resource_id value =
    if len value == 0 || ltb 64 (len value)
    then err "logical resource IDs must be between 1 and 64 bytes"
    else if all_bytes is_resource_byte value
    then ok value
    else err "logical resource IDs use lowercase ASCII letters, digits, '.', '-' and '_'"
