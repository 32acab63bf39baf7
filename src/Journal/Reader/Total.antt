-- ===== src/Journal/Reader/Total.antt =====
-- `parse_records`, `parse_bytes` and `read_bytes`, which end on every input.
use baseline_ops.Prelude.{
  ℕ, zero, suc, ◌+◌, ◌-◌, ◌<◌, ◌≤◌, ◌^◌, ◌≡◌, refl, min, ◌==◌, ltb, if◌then◌else◌, Bool, true,
  false, not, ◌||◌, List, length, take, drop, length-take-drop, Outcome, ok, err, reject_if, ◌>>=◌,
  ◌>>◌, >>=-eq-ok, Holds, value_of, arith, ap,
}
use baseline_ops.Journal.Event.{JournalError, bad_magic, incomplete_frame}
use baseline_ops.Journal.Frame.{
  Codec, JournalLimits, JournalSnapshot, journal_magic, ensure_size_limit, ensure_observed_size,
  frame_length,
}
use baseline_ops.Journal.Reader.{
  ParsedJournal, ParseState, Round, ends, goes_on, new_state, accept_frame, read_frame, read_round,
  parse_rounds, equal_bytes, finish,
}

-- A test that would end the loop did not.
pub not_ended :
    (b : Bool) (state : ParseState) (m : Outcome JournalError Round) {state' : ParseState}
    {reader' : List ℕ}
    → (if b then ok (ends state) else m) ≡ ok (goes_on state' reader')
    → (b ≡ false) × (m ≡ ok (goes_on state' reader'))
not_ended true state m h = absurd (cc h)
not_ended false state m h = (refl, h)

module _ (codec : Codec) (limits : JournalLimits) where
  read_frame-shorter :
      (state : ParseState) (prefix : List ℕ) (prefix_end : ℕ) (reader : List ℕ)
      (state' : ParseState) (reader' : List ℕ)
      → read_frame codec limits state prefix prefix_end reader ≡ ok (goes_on state' reader')
      → length reader' ≤ length reader
  unfolding read_frame
  read_frame-shorter state prefix prefix_end reader state' reader' h =
      let (expected, _, h1) = >>=-eq-ok (frame_length prefix) _ h in
      let n = min expected (min (limits.max_bytes - prefix_end + 1) (2 ^ 64 - 1)) in
      let (_, _, h2) =
        >>=-eq-ok (ensure_observed_size prefix_end (length (take n reader)) limits) _ h1 in
      let (_, h3) = not_ended (ltb (length (take n reader)) expected) _ _ h2 in
      let (s, _, h4) = >>=-eq-ok (accept_frame codec limits state (take n reader)) _ h3 in
      let same : drop n reader ≡ reader' = cc h4 in
      omega (arith, length-take-drop {0} n reader, ap (length {A = ℕ}) same)

  read_round-shorter :
      (state : ParseState) (reader : List ℕ) (state' : ParseState) (reader' : List ℕ)
      → read_round codec limits state reader ≡ ok (goes_on state' reader')
      → length reader' < length reader
  unfolding read_round
  read_round-shorter state reader state' reader' h =
      let (_, h1) = not_ended (length (take 4 reader) == 0) _ _ h in
      let (prefix_end, _, h2) =
        >>=-eq-ok (ensure_observed_size state.valid_bytes (length (take 4 reader)) limits) _ h1 in
      let (full, h3) = not_ended (ltb (length (take 4 reader)) 4) _ _ h2 in
      let le =
        read_frame-shorter state (take 4 reader) prefix_end (drop 4 reader) state' reader' h3 in
      ground (arith, le, full, length-take-drop 4 reader)

  round_total :
      (fuel : ℕ) (state : ParseState) (reader : List ℕ) (r : Outcome JournalError Round)
      → read_round codec limits state reader ≡ r
      → ((state' : ParseState) (reader' : List ℕ)
          → length reader' < length reader
          → Holds (parse_rounds codec limits fuel state' reader'))
      → Holds (parse_rounds codec limits (suc fuel) state reader)
  unfolding parse_rounds
  round_total fuel state reader (err e) k rest = (err e, rw (parse_rounds, k) refl)
  round_total fuel state reader (ok (ends state')) k rest =
      (ok (finish state'), rw (parse_rounds, k) refl)
  round_total fuel state reader (ok (goes_on state' reader')) k rest =
      let (end, run) = rest state' reader' (read_round-shorter state reader state' reader' k) in
      (end, rw (parse_rounds, k) run)

  -- Every round but the last reads four bytes or more: one round more than there are bytes is enough.
  pub parse_rounds_total :
      (fuel : ℕ) (state : ParseState) (reader : List ℕ)
      → length reader < fuel
      → Holds (parse_rounds codec limits fuel state reader)
  parse_rounds_total zero state reader h = absurd (omega arith)
  parse_rounds_total (suc fuel) state reader h =
      round_total fuel state reader (read_round codec limits state reader) refl
        λ state' reader' lt. parse_rounds_total fuel state' reader' (omega (arith, lt))

  unfoldable pub parse_records : ParseState → (reader : List ℕ) → Outcome JournalError ParsedJournal
  unfolding value_of
  parse_records state reader =
      value_of (parse_rounds codec limits (suc (length reader)) state reader)
        (parse_rounds_total (suc (length reader)) state reader (omega arith))

  unfoldable pub read_magic : (reader : List ℕ) → Outcome JournalError (List ℕ)
  unfolding equal_bytes
  read_magic reader = do
    let magic = take (length journal_magic) reader
    reject_if (not (length magic == length journal_magic) || not (equal_bytes magic journal_magic))
        bad_magic
    ok (drop (length journal_magic) reader)

  unfoldable pub parse_bytes : (bytes : List ℕ) → Outcome JournalError ParsedJournal
  unfolding ensure_size_limit read_magic parse_records
  parse_bytes bytes = do
    ensure_size_limit (length bytes) limits
    reader ← read_magic bytes
    parse_records (new_state codec limits) reader

  -- `Journal::read_bytes`
  unfoldable pub read_bytes : (bytes : List ℕ) → Outcome JournalError JournalSnapshot
  unfolding parse_bytes
  read_bytes bytes = do
    parsed ← parse_bytes bytes
    reject_if (not (parsed.trailing_bytes == 0)) incomplete_frame
    ok parsed.snapshot
