-- ===== src/Journal/Reader.antt =====
-- journal/reader.rs on bytes that are at hand. A read that fills a buffer takes what is there, up to
-- the buffer's length. The buffers `prefix` and `frame`, which each round overwrites, are values of
-- the round.
pub mod Total
pub mod Frames
pub mod Accepts
pub mod Whole
pub mod Replay
pub mod Inversion
pub mod Chain
pub mod Tamper
pub mod Anchor
use baseline_ops.Prelude.{
  ℕ, zero, suc, ◌+◌, ◌-◌, ◌^◌, min, ◌==◌, ltb, if◌then◌else◌, Bool, true, false, not, ◌||◌, same,
  ℕ_discrete, Option, none, some, List, [], ◌++◌, ◌∷◌, length, take, drop, Outcome, ok, err,
  reject_if, ok_or, map_err, ◌>>=◌, ◌>>◌,
}
use baseline_ops.Domain.Ids.{Digest}
use baseline_ops.Journal.Event.{
  JournalRecord, JournalError, domain, bad_magic, incomplete_frame, invalid_record,
  non_canonical_record, sequence_overflow,
}
use baseline_ops.Journal.Lifecycle.{Lifecycle, new_lifecycle, validate, accept}
use baseline_ops.Journal.Frame.{
  Codec, JournalLimits, JournalSnapshot, journal_magic, checked_add, ensure_size_limit,
  ensure_record_limit, ensure_observed_size, frame_length, validate_record,
}

unfoldable pub equal_bytes : List ℕ → List ℕ → Bool
equal_bytes [] [] = true
equal_bytes [] (y ∷ ys) = false
equal_bytes (x ∷ xs) [] = false
equal_bytes (x ∷ xs) (y ∷ ys) = let rest = equal_bytes xs ys in if x == y then rest else false

pub record ParsedJournal : Type 0 where
  pub snapshot : JournalSnapshot
  pub next_sequence : ℕ
  pub valid_bytes : ℕ
  pub trailing_bytes : ℕ

pub record ParseState : Type 0 where
  pub records : List JournalRecord
  pub previous_hash : Digest
  pub next_sequence : ℕ
  pub valid_bytes : ℕ
  pub trailing_bytes : ℕ
  pub lifecycle : Lifecycle

unfoldable pub finish : ParseState → ParsedJournal
finish state = record {
  snapshot = record { records = state.records; terminal_hash = state.previous_hash };
  next_sequence = state.next_sequence;
  valid_bytes = state.valid_bytes;
  trailing_bytes = state.trailing_bytes;
}

-- How a round of the loop ends: with the loop, or with what is left to read.
pub data Round : Type 0 where
  ends : ParseState → Round
  goes_on : ParseState → (reader : List ℕ) → Round

module _ (codec : Codec) (limits : JournalLimits) where
  abbrev pub new_state : ParseState
  new_state = record {
    records = [];
    previous_hash = codec.empty_hash;
    next_sequence = 0;
    valid_bytes = length journal_magic;
    trailing_bytes = 0;
    lifecycle = new_lifecycle;
  }

  unfoldable pub parse_record : (frame : List ℕ) → Outcome JournalError JournalRecord
  unfolding equal_bytes
  parse_record frame = do
    r ← map_err invalid_record (codec.parse frame)
    bytes ← map_err domain (codec.record_bytes r)
    reject_if (not (equal_bytes bytes frame)) non_canonical_record
    ok r

  unfoldable pub push_record :
      ParseState → JournalRecord → (length : ℕ) → Outcome JournalError ParseState
  unfolding validate_record validate accept
  push_record state r length = do
    validate_record codec r state.next_sequence state.previous_hash
    validate state.lifecycle r.payload
    next_sequence ← ok_or (checked_add state.next_sequence 1) sequence_overflow
    ok (record {
      records = state.records ++ r ∷ [];
      previous_hash = r.record_hash;
      next_sequence = next_sequence;
      valid_bytes = state.valid_bytes + (4 + length);
      trailing_bytes = state.trailing_bytes;
      lifecycle = accept state.lifecycle r.payload;
    })

  unfoldable pub accept_frame : ParseState → (frame : List ℕ) → Outcome JournalError ParseState
  unfolding ensure_record_limit parse_record push_record
  accept_frame state frame = do
    ensure_record_limit state.next_sequence limits
    r ← parse_record frame
    push_record state r (length frame)

  -- `read_frame` and `accept_frame` of a round, once the prefix is read.
  unfoldable pub read_frame :
      ParseState
      → (prefix : List ℕ) → (prefix_end : ℕ) → (reader : List ℕ) → Outcome JournalError Round
  unfolding frame_length ensure_observed_size accept_frame
  read_frame state prefix prefix_end reader = do
    expected ← frame_length prefix
    let maximum_read = min (limits.max_bytes - prefix_end + 1) (2 ^ 64 - 1)
    let frame = take (min expected maximum_read) reader
    _ ← ensure_observed_size prefix_end (length frame) limits
    (if ltb (length frame) expected
        then ok (ends (record state { trailing_bytes = 4 + length frame }))
        else (accept_frame state frame >>= λ state'.
            ok (goes_on state' (drop (min expected maximum_read) reader))))

  -- `read_prefix`, and the rest of the round.
  unfoldable pub read_round : ParseState → (reader : List ℕ) → Outcome JournalError Round
  unfolding ensure_observed_size read_frame
  read_round state reader =
      let prefix = take 4 reader in
      if length prefix == 0 then ok (ends state) else (do
        prefix_end ← ensure_observed_size state.valid_bytes (length prefix) limits
        (if ltb (length prefix) 4
            then ok (ends (record state { trailing_bytes = length prefix }))
            else read_frame state prefix prefix_end (drop 4 reader)))

  -- The loop of `parse_records`, on fuel.
  unfoldable pub parse_rounds :
      (fuel : ℕ) → ParseState → (reader : List ℕ) → Option (Outcome JournalError ParsedJournal)
  unfolding read_round finish
  parse_rounds zero state reader = none
  parse_rounds (suc fuel) state reader = elim (read_round state reader) [
    | err e ↦ some (err e)
    | ok (ends state') ↦ some (ok (finish state'))
    | ok (goes_on state' reader') ↦ parse_rounds fuel state' reader'
  ]
