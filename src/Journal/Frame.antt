-- ===== src/Journal/Frame.antt =====
-- The frame format of journal.rs and journal/reader.rs: sizes, limits and the hash chain. `Codec` is
-- what they call outside: serde_json on records, and SHA-256 of the canonical bytes of a value.
-- A `usize` has 64 bits.
use baseline_ops.Prelude.{
  ℕ, ◌+◌, ◌*◌, ◌^◌, String, ◌==◌, ◌||◌, not, ltb, leb, if◌then◌else◌, Option, none, some, List, [],
  ◌∷◌, from_le_bytes, Outcome, ok, reject_if, ok_or, map_err, ◌>>=◌, ◌>>◌,
}
use baseline_ops.Domain.Ids.{Digest, DateTime}
use baseline_ops.Domain.Json.{DomainError}
use baseline_ops.Journal.Event.{
  JournalEvent, JournalRecord, JournalError, domain, record_too_large, journal_size_limit_exceeded,
  journal_record_limit_exceeded, sequence_mismatch, previous_hash_mismatch, record_hash_mismatch,
}

pub record Codec : Type 0 where
  -- `canonical_json_bytes(record)`
  pub record_bytes : JournalRecord → Outcome DomainError (List ℕ)
  -- the digest of the canonical bytes of `(sequence, timestamp, previous_hash, payload)`
  pub chain_hash : ℕ → DateTime → Digest → JournalEvent → Outcome DomainError Digest
  -- `Sha256Digest::of_bytes([])`
  pub empty_hash : Digest
  -- `serde_json::from_slice`
  pub parse : List ℕ → Outcome String JournalRecord

-- b"BASELINEOPS-JOURNAL-V2\n"
abbrev pub journal_magic : List ℕ
journal_magic =
    b'B' ∷ b'A' ∷ b'S' ∷ b'E' ∷ b'L' ∷ b'I' ∷ b'N' ∷ b'E' ∷ b'O' ∷ b'P' ∷ b'S' ∷ b'-' ∷ b'J' ∷ b'O'
    ∷ b'U' ∷ b'R' ∷ b'N' ∷ b'A' ∷ b'L' ∷ b'-' ∷ b'V' ∷ b'2' ∷ b'\n' ∷ []

abbrev pub max_record_bytes : ℕ
max_record_bytes = 4 * 1024 * 1024

pub record JournalLimits : Type 0 where
  pub max_bytes : ℕ
  pub max_records : ℕ

pub record JournalSnapshot : Type 0 where
  pub records : List JournalRecord
  pub terminal_hash : Digest

-- `u64::checked_add`
abbrev pub checked_add : ℕ → ℕ → Option ℕ
checked_add a b = if ltb (a + b) (2 ^ 64) then some (a + b) else none

unfoldable pub ensure_size_limit : (bytes : ℕ) → JournalLimits → Outcome JournalError Unit
ensure_size_limit bytes limits =
    reject_if (ltb limits.max_bytes bytes) (journal_size_limit_exceeded limits.max_bytes)

unfoldable pub ensure_record_limit : (sequence : ℕ) → JournalLimits → Outcome JournalError Unit
ensure_record_limit sequence limits =
    reject_if (leb limits.max_records sequence) (journal_record_limit_exceeded limits.max_records)

unfoldable pub frame_size : (record_bytes : ℕ) → Outcome JournalError ℕ
frame_size record_bytes = do
  reject_if (record_bytes == 0 || ltb max_record_bytes record_bytes) record_too_large
  ok (4 + record_bytes)

unfoldable pub frame_length : (prefix : List ℕ) → Outcome JournalError ℕ
frame_length prefix = do
  let length = from_le_bytes prefix
  reject_if (length == 0 || ltb max_record_bytes length) record_too_large
  ok length

unfoldable pub ensure_observed_size :
    (valid_bytes observed_bytes : ℕ) → JournalLimits → Outcome JournalError ℕ
unfolding ensure_size_limit
ensure_observed_size valid_bytes observed_bytes limits = do
  observed_end ←
      ok_or (checked_add valid_bytes observed_bytes) (journal_size_limit_exceeded limits.max_bytes)
  ensure_size_limit observed_end limits
  ok observed_end

module _ (codec : Codec) where
  unfoldable pub journal_record :
      (sequence : ℕ)
      → (previous_hash : Digest) → DateTime
      → JournalEvent
      → Outcome JournalError JournalRecord
  journal_record sequence previous_hash timestamp payload = do
    record_hash ← map_err domain (codec.chain_hash sequence timestamp previous_hash payload)
    ok (record {
      sequence = sequence;
      timestamp = timestamp;
      previous_hash = previous_hash;
      payload = payload;
      record_hash = record_hash;
    })

  unfoldable pub validate_record :
      JournalRecord → (sequence : ℕ) → (previous_hash : Digest) → Outcome JournalError Unit
  validate_record r sequence previous_hash = do
    reject_if (not (r.sequence == sequence)) sequence_mismatch
    reject_if (not (r.previous_hash == previous_hash)) previous_hash_mismatch
    hash ← map_err domain (codec.chain_hash r.sequence r.timestamp r.previous_hash r.payload)
    reject_if (not (hash == r.record_hash)) record_hash_mismatch
