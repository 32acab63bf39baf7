-- ===== src/Journal/Reader/Accepts.antt =====
-- What `journal_record` makes for the state of a reader, in the bytes of its frame.
use baseline_ops.Prelude.{
  ℕ, ◌+◌, ◌≡◌, refl, ==_refl, true, List, [], ◌∷◌, ◌++◌, length, ok, ok_or, map_err, >>=-eq-ok,
  map_err-eq-ok,
}
use baseline_ops.Domain.Ids.{Digest, DateTime}
use baseline_ops.Journal.Event.{JournalEvent, JournalRecord, domain, sequence_overflow}
use baseline_ops.Journal.Lifecycle.{validate, accept}
use baseline_ops.Journal.Frame.{
  Codec, JournalLimits, checked_add, ensure_record_limit, journal_record, validate_record,
}
use baseline_ops.Journal.Reader.{ParseState, equal_bytes, parse_record, push_record, accept_frame}

equal_bytes_refl : (bytes : List ℕ) → equal_bytes bytes bytes ≡ true
unfolding equal_bytes
equal_bytes_refl [] = refl
equal_bytes_refl (b ∷ bytes) = rw (==_refl b) (equal_bytes_refl bytes)

module _ (codec : Codec) where
  -- The record that the writer makes holds what it was made of and the hash of that.
  pub journal_record-eq-ok :
      (sequence : ℕ) (previous_hash : Digest) (timestamp : DateTime) (payload : JournalEvent)
      {entry : JournalRecord}
      → journal_record codec sequence previous_hash timestamp payload ≡ ok entry
      → (codec.chain_hash sequence timestamp previous_hash payload ≡ ok entry.record_hash)
        × (record {
          sequence = sequence;
          timestamp = timestamp;
          previous_hash = previous_hash;
          payload = payload;
          record_hash = entry.record_hash;
        }
            ≡ entry)
  unfolding journal_record
  journal_record-eq-ok sequence previous_hash timestamp payload {entry} h =
      let (hash, hashed, made) =
        >>=-eq-ok (map_err domain (codec.chain_hash sequence timestamp previous_hash payload)) _
          h in
      let r : JournalRecord = record {
        sequence = sequence;
        timestamp = timestamp;
        previous_hash = previous_hash;
        payload = payload;
        record_hash = hash;
      } in
      let same : r ≡ entry = cc made in rw (← same) (map_err-eq-ok domain _ hashed, refl)

  validate_record-journal_record :
      (sequence : ℕ) (previous_hash : Digest) (timestamp : DateTime) (payload : JournalEvent)
      {entry : JournalRecord}
      → journal_record codec sequence previous_hash timestamp payload ≡ ok entry
      → validate_record codec entry sequence previous_hash ≡ ok tt
  unfolding validate_record
  validate_record-journal_record sequence previous_hash timestamp payload {entry} h =
      let (hashed, same) = journal_record-eq-ok sequence previous_hash timestamp payload h in
      rw (← same)
        (rw (==_refl sequence, hashed, ==_refl previous_hash, ==_refl entry.record_hash) refl)

  module _ (limits : JournalLimits) where
    abbrev pub pushed : ParseState → JournalRecord → (length following : ℕ) → ParseState
    pushed state entry length following = record {
      records = state.records ++ entry ∷ [];
      previous_hash = entry.record_hash;
      next_sequence = following;
      valid_bytes = state.valid_bytes + (4 + length);
      trailing_bytes = state.trailing_bytes;
      lifecycle = accept state.lifecycle entry.payload;
    }

    pub accept_frame-journal_record :
        (state : ParseState) (timestamp : DateTime) (payload : JournalEvent) {entry : JournalRecord}
        {bytes : List ℕ} {following : ℕ}
        → ensure_record_limit state.next_sequence limits ≡ ok tt
        → ok_or (checked_add state.next_sequence 1) sequence_overflow ≡ ok following
        → journal_record codec state.next_sequence state.previous_hash timestamp payload ≡ ok entry
        → codec.record_bytes entry ≡ ok bytes
        → codec.parse bytes ≡ ok entry
        → validate state.lifecycle entry.payload ≡ ok tt
        → accept_frame codec limits state bytes ≡ ok (pushed state entry (length bytes) following)
    unfolding accept_frame parse_record push_record
    accept_frame-journal_record state timestamp payload {entry} {bytes} room next made encoded
          parsed fits =
        rw
          (
            room,
            parsed,
            encoded,
            equal_bytes_refl bytes,
            validate_record-journal_record state.next_sequence state.previous_hash timestamp payload
                made,
            fits,
            next,
          )
          refl
