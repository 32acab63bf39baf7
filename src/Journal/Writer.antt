-- ===== src/Journal/Writer.antt =====
-- The writer of journal.rs: `initialize` and `append`. The file is a `DurableWrite` over a state of
-- the world; the journal's path, which only names it, is left out.
pub mod Steps
pub mod Storage
pub mod Appends
use baseline_ops.Prelude.{
  ℕ, ◌+◌, ◌^◌, String, Bool, true, false, ltb, if◌then◌else◌, Option, none, some, List, length,
  to_le_bytes, Outcome, ok, err, reject_if, ok_or, map_err, ◌>>=◌, ◌>>◌,
}
use baseline_ops.Domain.Ids.{Digest, DateTime}
use baseline_ops.Journal.Event.{
  JournalEvent, JournalRecord, JournalError, domain, io, write_failed, record_too_large,
  sequence_overflow, journal_size_limit_exceeded,
}
use baseline_ops.Journal.Lifecycle.{Lifecycle, new_lifecycle, validate, accept}
use baseline_ops.Journal.Frame.{
  Codec, JournalLimits, journal_magic, checked_add, ensure_size_limit, ensure_record_limit,
  frame_size, journal_record,
}

pub record DurableWrite (W : Type 0) : Type 0 where
  pub write_all : List ℕ → W → Outcome String (Unit {0}) × W
  pub flush : W → Outcome String (Unit {0}) × W
  pub synchronize : W → Outcome String (Unit {0}) × W

pub record Journal : Type 0 where
  pub next_sequence : ℕ
  pub previous_hash : Digest
  pub current_bytes : ℕ
  pub limits : JournalLimits
  pub lifecycle : Lifecycle
  pub is_unusable : Bool

-- `call?; next`
abbrev pub after_io :
    {W : Type 0}
    → Outcome String (Unit {0}) × W
    → (W → Outcome JournalError (Unit {0}) × W)
    → Outcome JournalError (Unit {0}) × W
after_io (err e, w) next = (err (io e), w)
after_io (ok u, w) next = next w

-- What `append` has checked and made before it writes.
pub record Prepared : Type 0 where
  pub entry : JournalRecord
  pub bytes : List ℕ
  pub next_bytes : ℕ
  pub following : ℕ

module _ (codec : Codec) where
  unfoldable pub next_frame_end : Journal → (length : ℕ) → Outcome JournalError ℕ
  unfolding frame_size ensure_size_limit
  next_frame_end journal length = do
    frame_bytes ← frame_size length
    next_bytes ←
        ok_or (checked_add journal.current_bytes frame_bytes)
          (journal_size_limit_exceeded journal.limits.max_bytes)
    ensure_size_limit next_bytes journal.limits
    ok next_bytes

  -- `append` and `write_next_record`, up to the write.
  unfoldable pub prepare : Journal → DateTime → JournalEvent → Outcome JournalError Prepared
  unfolding next_frame_end ensure_record_limit journal_record validate
  prepare journal timestamp payload = do
    reject_if journal.is_unusable write_failed
    ensure_record_limit journal.next_sequence journal.limits
    following ← ok_or (checked_add journal.next_sequence 1) sequence_overflow
    entry ← journal_record codec journal.next_sequence journal.previous_hash timestamp payload
    bytes ← map_err domain (codec.record_bytes entry)
    next_bytes ← next_frame_end journal (length bytes)
    validate journal.lifecycle entry.payload
    ok (record { entry = entry; bytes = bytes; next_bytes = next_bytes; following = following })

  module _ {W : Type 0} (file : DurableWrite W) where
    unfoldable pub write_record : List ℕ → W → Outcome JournalError (Unit {0}) × W
    write_record bytes w =
        if ltb (length bytes) (2 ^ 32)
        then (after_io (file.write_all (to_le_bytes (length bytes)) w) λ w₁.
            after_io (file.write_all bytes w₁)
              λ w₂. after_io (file.flush w₂) λ w₃. after_io (file.synchronize w₃) λ w₄. (ok tt, w₄))
        else (err record_too_large, w)

    -- `write_durable_record`, with the flag that it leaves set when the write fails.
    unfoldable pub write_durable_record :
        (is_unusable : Bool) → List ℕ → W → Outcome JournalError (Unit {0}) × Bool × W
    unfolding write_record
    write_durable_record true bytes w = (err write_failed, true, w)
    write_durable_record false bytes w =
        let (answer, w') = write_record bytes w in
        elim answer [ ok _ ↦ (ok tt, false, w') | err e ↦ (err e, true, w') ]

    -- the rest of `append`, from the write on
    unfoldable pub commit :
        Journal → Prepared → W → Outcome JournalError JournalRecord × Journal × W
    unfolding write_durable_record accept
    commit journal p w =
        let (answer, is_unusable, w') = write_durable_record journal.is_unusable p.bytes w in
        elim answer [
          | err e ↦ (err e, record journal { is_unusable = is_unusable }, w')
          | ok _ ↦ (
            ok p.entry,
            record {
              next_sequence = p.following;
              previous_hash = p.entry.record_hash;
              current_bytes = p.next_bytes;
              limits = journal.limits;
              lifecycle = accept journal.lifecycle p.entry.payload;
              is_unusable = is_unusable;
            },
            w',
          )
        ]

    unfoldable pub append :
        DateTime → JournalEvent → Journal → W → Outcome JournalError JournalRecord × Journal × W
    unfolding prepare commit
    append timestamp payload journal w = elim (prepare journal timestamp payload) [
      | err e ↦ (err e, journal, w)
      | ok p ↦ commit journal p w
    ]

    -- `initialize` on a file that was created empty.
    unfoldable pub initialize : JournalLimits → W → Outcome JournalError Journal × W
    initialize limits w =
        let (answer, w') =
          after_io (file.write_all journal_magic w)
            λ w₁. after_io (file.synchronize w₁) λ w₂. (ok tt, w₂) in
        elim answer [
          | err e ↦ (err e, w')
          | ok _ ↦ (
            ok (record {
              next_sequence = 0;
              previous_hash = codec.empty_hash;
              current_bytes = length journal_magic;
              limits = limits;
              lifecycle = new_lifecycle;
              is_unusable = false;
            }),
            w',
          )
        ]

    -- `create_with_limits`, once the file is there. The size is looked at before it is created.
    unfoldable pub create_with_limits : JournalLimits → W → Outcome JournalError Journal × W
    unfolding ensure_size_limit initialize
    create_with_limits limits w = elim (ensure_size_limit (length journal_magic) limits) [
      | err e ↦ (err e, w)
      | ok _ ↦ initialize limits w
    ]
