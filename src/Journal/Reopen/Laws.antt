-- ===== src/Journal/Reopen/Laws.antt =====
-- A journal that was written is opened as the writer left it; after a failed write it is recovered.
use baseline_ops.Prelude.{
  ℕ, ◌≤◌, ◌<◌, ◌^◌, ◌≡◌, refl, sym, ◌∙◌, ap, ◌==◌, String, false, List, length, take, Outcome, ok,
  err, arith,
}
use baseline_ops.Journal.Event.{JournalRecord, JournalError, io}
use baseline_ops.Journal.Frame.{Codec, JournalLimits}
use baseline_ops.Journal.Lifecycle.{new_lifecycle, replay, require_resumable}
use baseline_ops.Journal.Reader.{ParsedJournal, finish, new_state}
use baseline_ops.Journal.Reader.Replay.{payloads, accept_all-IsReplayed}
use baseline_ops.Journal.Reader.Total.{parse_bytes}
use baseline_ops.Journal.Reopen.{
  FileStore, parse_journal, complete_parse, validate_open, open_with_limits,
  truncate_incomplete_frame,
}
use baseline_ops.Journal.Session.{IsWritten}
use baseline_ops.Journal.Session.Reads.{IsWritten-parse_bytes}
use baseline_ops.Journal.Writer.{Journal}

-- A file that is there and whose operations succeed. It is only ever made shorter.
pub record IsWorking {W : Type 0} (store : FileStore W) (content : W → List ℕ) : Type 0 where
  pub reads : (w : W) → store.read w ≡ ok (content w)
  pub opens_write :
      (w : W) → (w' : W) × (store.open_write w ≡ (ok tt, w')) × (content w' ≡ content w)
  pub opens_append :
      (w : W) → (w' : W) × (store.open_append w ≡ (ok tt, w')) × (content w' ≡ content w)
  pub sets_len :
      (n : ℕ) (w : W)
      → n ≤ length (content w)
      → (w' : W) × (store.set_len n w ≡ (ok tt, w')) × (content w' ≡ take n (content w))
  pub syncs : (w : W) → (w' : W) × (store.sync_all w ≡ (ok tt, w')) × (content w' ≡ content w)

module _ (codec : Codec) where
  pub IsWritten-replay :
      (journal : Journal) (bytes : List ℕ) (records : List JournalRecord)
      → IsWritten codec journal bytes records
      → replay new_lifecycle (payloads records) ≡ ok journal.lifecycle
  unfolding replay
  IsWritten-replay journal bytes records so_far =
      accept_all-IsReplayed codec journal.limits (new_state codec journal.limits) so_far.frames
        so_far.accepted refl

  module _ {W : Type 0} (store : FileStore W) (content : W → List ℕ)
      (working : IsWorking store content) where
    pub parse_journal_lem :
        (limits : JournalLimits) (w : W) {parsed : ParsedJournal}
        → parse_bytes codec limits (content w) ≡ ok parsed
        → parse_journal codec store limits w ≡ ok parsed
    unfolding parse_journal
    parse_journal_lem limits w h = rw (parse_journal, working.reads w) h

    validate_open-IsWritten :
        (journal : Journal) (records : List JournalRecord) (w : W)
        → journal.limits.max_bytes < 2 ^ 64
        → journal.is_unusable ≡ false
        → IsWritten codec journal (content w) records
        → require_resumable journal.lifecycle ≡ ok tt
        → validate_open codec store journal.limits w ≡ ok journal
    unfolding validate_open complete_parse finish
    validate_open-IsWritten journal records w lt usable so_far resumable =
        rw
          (
            parse_journal_lem journal.limits w
                (IsWritten-parse_bytes codec journal (content w) records lt so_far),
            IsWritten-replay journal (content w) records so_far,
            resumable,
          )
          (ap (λ b. ok (record journal { is_unusable = b })) (sym usable))

    abbrev opened : Journal → Outcome String (Unit {0}) × W → Outcome JournalError Journal × W
    opened journal s = elim s.0 [ err e ↦ (err (io e), s.1) | ok _ ↦ (ok journal, s.1) ]

    -- A journal whose records are all in the file, and whose lifecycle may go on, is opened as the
    -- writer that wrote it, so the next append goes on where it stopped. The file is left as it was.
    pub open_with_limits-IsWritten :
        (journal : Journal) (records : List JournalRecord) (w : W)
        → journal.limits.max_bytes < 2 ^ 64
        → journal.is_unusable ≡ false
        → IsWritten codec journal (content w) records
        → require_resumable journal.lifecycle ≡ ok tt
        → (w' : W) × (open_with_limits codec store journal.limits w ≡ (ok journal, w'))
          × (content w' ≡ content w)
    unfolding open_with_limits
    open_with_limits-IsWritten journal records w lt usable so_far resumable =
        let (w', now, same) = working.opens_append w in
        (
          w',
          rw
              (
                open_with_limits,
                validate_open-IsWritten journal records w lt usable so_far resumable,
              )
              (ap (opened journal) now),
          same,
        )

    pub truncate_lem :
        (valid_bytes trailing_bytes : ℕ) (w : W)
        → 0 < trailing_bytes
        → valid_bytes ≤ length (content w)
        → (w' : W) × (truncate_incomplete_frame store valid_bytes trailing_bytes w ≡ (ok tt, w'))
          × (content w' ≡ take valid_bytes (content w))
    unfolding truncate_incomplete_frame
    truncate_lem valid_bytes trailing_bytes w some_bytes le =
        let (w₁, opened, same₁) = working.opens_write w in
        let (w₂, cut, now) = working.sets_len valid_bytes w₁ (rw same₁ le) in
        let (w₃, synced, same₃) = working.syncs w₂ in
        let not_zero : (trailing_bytes == 0) ≡ false = ground (arith, some_bytes) in
        (
          w₃,
          rw (truncate_incomplete_frame, not_zero, opened, cut, synced) refl,
          same₃ ∙ now ∙ ap (take valid_bytes) same₁,
        )
