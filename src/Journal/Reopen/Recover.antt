-- ===== src/Journal/Reopen/Recover.antt =====
-- `recover_with_limits` after a write that failed.
use baseline_ops.Prelude.{
  ℕ, ◌+◌, ◌<◌, ◌^◌, ◌≡◌, refl, sym, ◌∙◌, ap, ◌==◌, ◌&&◌, not, List, ◌++◌, length, length-append,
  take, take-append, Outcome, ok, err, reject_if, arith, >>-eq-ok,
}
use baseline_ops.Journal.Event.{JournalRecord, JournalError, invalid_lifecycle}
use baseline_ops.Journal.Frame.{Codec, JournalLimits, journal_magic}
use baseline_ops.Journal.Lifecycle.{Lifecycle, require_resumable, validate_recovery}
use baseline_ops.Journal.Reader.{ParsedJournal, finish}
use baseline_ops.Journal.Reader.Frames.{frames_of, frame_of}
use baseline_ops.Journal.Reader.Total.{parse_bytes}
use baseline_ops.Journal.Reopen.{
  FileStore, JournalRecovery, open_with_limits, truncate_incomplete_frame, validate_recover,
  recover_open, recover_with_limits,
}
use baseline_ops.Journal.Reopen.Laws.{
  IsWorking, IsWritten-replay, parse_journal_lem, open_with_limits-IsWritten, truncate_lem,
}
use baseline_ops.Journal.Session.{state_of, IsWritten}
use baseline_ops.Journal.Session.Reads.{IsTorn-part}
use baseline_ops.Journal.Session.RoundTrip.{IsTorn}
use baseline_ops.Journal.Writer.{Journal}

module _ (codec : Codec) {W : Type 0} (store : FileStore W) (content : W → List ℕ)
    (working : IsWorking store content) where
  -- What the checks before a recovery look at, for a parse of which the records are known.
  validate_recover_lem :
      (limits : JournalLimits) (w : W) (parsed : ParsedJournal) (journal : Journal) (bytes : List ℕ)
      → parse_bytes codec limits (content w) ≡ ok parsed
      → IsWritten codec journal bytes parsed.snapshot.records
      → validate_recovery journal.lifecycle parsed.trailing_bytes ≡ ok tt
      → validate_recover codec store limits w ≡ ok parsed
  unfolding validate_recover
  validate_recover_lem limits w parsed journal bytes h so_far allowed =
      rw
        (
          parse_journal_lem codec store content working limits w h,
          IsWritten-replay codec journal bytes parsed.snapshot.records so_far,
          allowed,
        )
        refl

  pub resumable :
      (state : Lifecycle) (n : ℕ)
      → validate_recovery state n ≡ ok tt
      → require_resumable state ≡ ok tt
  unfolding validate_recovery
  resumable state n h =
      (>>-eq-ok
        (reject_if (state.finished && not (n == 0))
          (invalid_lifecycle "bytes cannot follow run completion"))
        _ h).1

  recover_open_lem :
      (limits : JournalLimits) (n : ℕ) (w₁ w₂ : W) (journal : Journal)
      → open_with_limits codec store limits w₁ ≡ (ok journal, w₂)
      → recover_open codec store limits n (ok tt, w₁)
        ≡ (ok (journal, record { truncated_bytes = n }), w₂)
  unfolding recover_open
  recover_open_lem limits n w₁ w₂ journal h =
      ap
        (λ (s : Outcome JournalError Journal × W).
          elim s.0 as (λ x. Outcome JournalError (Journal × JournalRecovery) × W) [
            | err e ↦ (err e, s.1)
            | ok j ↦ (ok (j, record { truncated_bytes = n }), s.1)
          ])
        h

  pub recover_with_limits_lem :
      (limits : JournalLimits) (parsed : ParsedJournal) (w w₁ w₂ : W) (journal : Journal)
      → validate_recover codec store limits w ≡ ok parsed
      → truncate_incomplete_frame store parsed.valid_bytes parsed.trailing_bytes w ≡ (ok tt, w₁)
      → open_with_limits codec store limits w₁ ≡ (ok journal, w₂)
      → recover_with_limits codec store limits w
        ≡ (ok (journal, record { truncated_bytes = parsed.trailing_bytes }), w₂)
  unfolding recover_with_limits
  recover_with_limits_lem limits parsed w w₁ w₂ journal checked cut opened =
      rw (recover_with_limits, checked)
        (ap (recover_open codec store limits parsed.trailing_bytes) cut
          ∙ recover_open_lem limits parsed.trailing_bytes w₁ w₂ journal opened)

  -- A write stopped inside a frame, and no action is open and the run is not over. The recovery cuts
  -- off just the bytes of that frame, reports how many, and gives back the writer as it was before
  -- the write; the file is again what it was then.
  pub recover_with_limits-IsTorn :
      (journal : Journal) (records : List JournalRecord) (w : W)
      (torn : IsTorn codec journal (content w) records)
      → journal.limits.max_bytes < 2 ^ 64
      → 0 < torn.written
      → torn.written < length (frame_of torn.p.bytes)
      → validate_recovery torn.earlier.lifecycle torn.written ≡ ok tt
      → (w' : W) × (recover_with_limits codec store journal.limits w
          ≡ (ok (torn.earlier, record { truncated_bytes = torn.written }), w'))
        × (content w' ≡ torn.before)
  unfolding finish
  recover_with_limits-IsTorn journal records w torn lt some_bytes few allowed =
      let so_far = torn.is_written in
      let limits = torn.earlier.limits in
      let same : journal.limits ≡ limits = ap (λ (j : Journal). j.limits) torn.now in
      let small : limits.max_bytes < 2 ^ 64 = rw (← same) lt in
      let valid = torn.earlier.current_bytes in
      let tail = take torn.written (frame_of torn.p.bytes) in
      let long : length torn.before ≡ valid =
        ap (length {A = ℕ}) so_far.laid_out
        ∙ length-append journal_magic (frames_of so_far.frames)
        ∙ sym so_far.counted in
      let all : length (content w) ≡ length torn.before + length tail =
        ap (length {A = ℕ}) torn.part ∙ length-append torn.before tail in
      let (w₁, cut, left) =
        truncate_lem codec store content working valid torn.written w some_bytes
          (omega (arith, all, long)) in
      let kept : content w₁ ≡ torn.before =
        left
        ∙ ap (take valid) torn.part
        ∙ ap (λ n. take n (torn.before ++ tail)) (sym long)
        ∙ take-append torn.before tail in
      let (w₂, opened, still) =
        open_with_limits-IsWritten codec store content working torn.earlier records w₁ small
          torn.is_ready.usable (rw kept so_far)
          (resumable torn.earlier.lifecycle torn.written allowed) in
      let parsed =
        finish (record (state_of torn.earlier records) { trailing_bytes = torn.written }) in
      let checked =
        validate_recover_lem limits w parsed torn.earlier torn.before
          (rw (← same) (IsTorn-part codec journal (content w) records torn lt few)) so_far
          allowed in
      (
        w₂,
        rw same (recover_with_limits_lem limits parsed w w₁ w₂ torn.earlier checked cut opened),
        still ∙ kept,
      )
