-- ===== src/Journal/Session/Reads.antt =====
-- The bytes that a writer leaves are read back: `read_bytes` and `parse_bytes` after `append_all`.
use baseline_ops.Prelude.{
  ℕ, ◌≤◌, ◌<◌, ◌^◌, ◌≡◌, refl, sym, ◌∙◌, ap, ◌⊎◌, inl, inr, List, [], ◌∷◌, ◌++◌, length,
  append_assoc, append-nil, take, take_all, length-take, ok, arith, le-or-lt,
}
use baseline_ops.Journal.Event.{JournalRecord}
use baseline_ops.Journal.Frame.{Codec, JournalLimits, journal_magic}
use baseline_ops.Journal.Reader.{ParseState, ParsedJournal, finish, read_round, ends}
use baseline_ops.Journal.Reader.Frames.{frame_of, frames_of, read_round-torn}
use baseline_ops.Journal.Reader.Total.{parse_bytes}
use baseline_ops.Journal.Reader.Whole.{parse_bytes-frames}
use baseline_ops.Journal.Session.{Decodes, state_of, IsWritten, advanced-IsWritten}
use baseline_ops.Journal.Session.RoundTrip.{IsTorn}
use baseline_ops.Journal.Writer.{Journal}
use baseline_ops.Journal.Writer.Appends.{advanced}

module _ (codec : Codec) where
  read_round-nothing :
      (limits : JournalLimits) (state : ParseState)
      → read_round codec limits state [] ≡ ok (ends state)
  unfolding read_round
  read_round-nothing limits state = refl

  pub IsWritten-parse_bytes :
      (journal : Journal) (bytes : List ℕ) (records : List JournalRecord)
      → journal.limits.max_bytes < 2 ^ 64
      → IsWritten codec journal bytes records
      → parse_bytes codec journal.limits bytes ≡ ok (finish (state_of journal records))
  IsWritten-parse_bytes journal bytes records lt so_far =
      let laid : bytes ≡ journal_magic ++ (frames_of so_far.frames ++ []) =
        so_far.laid_out
        ∙ ap (λ fs. journal_magic ++ fs) (sym (append-nil (frames_of so_far.frames))) in
      rw laid (
        parse_bytes-frames codec journal.limits so_far.frames [] so_far.sizes
          (omega (arith, so_far.counted, so_far.within)) lt so_far.accepted
          (read_round-nothing journal.limits (state_of journal records)))

  -- What a parse may find after a failed write.
  pub record IsFound (journal : Journal) (bytes : List ℕ) (records : List JournalRecord)
      : Type 0 where
    pub parsed : ParsedJournal
    pub is_parsed : parse_bytes codec journal.limits bytes ≡ ok parsed
    pub keeps :
        (parsed.snapshot.records ≡ records)
        ⊎ ((entry : JournalRecord) × (parsed.snapshot.records ≡ records ++ entry ∷ []))

  pub IsTorn-part :
      (journal : Journal) (bytes : List ℕ) (records : List JournalRecord)
      (torn : IsTorn codec journal bytes records)
      → journal.limits.max_bytes < 2 ^ 64
      → torn.written < length (frame_of torn.p.bytes)
      → parse_bytes codec journal.limits bytes
        ≡ ok (finish (record (state_of torn.earlier records) { trailing_bytes = torn.written }))
  IsTorn-part journal bytes records torn lt few =
      let so_far = torn.is_written in
      let ready = torn.is_ready in
      let limits = torn.earlier.limits in
      let tail = take torn.written (frame_of torn.p.bytes) in
      let short : length tail ≡ torn.written =
        length-take torn.written (frame_of torn.p.bytes) torn.not_more in
      let same : journal.limits ≡ limits = ap (λ (j : Journal). j.limits) torn.now in
      let small : limits.max_bytes < 2 ^ 64 = rw (← same) lt in
      let laid : bytes ≡ journal_magic ++ (frames_of so_far.frames ++ tail) =
        torn.part
        ∙ ap (λ bs. bs ++ tail) so_far.laid_out
        ∙ append_assoc journal_magic (frames_of so_far.frames) tail in
      rw (laid, same)
        (parse_bytes-frames codec limits so_far.frames tail so_far.sizes
          (omega (arith, so_far.counted, ready.within, ready.ends_at, short, few)) small
          so_far.accepted
          (read_round-torn codec limits (state_of torn.earlier records) torn.p.bytes torn.written
            ready.size (omega (arith, few)) (omega (arith, ready.within, ready.ends_at, few)) small
            refl))

  pub IsTorn-whole :
      Decodes codec
      → (journal : Journal) (bytes : List ℕ) (records : List JournalRecord)
        (torn : IsTorn codec journal bytes records)
      → length (frame_of torn.p.bytes) ≤ torn.written
      → IsWritten codec (advanced torn.earlier torn.p) bytes (records ++ torn.p.entry ∷ [])
  IsTorn-whole decodes journal bytes records torn all =
      let whole : take torn.written (frame_of torn.p.bytes) ≡ frame_of torn.p.bytes =
        take_all torn.written (frame_of torn.p.bytes) all in
      let laid : bytes ≡ torn.before ++ frame_of torn.p.bytes =
        torn.part ∙ ap (λ tail. torn.before ++ tail) whole in
      rw laid (
        advanced-IsWritten codec decodes torn.earlier torn.timestamp torn.payload torn.p torn.before
          records torn.is_ready torn.is_written)

  pub IsTorn-IsFound :
      Decodes codec
      → (journal : Journal) (bytes : List ℕ) (records : List JournalRecord)
      → journal.limits.max_bytes < 2 ^ 64
      → IsTorn codec journal bytes records
      → IsFound journal bytes records
  unfolding finish
  IsTorn-IsFound decodes journal bytes records lt torn =
      elim (le-or-lt (length (frame_of torn.p.bytes)) torn.written) [
        | inr few ↦ record {
          parsed =
              finish (record (state_of torn.earlier records) { trailing_bytes = torn.written });
          is_parsed = IsTorn-part journal bytes records torn lt few;
          keeps = inl refl;
        }
        | inl all ↦
            let same : journal.limits ≡ torn.earlier.limits =
              ap (λ (j : Journal). j.limits) torn.now in
            let small : torn.earlier.limits.max_bytes < 2 ^ 64 = rw (← same) lt in
            record {
              parsed =
                  finish (state_of (advanced torn.earlier torn.p) (records ++ torn.p.entry ∷ []));
              is_parsed = rw same (
                  IsWritten-parse_bytes (advanced torn.earlier torn.p) bytes
                    (records ++ torn.p.entry ∷ []) small
                    (IsTorn-whole decodes journal bytes records torn all));
              keeps = inr (torn.p.entry, refl);
            }
      ]
