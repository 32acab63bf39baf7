-- ===== src/Journal/Reopen/Session.antt =====
-- A session that ended somehow, and the recovery of its file.
use baseline_ops.Prelude.{
  ℕ, ◌+◌, ◌<◌, length-append, length-take, ◌^◌, ◌≡◌, refl, sym, ◌∙◌, ap, ◌⊎◌, inl, inr, false, List,
  [], ◌∷◌, ◌++◌, length, zero_or_suc, append-nil, take, le-or-lt, ok, arith, >>-eq-ok, >>=-eq-ok,
}
use baseline_ops.Domain.Ids.{DateTime}
use baseline_ops.Journal.Event.{JournalEvent, JournalRecord}
use baseline_ops.Journal.Frame.{Codec, JournalLimits}
use baseline_ops.Journal.Lifecycle.{require_resumable, validate_recovery}
use baseline_ops.Journal.Reader.{ParsedJournal, finish}
use baseline_ops.Journal.Reader.Frames.{frame_of}
use baseline_ops.Journal.Reader.Total.{parse_bytes, read_bytes}
use baseline_ops.Journal.Reader.Whole.{read_bytes-parse_bytes}
use baseline_ops.Journal.Reopen.{
  FileStore, from_snapshot, parse_journal, truncate_incomplete_frame, open_with_limits,
  validate_recover, recover_with_limits,
}
use baseline_ops.Journal.Reopen.Laws.{
  IsWorking, IsWritten-replay, parse_journal_lem, open_with_limits-IsWritten,
}
use baseline_ops.Journal.Reopen.Recover.{
  resumable, recover_with_limits_lem, recover_with_limits-IsTorn,
}
use baseline_ops.Journal.Session.{Decodes, state_of, IsWritten}
use baseline_ops.Journal.Session.Durable.{create_with_limits-eq-ok, append_all-limits}
use baseline_ops.Journal.Session.Reads.{IsWritten-parse_bytes, IsTorn-part, IsTorn-whole}
use baseline_ops.Journal.Session.RoundTrip.{append_all, IsTorn, IsKept, append_all-IsKept}
use baseline_ops.Journal.Writer.{DurableWrite, Journal, create_with_limits}
use baseline_ops.Journal.Writer.Appends.{advanced}
use baseline_ops.Journal.Writer.Storage.{IsStorage}

module _ (codec : Codec) {W : Type 0} (store : FileStore W) (content : W → List ℕ)
    (working : IsWorking store content) where
  -- A usable writer was given back, the file is shorter by what was reported, and it holds the records, and at most one after them.
  pub record IsRecovered (limits : JournalLimits) (records : List JournalRecord) (truncated : ℕ)
      (w : W) : Type 0 where
    pub journal : Journal
    pub w' : W
    pub recovered :
        recover_with_limits codec store limits w
        ≡ (ok (journal, record { truncated_bytes = truncated }), w')
    pub usable : journal.is_unusable ≡ false
    pub dropped : length (content w') + truncated ≡ length (content w)
    pub all : List JournalRecord
    pub reads :
        read_bytes codec limits (content w')
        ≡ ok (record { records = all; terminal_hash = journal.previous_hash })
    pub keeps :
        (all ≡ records)
        ⊎ ((truncated ≡ 0) × (entry : JournalRecord) × (all ≡ records ++ entry ∷ []))

  IsWritten-read_bytes :
      (journal : Journal) (bytes : List ℕ) (records : List JournalRecord)
      → journal.limits.max_bytes < 2 ^ 64
      → IsWritten codec journal bytes records
      → read_bytes codec journal.limits bytes
        ≡ ok (record { records = records; terminal_hash = journal.previous_hash })
  unfolding finish
  IsWritten-read_bytes journal bytes records lt so_far =
      read_bytes-parse_bytes codec journal.limits bytes (finish (state_of journal records))
        (IsWritten-parse_bytes codec journal bytes records lt so_far)

  -- What the checks of a recovery say, where the lifecycle of the records that are read is known.
  validate_recover-eq-ok :
      (limits : JournalLimits) (w : W) (parsed found : ParsedJournal) (journal : Journal)
      (bytes : List ℕ)
      → validate_recover codec store limits w ≡ ok parsed
      → parse_bytes codec limits (content w) ≡ ok found
      → IsWritten codec journal bytes found.snapshot.records
      → (found ≡ parsed) × (validate_recovery journal.lifecycle found.trailing_bytes ≡ ok tt)
  unfolding validate_recover
  validate_recover-eq-ok limits w parsed found journal bytes h is_found so_far =
      let read = parse_journal_lem codec store content working limits w is_found in
      let (first, reads, h1) = >>=-eq-ok (parse_journal codec store limits w) _ h in
      let (lifecycle, replayed, h2) = >>=-eq-ok (from_snapshot first.snapshot) _ h1 in
      let (allowed, h3) = >>-eq-ok (validate_recovery lifecycle first.trailing_bytes) _ h2 in
      let same : found ≡ first = cc (read, reads) in
      let known = IsWritten-replay codec journal bytes found.snapshot.records so_far in
      let replayed' : from_snapshot found.snapshot ≡ ok lifecycle = rw same replayed in
      let same_lifecycle : lifecycle ≡ journal.lifecycle = cc known in
      (same ∙ cc h3, rw (← same_lifecycle, same) allowed)

  truncate-zero :
      (valid_bytes : ℕ) (w : W) → truncate_incomplete_frame store valid_bytes 0 w ≡ (ok tt, w)
  unfolding truncate_incomplete_frame
  truncate-zero valid_bytes w = refl

  whole-IsRecovered :
      (journal : Journal) (records all : List JournalRecord) (parsed : ParsedJournal) (w : W)
      → journal.limits.max_bytes < 2 ^ 64
      → journal.is_unusable ≡ false
      → IsWritten codec journal (content w) all
      → (all ≡ records) ⊎ ((entry : JournalRecord) × (all ≡ records ++ entry ∷ []))
      → validate_recover codec store journal.limits w ≡ ok parsed
      → IsRecovered journal.limits records parsed.trailing_bytes w
  unfolding finish
  whole-IsRecovered journal records all parsed w lt usable so_far keeps checked =
      let found = finish (state_of journal all) in
      let (same, allowed) =
        validate_recover-eq-ok journal.limits w parsed found journal (content w) checked
          (IsWritten-parse_bytes codec journal (content w) all lt so_far) so_far in
      let (w', opened, still) =
        open_with_limits-IsWritten codec store content working journal all w lt usable so_far
          (resumable codec store content working journal.lifecycle 0 allowed) in
      rw (← same) (record {
        journal = journal;
        w' = w';
        recovered =
            recover_with_limits_lem codec store content working journal.limits found w w w' journal
              (rw same checked) (truncate-zero journal.current_bytes w) opened;
        usable = usable;
        dropped = omega (arith, ap (length {A = ℕ}) still);
        all = all;
        reads = IsWritten-read_bytes journal (content w') all lt (rw still so_far);
        keeps = elim keeps [ inl e ↦ inl e | inr (entry, e) ↦ inr (refl, entry, e) ];
      })

  -- What stands behind the whole frames is what was written of the torn one.
  torn_length :
      (journal : Journal) (records : List JournalRecord) (w w' : W)
      (torn : IsTorn codec journal (content w) records)
      → torn.written < length (frame_of torn.p.bytes)
      → content w' ≡ torn.before
      → length (content w') + torn.written ≡ length (content w)
  torn_length journal records w w' torn few now =
      let tail = take torn.written (frame_of torn.p.bytes) in
      omega (
        arith,
        few,
        ap (length {A = ℕ}) now,
        ap (length {A = ℕ}) torn.part,
        length-append torn.before tail,
        length-take torn.written (frame_of torn.p.bytes) (omega (arith, few)),
      )

  torn-IsRecovered :
      (journal : Journal) (records : List JournalRecord) (parsed : ParsedJournal) (w : W)
      (torn : IsTorn codec journal (content w) records)
      → journal.limits.max_bytes < 2 ^ 64
      → torn.written < length (frame_of torn.p.bytes)
      → 0 < torn.written
      → validate_recover codec store journal.limits w ≡ ok parsed
      → IsRecovered journal.limits records parsed.trailing_bytes w
  unfolding finish
  torn-IsRecovered journal records parsed w torn lt few some_bytes checked =
      let found =
        finish (record (state_of torn.earlier records) { trailing_bytes = torn.written }) in
      let (same, allowed) =
        validate_recover-eq-ok journal.limits w parsed found torn.earlier torn.before checked
          (IsTorn-part codec journal (content w) records torn lt few) torn.is_written in
      let limits : journal.limits ≡ torn.earlier.limits = ap (λ (j : Journal). j.limits) torn.now in
      let (w', recovered, now) =
        recover_with_limits-IsTorn codec store content working journal records w torn lt some_bytes
          few allowed in
      let small : torn.earlier.limits.max_bytes < 2 ^ 64 = rw (← limits) lt in
      rw (← same) (record {
        journal = torn.earlier;
        w' = w';
        recovered = recovered;
        usable = torn.is_ready.usable;
        dropped = torn_length journal records w w' torn few now;
        all = records;
        reads =
            rw (limits, now)
              (IsWritten-read_bytes torn.earlier torn.before records small torn.is_written);
        keeps = inl refl;
      })

  nothing_written :
      (journal : Journal) (records : List JournalRecord) (w : W)
      (torn : IsTorn codec journal (content w) records)
      → torn.written ≡ 0
      → content w ≡ torn.before
  nothing_written journal records w torn nothing =
      torn.part
      ∙ ap (λ k. torn.before ++ take k (frame_of torn.p.bytes)) nothing
      ∙ append-nil torn.before

  pub IsKept-IsRecovered :
      Decodes codec
      → (journal : Journal) (records : List JournalRecord) (parsed : ParsedJournal) (w : W)
      → journal.limits.max_bytes < 2 ^ 64
      → IsKept codec journal (content w) records
      → validate_recover codec store journal.limits w ≡ ok parsed
      → IsRecovered journal.limits records parsed.trailing_bytes w
  IsKept-IsRecovered decodes journal records parsed w lt (inl (usable, so_far)) checked =
      whole-IsRecovered journal records records parsed w lt usable so_far (inl refl) checked
  IsKept-IsRecovered decodes journal records parsed w lt (inr torn) checked =
      let limits : journal.limits ≡ torn.earlier.limits = ap (λ (j : Journal). j.limits) torn.now in
      let small : torn.earlier.limits.max_bytes < 2 ^ 64 = rw (← limits) lt in
      elim (le-or-lt (length (frame_of torn.p.bytes)) torn.written) [
        | inl all ↦ rw limits (
            whole-IsRecovered (advanced torn.earlier torn.p) records (records ++ torn.p.entry ∷ [])
              parsed w small refl (IsTorn-whole codec decodes journal (content w) records torn all)
              (inr (torn.p.entry, refl)) (rw (← limits) checked))
        | inr few ↦ elim (zero_or_suc torn.written) [
          | inl nothing ↦ rw limits (
              whole-IsRecovered torn.earlier records records parsed w small torn.is_ready.usable
                (rw (nothing_written journal records w torn nothing) torn.is_written) (inl refl)
                (rw (← limits) checked))
          | inr (k, some_bytes) ↦
              torn-IsRecovered journal records parsed w torn lt few (omega (arith, some_bytes))
                checked
        ]
      ]

-- A journal is created on an empty file and events are appended to it; whichever appends failed,
-- and wherever a write stopped. If the file can then be read, opened, cut and synchronised, and the
-- recovery's checks pass, the recovery succeeds: the number of bytes that it reports is that by
-- which the file became shorter, and it gives back a usable writer, and the file reads back, under
-- that writer's hash, as exactly the records that the appends returned; only where nothing had to
-- be cut off may the record of the write that failed follow them.
pub append_all-IsRecovered :
    (codec : Codec) {W : Type 0} (file : DurableWrite W) (store : FileStore W)
    (content : W → List ℕ) (limits : JournalLimits) (events : List (DateTime × JournalEvent))
    (w w₁ : W) {journal : Journal} {parsed : ParsedJournal}
    → Decodes codec
    → IsStorage file content
    → (working : IsWorking store content) → limits.max_bytes < 2 ^ 64
    → content w ≡ []
    → create_with_limits codec file limits w ≡ (ok journal, w₁)
    → validate_recover codec store limits (append_all codec file events journal w₁).2 ≡ ok parsed
    → IsRecovered codec store content working limits
        (append_all codec file events journal w₁).0
        parsed.trailing_bytes
        (append_all codec file events journal w₁).2
append_all-IsRecovered codec file store content limits events w w₁ {journal} {parsed} decodes
      storage working lt empty created checked =
    let (same, kept) = create_with_limits-eq-ok codec file content storage limits w empty created in
    let r = append_all codec file events journal w₁ in
    let same_limits : r.1.limits ≡ limits =
      append_all-limits codec file content storage events journal w₁
      ∙ ap (λ (j : Journal). j.limits) (sym same) in
    rw (← same_limits) (
      IsKept-IsRecovered codec store content working decodes r.1 r.0 parsed r.2 (rw same_limits lt)
        (append_all-IsKept codec decodes file content storage events journal w₁ [] kept)
        (rw same_limits checked))

IsKept-IsWritten :
    (codec : Codec) (journal : Journal) (bytes : List ℕ) (records : List JournalRecord)
    → journal.is_unusable ≡ false
    → IsKept codec journal bytes records
    → IsWritten codec journal bytes records
IsKept-IsWritten codec journal bytes records usable (inl (_, so_far)) = so_far
IsKept-IsWritten codec journal bytes records usable (inr torn) =
    cc (usable, ap (λ (j : Journal). j.is_unusable) torn.now)

-- A journal is created on an empty file and events are appended to it, some of them refused. If no
-- write failed and no action is left open, opening the file gives back the writer as it is now, so
-- that the next append goes on where it stopped, and leaves the bytes of the file as they are.
pub append_all-open_with_limits :
    (codec : Codec) {W : Type 0} (file : DurableWrite W) (store : FileStore W)
    (content : W → List ℕ) (limits : JournalLimits) (events : List (DateTime × JournalEvent))
    (w w₁ : W) {journal : Journal}
    → Decodes codec
    → IsStorage file content
    → IsWorking store content
    → limits.max_bytes < 2 ^ 64
    → content w ≡ []
    → create_with_limits codec file limits w ≡ (ok journal, w₁)
    → (append_all codec file events journal w₁).1.is_unusable ≡ false
    → require_resumable (append_all codec file events journal w₁).1.lifecycle ≡ ok tt
    → (w' : W) × (open_with_limits codec store limits (append_all codec file events journal w₁).2
        ≡ (ok (append_all codec file events journal w₁).1, w'))
      × (content w' ≡ content (append_all codec file events journal w₁).2)
append_all-open_with_limits codec file store content limits events w w₁ {journal} decodes storage
      working lt empty created usable may =
    let (same, kept) = create_with_limits-eq-ok codec file content storage limits w empty created in
    let r = append_all codec file events journal w₁ in
    let same_limits : r.1.limits ≡ limits =
      append_all-limits codec file content storage events journal w₁
      ∙ ap (λ (j : Journal). j.limits) (sym same) in
    let all = append_all-IsKept codec decodes file content storage events journal w₁ [] kept in
    rw (← same_limits) (
      open_with_limits-IsWritten codec store content working r.1 r.0 r.2 (rw same_limits lt) usable
        (IsKept-IsWritten codec r.1 (content r.2) r.0 usable all) may)
