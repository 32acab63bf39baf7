-- ===== src/Journal/Session/RoundTrip.antt =====
-- Appends that succeed or fail in any order, and what a reader makes of the file they leave.
use baseline_ops.Prelude.{
  ℕ, ◌≤◌, ◌≡◌, refl, ap, ◌⊎◌, inl, inr, true, false, List, [], ◌∷◌, ◌++◌, length, append_assoc,
  append-nil, take, Outcome, ok, err,
}
use baseline_ops.Domain.Ids.{DateTime}
use baseline_ops.Journal.Event.{JournalEvent, JournalRecord, JournalError}
use baseline_ops.Journal.Frame.{Codec}
use baseline_ops.Journal.Reader.Frames.{frame_of}
use baseline_ops.Journal.Session.{Decodes, IsWritten, advanced-IsWritten}
use baseline_ops.Journal.Writer.{DurableWrite, Journal, Prepared, append}
use baseline_ops.Journal.Writer.Steps.{IsReady}
use baseline_ops.Journal.Writer.Storage.{IsStorage}
use baseline_ops.Journal.Writer.Appends.{append-Committed, Committed}

-- The record that an append returned, if it returned one.
abbrev pub returned : Outcome JournalError JournalRecord → List JournalRecord
returned (ok entry) = entry ∷ []
returned (err e) = []

module _ (codec : Codec) {W : Type 0} (file : DurableWrite W) where
  -- A client that appends event after event, whatever the answers are. It keeps the records returned.
  unfoldable pub append_all :
      List (DateTime × JournalEvent) → Journal → W → List JournalRecord × Journal × W
  append_all [] journal w = ([], journal, w)
  append_all ((timestamp, payload) ∷ events) journal w =
      let (answer, journal', w') = append codec file timestamp payload journal w in
      let (records, journal'', w'') = append_all events journal' w' in
      (returned answer ++ records, journal'', w'')

-- A write that failed: the record that it was to write, and how many bytes of its frame are there.
pub record IsTorn (codec : Codec) (journal : Journal) (bytes : List ℕ)
    (records : List JournalRecord) : Type 0 where
  pub earlier : Journal
  pub timestamp : DateTime
  pub payload : JournalEvent
  pub p : Prepared
  pub before : List ℕ
  pub written : ℕ
  pub is_written : IsWritten codec earlier before records
  pub is_ready : IsReady codec earlier timestamp payload p
  pub now : journal ≡ record earlier { is_unusable = true }
  pub not_more : written ≤ length (frame_of p.bytes)
  pub part : bytes ≡ before ++ take written (frame_of p.bytes)

-- All that was returned is in the file, and nothing else but what one failed write left.
abbrev pub IsKept : Codec → Journal → List ℕ → List JournalRecord → Type 0
IsKept codec journal bytes records =
    ((journal.is_unusable ≡ false) × IsWritten codec journal bytes records)
    ⊎ IsTorn codec journal bytes records

module _ (codec : Codec) (decodes : Decodes codec) {W : Type 0} (file : DurableWrite W)
    (content : W → List ℕ) (storage : IsStorage file content) where
  stays :
      (journal journal' : Journal) (w w' : W) (records : List JournalRecord)
      → journal' ≡ journal
      → w' ≡ w
      → IsKept codec journal (content w) records
      → IsKept codec journal' (content w') (records ++ [])
  stays journal journal' w w' records same_journal same_world kept =
      rw (same_journal, same_world, append-nil records) kept

  usable :
      (timestamp : DateTime) (payload : JournalEvent) (journal : Journal) (w : W)
      (records : List JournalRecord) (answer : Outcome JournalError JournalRecord)
      (journal' : Journal) (w' : W)
      → journal.is_unusable ≡ false
      → IsWritten codec journal (content w) records
      → Committed codec file content storage timestamp payload journal w answer journal' w'
      → IsKept codec journal' (content w') (records ++ returned answer)
  usable timestamp payload journal w records (ok entry) journal' w' free so_far
        (p, ready, same_entry, same_journal, wrote) =
      inl (
        rw (← same_journal) refl,
        rw (← same_journal, ← same_entry, wrote)
            (advanced-IsWritten codec decodes journal timestamp payload p (content w) records ready
              so_far),
      )
  usable timestamp payload journal w records (err e) journal' w' free so_far
        (inl (same_journal, same_world)) =
      stays journal journal' w w' records same_journal same_world (inl (free, so_far))
  usable timestamp payload journal w records (err e) journal' w' free so_far
        (inr (p, ready, now, k, le, part)) =
      inr (record {
        earlier = journal;
        timestamp = timestamp;
        payload = payload;
        p = p;
        before = content w;
        written = k;
        is_written = rw (append-nil records) so_far;
        is_ready = ready;
        now = now;
        not_more = le;
        part = part;
      })

  never_usable :
      (journal : Journal) (bytes : List ℕ) (records : List JournalRecord)
      → IsTorn codec journal bytes records
      → ¬ (journal.is_unusable ≡ false)
  never_usable journal bytes records torn free =
      cc (free, ap (λ (j : Journal). j.is_unusable) torn.now)

  unusable :
      (timestamp : DateTime) (payload : JournalEvent) (journal : Journal) (w : W)
      (records : List JournalRecord) (answer : Outcome JournalError JournalRecord)
      (journal' : Journal) (w' : W)
      → IsTorn codec journal (content w) records
      → Committed codec file content storage timestamp payload journal w answer journal' w'
      → IsKept codec journal' (content w') (records ++ returned answer)
  unusable timestamp payload journal w records (ok entry) journal' w' torn (p, ready, _, _, _) =
      absurd (never_usable journal (content w) records torn ready.usable)
  unusable timestamp payload journal w records (err e) journal' w' torn
        (inl (same_journal, same_world)) =
      stays journal journal' w w' records same_journal same_world (inr torn)
  unusable timestamp payload journal w records (err e) journal' w' torn
        (inr (p, ready, _, _, _, _)) =
      absurd (never_usable journal (content w) records torn ready.usable)

  append-IsKept :
      (timestamp : DateTime) (payload : JournalEvent) (journal : Journal) (w : W)
      (records : List JournalRecord)
      → IsKept codec journal (content w) records
      → (let r = append codec file timestamp payload journal w in
          IsKept codec r.1 (content r.2) (records ++ returned r.0))
  append-IsKept timestamp payload journal w records (inl (free, so_far)) =
      usable timestamp payload journal w records _ _ _ free so_far
        (append-Committed codec file content storage timestamp payload journal w)
  append-IsKept timestamp payload journal w records (inr torn) =
      unusable timestamp payload journal w records _ _ _ torn
        (append-Committed codec file content storage timestamp payload journal w)

  pub append_all-IsKept :
      (events : List (DateTime × JournalEvent)) (journal : Journal) (w : W)
      (records : List JournalRecord)
      → IsKept codec journal (content w) records
      → (let r = append_all codec file events journal w in
          IsKept codec r.1 (content r.2) (records ++ r.0))
  unfolding append_all
  append_all-IsKept [] journal w records kept = rw (append-nil records) kept
  append_all-IsKept ((timestamp, payload) ∷ events) journal w records kept =
      let r = append codec file timestamp payload journal w in
      let rest = append_all codec file events r.1 r.2 in
      rw (← append_assoc records (returned r.0) rest.0) (
        append_all-IsKept events r.1 r.2 (records ++ returned r.0)
          (append-IsKept timestamp payload journal w records kept))
