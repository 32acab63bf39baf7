-- ===== src/Journal/Writer/Appends.antt =====
-- The ways in which `append` ends.
use baseline_ops.Prelude.{
  ℕ, ◌≤◌, ◌≡◌, refl, ap, ◌⊎◌, inl, inr, Bool, true, false, List, ◌++◌, length, take, Outcome, ok,
  err,
}
use baseline_ops.Domain.Ids.{DateTime}
use baseline_ops.Journal.Event.{JournalEvent, JournalRecord, JournalError}
use baseline_ops.Journal.Lifecycle.{accept}
use baseline_ops.Journal.Frame.{Codec}
use baseline_ops.Journal.Reader.Frames.{frame_of}
use baseline_ops.Journal.Writer.{
  DurableWrite, Journal, Prepared, prepare, write_record, write_durable_record, commit, append,
}
use baseline_ops.Journal.Writer.Steps.{IsReady, prepare-IsReady}
use baseline_ops.Journal.Writer.Storage.{IsStorage, Wrote, write_record-Wrote}

-- The writer once a record is in the file.
abbrev pub advanced : Journal → Prepared → Journal
advanced journal p = record {
  next_sequence = p.following;
  previous_hash = p.entry.record_hash;
  current_bytes = p.next_bytes;
  limits = journal.limits;
  lifecycle = accept journal.lifecycle p.entry.payload;
  is_unusable = false;
}

module _ (codec : Codec) {W : Type 0} (file : DurableWrite W) (content : W → List ℕ)
    (storage : IsStorage file content) where
  -- The flag that the write leaves, and the writer that its answer leaves.
  abbrev flagged : Outcome JournalError (Unit {0}) × W → Outcome JournalError (Unit {0}) × Bool × W
  flagged s = elim s.0 [ ok _ ↦ (ok tt, false, s.1) | err e ↦ (err e, true, s.1) ]

  abbrev answered :
      Journal
      → Prepared
      → Outcome JournalError (Unit {0}) × Bool × W
      → Outcome JournalError JournalRecord × Journal × W
  answered journal p r = elim r.0 [
    | err e ↦ (err e, record journal { is_unusable = r.1 }, r.2)
    | ok _ ↦ (ok p.entry, record (advanced journal p) { is_unusable = r.1 }, r.2)
  ]

  durable-write_record :
      (is_unusable : Bool) (bytes : List ℕ) (w : W) {s : Outcome JournalError (Unit {0}) × W}
      → is_unusable ≡ false
      → write_record codec file bytes w ≡ s
      → write_durable_record codec file is_unusable bytes w ≡ flagged s
  unfolding write_durable_record
  durable-write_record true bytes w usable h = absurd (cc usable)
  durable-write_record false bytes w usable h = ap flagged h

  commit-write_record :
      (journal : Journal) (p : Prepared) (w : W) {s : Outcome JournalError (Unit {0}) × W}
      → journal.is_unusable ≡ false
      → write_record codec file p.bytes w ≡ s
      → commit codec file journal p w ≡ answered journal p (flagged s)
  unfolding commit
  commit-write_record journal p w usable h =
      ap (answered journal p) (durable-write_record journal.is_unusable p.bytes w usable h)

  abbrev pub Committed :
      DateTime
      → JournalEvent
      → Journal
      → W
      → Outcome JournalError JournalRecord
      → Journal
      → W
      → Type 0
  Committed timestamp payload journal w (ok entry) journal' w' =
      (p : Prepared) × IsReady codec journal timestamp payload p
      × (p.entry ≡ entry)
      × (advanced journal p ≡ journal')
      × (content w' ≡ content w ++ frame_of p.bytes)
  Committed timestamp payload journal w (err e) journal' w' =
      ((journal' ≡ journal) × (w' ≡ w))
      ⊎ ((p : Prepared) × IsReady codec journal timestamp payload p
          × (journal' ≡ record journal { is_unusable = true })
          × (k : ℕ) × (k ≤ length (frame_of p.bytes))
          × (content w' ≡ content w ++ take k (frame_of p.bytes)))

  written :
      (timestamp : DateTime) (payload : JournalEvent) (journal : Journal) (w : W) (p : Prepared)
      (s : Outcome JournalError (Unit {0}) × W)
      → IsReady codec journal timestamp payload p
      → write_record codec file p.bytes w ≡ s
      → Wrote file content storage w (frame_of p.bytes) s.0 s.1
      → (let r = commit codec file journal p w in Committed timestamp payload journal w r.0 r.1 r.2)
  written timestamp payload journal w p (ok u, w') ready e wrote =
      rw (commit-write_record journal p w ready.usable e) (p, ready, refl, refl, wrote)
  written timestamp payload journal w p (err failure, w') ready e (k, le, wrote) =
      rw (commit-write_record journal p w ready.usable e) (inr (p, ready, refl, k, le, wrote))

  append-prepared :
      (timestamp : DateTime) (payload : JournalEvent) (journal : Journal) (w : W)
      (m : Outcome JournalError Prepared)
      → prepare codec journal timestamp payload ≡ m
      → (let r = append codec file timestamp payload journal w in
          Committed timestamp payload journal w r.0 r.1 r.2)
  unfolding append
  append-prepared timestamp payload journal w (err e) h = rw (append, h) (inl (refl, refl))
  append-prepared timestamp payload journal w (ok p) h =
      let ready = prepare-IsReady codec journal timestamp payload h in
      rw (append, h)
        (written timestamp payload journal w p (write_record codec file p.bytes w) ready refl
          (write_record-Wrote file content storage codec p.bytes w ready.size))

  pub append-Committed :
      (timestamp : DateTime) (payload : JournalEvent) (journal : Journal) (w : W)
      → (let r = append codec file timestamp payload journal w in
          Committed timestamp payload journal w r.0 r.1 r.2)
  append-Committed timestamp payload journal w =
      append-prepared timestamp payload journal w (prepare codec journal timestamp payload) refl
