-- ===== src/Journal/Session.antt =====
-- A journal and the bytes of its file, from its creation on: `create_with_limits` on a new file,
-- then `append` after `append`.
pub mod RoundTrip
pub mod Reads
pub mod Durable
use baseline_ops.Prelude.{
  ℕ, ◌+◌, ◌≤◌, ◌<◌, ◌^◌, ◌≡◌, refl, sym, ◌∙◌, ap, Bool, true, false, List, [], ◌∷◌, ◌++◌, All,
  length, length-append, append_assoc, Outcome, ok, err, ◌>>=◌, ltb, arith,
}
use baseline_ops.Domain.Ids.{DateTime}
use baseline_ops.Journal.Event.{JournalEvent, JournalRecord, JournalError}
use baseline_ops.Journal.Frame.{Codec, JournalLimits, journal_magic, ensure_size_limit}
use baseline_ops.Journal.Reader.{ParseState, new_state}
use baseline_ops.Journal.Reader.Accepts.{accept_frame-journal_record}
use baseline_ops.Journal.Reader.Frames.{
  IsFrame, frame_of, frames_of, frames_of-append, accept_all, accept_all-append,
}
use baseline_ops.Journal.Writer.{DurableWrite, Journal, Prepared, append, initialize}
use baseline_ops.Journal.Writer.Steps.{IsReady}
use baseline_ops.Journal.Writer.Storage.{IsStorage}
use baseline_ops.Journal.Writer.Appends.{advanced, append-Committed, Committed}

-- serde_json reads back the record that it wrote.
abbrev pub Decodes : Codec → Type 0
Decodes codec =
    (r : JournalRecord) (bytes : List ℕ)
    → codec.record_bytes r ≡ ok bytes
    → codec.parse bytes ≡ ok r

-- The state in which a reader of the file would stand where the writer stands.
abbrev pub state_of : Journal → List JournalRecord → ParseState
state_of journal records = record {
  records = records;
  previous_hash = journal.previous_hash;
  next_sequence = journal.next_sequence;
  valid_bytes = journal.current_bytes;
  trailing_bytes = 0;
  lifecycle = journal.lifecycle;
}

module _ (codec : Codec) where
  -- The bytes are the magic and the frames of the records, which the reader accepts one by one.
  pub record IsWritten (journal : Journal) (bytes : List ℕ) (records : List JournalRecord)
      : Type 0 where
    pub frames : List (List ℕ)
    pub laid_out : bytes ≡ journal_magic ++ frames_of frames
    pub sizes : All IsFrame frames
    pub counted : journal.current_bytes ≡ length journal_magic + length (frames_of frames)
    pub within : journal.current_bytes ≤ journal.limits.max_bytes
    pub accepted :
        accept_all codec journal.limits (new_state codec journal.limits) frames
        ≡ ok (state_of journal records)

All-append {ℓ κ} :
    {A : Type ℓ} (P : A → Type κ) (xs : List A) (x : A) → All P xs → P x → All P (xs ++ x ∷ [])
All-append P [] x h p = (p, tt)
All-append P (y ∷ ys) x (q, h) p = (q, All-append P ys x h p)

module _ (codec : Codec) (decodes : Decodes codec) where
  -- A record that is ready, once its frame stands behind the others.
  pub advanced-IsWritten :
      (journal : Journal) (timestamp : DateTime) (payload : JournalEvent) (p : Prepared)
      (bytes : List ℕ) (records : List JournalRecord)
      → IsReady codec journal timestamp payload p
      → IsWritten codec journal bytes records
      → IsWritten codec (advanced journal p) (bytes ++ frame_of p.bytes) (records ++ p.entry ∷ [])
  advanced-IsWritten journal timestamp payload p bytes records ready so_far =
      let laid : bytes ++ frame_of p.bytes
          ≡ journal_magic ++ frames_of (so_far.frames ++ p.bytes ∷ []) =
        rw (so_far.laid_out, frames_of-append so_far.frames p.bytes)
          (append_assoc journal_magic (frames_of so_far.frames) (frame_of p.bytes)) in
      let long : length (frames_of (so_far.frames ++ p.bytes ∷ []))
          ≡ length (frames_of so_far.frames) + length (frame_of p.bytes) =
        rw (frames_of-append so_far.frames p.bytes)
          (length-append (frames_of so_far.frames) (frame_of p.bytes)) in
      let last =
        accept_frame-journal_record codec journal.limits (state_of journal records) timestamp
          payload ready.room ready.next ready.made ready.encoded
          (decodes p.entry p.bytes ready.encoded) ready.fits in
      record {
        frames = so_far.frames ++ p.bytes ∷ [];
        laid_out = laid;
        sizes = All-append IsFrame so_far.frames p.bytes so_far.sizes ready.size;
        counted = omega (arith, ready.ends_at, so_far.counted, long);
        within = ready.within;
        accepted =
            accept_all-append codec journal.limits (new_state codec journal.limits) so_far.frames
              p.bytes so_far.accepted (rw (ready.ends_at) last);
      }
