-- ===== src/Journal/Writer/Steps.antt =====
-- What `append` has checked before it writes, and what its writes leave in the file.
use baseline_ops.Prelude.{
  ℕ, ◌+◌, ◌<◌, ◌≤◌, ◌≡◌, refl, Bool, true, false, length, ok, reject_if, ok_or, map_err, >>=-eq-ok,
  >>-eq-ok, map_err-eq-ok, arith,
}
use baseline_ops.Domain.Ids.{DateTime}
use baseline_ops.Journal.Event.{JournalEvent, domain, write_failed, sequence_overflow}
use baseline_ops.Journal.Lifecycle.{validate}
use baseline_ops.Journal.Frame.{
  Codec, max_record_bytes, checked_add, ensure_size_limit, ensure_record_limit, frame_size,
  journal_record,
}
use baseline_ops.Journal.Reader.Frames.{IsFrame}
use baseline_ops.Journal.Writer.{Journal, Prepared, next_frame_end, prepare}

-- What holds of a record that is ready to be written.
pub record IsReady (codec : Codec) (journal : Journal) (timestamp : DateTime)
    (payload : JournalEvent) (p : Prepared) : Type 0 where
  pub usable : journal.is_unusable ≡ false
  pub room : ensure_record_limit journal.next_sequence journal.limits ≡ ok tt
  pub next : ok_or (checked_add journal.next_sequence 1) sequence_overflow ≡ ok p.following
  pub made :
      journal_record codec journal.next_sequence journal.previous_hash timestamp payload
      ≡ ok p.entry
  pub encoded : codec.record_bytes p.entry ≡ ok p.bytes
  pub size : IsFrame p.bytes
  pub ends_at : p.next_bytes ≡ journal.current_bytes + (4 + length p.bytes)
  pub within : p.next_bytes ≤ journal.limits.max_bytes
  pub fits : validate journal.lifecycle p.entry.payload ≡ ok tt

module _ (codec : Codec) where
  next_frame_end_lem :
      (journal : Journal) (n : ℕ) {end : ℕ}
      → next_frame_end codec journal n ≡ ok end
      → (0 < n)
        × (n ≤ max_record_bytes)
        × (end ≡ journal.current_bytes + (4 + n))
        × (end ≤ journal.limits.max_bytes)
  unfolding next_frame_end frame_size ensure_size_limit
  next_frame_end_lem journal n h = ground (arith, h)

  usable_lem : (b : Bool) → reject_if b write_failed ≡ ok tt → b ≡ false
  usable_lem true h = absurd (cc h)
  usable_lem false h = refl

  pub prepare-IsReady :
      (journal : Journal) (timestamp : DateTime) (payload : JournalEvent) {p : Prepared}
      → prepare codec journal timestamp payload ≡ ok p
      → IsReady codec journal timestamp payload p
  unfolding prepare
  prepare-IsReady journal timestamp payload {p} h =
      let (usable, h1) = >>-eq-ok (reject_if journal.is_unusable write_failed) _ h in
      let (room, h2) = >>-eq-ok (ensure_record_limit journal.next_sequence journal.limits) _ h1 in
      let (following, next, h3) =
        >>=-eq-ok (ok_or (checked_add journal.next_sequence 1) sequence_overflow) _ h2 in
      let (entry, made, h4) =
        >>=-eq-ok
          (journal_record codec journal.next_sequence journal.previous_hash timestamp payload) _
          h3 in
      let (bytes, encoded, h5) = >>=-eq-ok (map_err domain (codec.record_bytes entry)) _ h4 in
      let (next_bytes, ends_at, h6) =
        >>=-eq-ok (next_frame_end codec journal (length bytes)) _ h5 in
      let (fits, h7) = >>-eq-ok (validate journal.lifecycle entry.payload) _ h6 in
      let (least, most, end, within) = next_frame_end_lem journal (length bytes) ends_at in
      let q : Prepared = record {
        entry = entry;
        bytes = bytes;
        next_bytes = next_bytes;
        following = following;
      } in
      let same : q ≡ p = cc h7 in
      rw (← same) (record {
        usable = usable_lem journal.is_unusable usable;
        room = room;
        next = next;
        made = made;
        encoded = map_err-eq-ok domain (codec.record_bytes entry) encoded;
        size = (least, most);
        ends_at = end;
        within = within;
        fits = fits;
      })
