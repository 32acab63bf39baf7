-- ===== src/Journal/Reader/Replay.antt =====
-- The lifecycle that the reader keeps is the replay of the records that it has read.
use baseline_ops.Prelude.{ℕ, ◌≡◌, refl, List, [], ◌∷◌, ◌++◌, map, ok, ok_or, >>=-eq-ok, >>-eq-ok}
use baseline_ops.Journal.Event.{JournalEvent, JournalRecord, sequence_overflow}
use baseline_ops.Journal.Frame.{
  Codec, JournalLimits, checked_add, ensure_record_limit, validate_record,
}
use baseline_ops.Journal.Lifecycle.{Lifecycle, new_lifecycle, validate, accept, replay}
use baseline_ops.Journal.Reader.{ParseState, parse_record, push_record, accept_frame}
use baseline_ops.Journal.Reader.Frames.{accept_all}

abbrev pub payloads : List JournalRecord → List JournalEvent
payloads records = map (λ (r : JournalRecord). r.payload) records

replay-append :
    (state : Lifecycle) (records : List JournalRecord) (r : JournalRecord) {middle : Lifecycle}
    → replay state (payloads records) ≡ ok middle
    → validate middle r.payload ≡ ok tt
    → replay state (payloads (records ++ r ∷ [])) ≡ ok (accept middle r.payload)
unfolding replay
replay-append state [] r {middle} h valid =
    let same : state ≡ middle = cc h in rw (same, valid) refl
replay-append state (s ∷ records) r h valid =
    let (first, rest) = >>-eq-ok (validate state s.payload) _ h in
    rw first (replay-append (accept state s.payload) records r rest valid)

-- The state's lifecycle is what its records make of a new one.
abbrev pub IsReplayed : ParseState → Type 0
IsReplayed state = replay new_lifecycle (payloads state.records) ≡ ok state.lifecycle

module _ (codec : Codec) (limits : JournalLimits) where
  accept_frame-IsReplayed :
      (state : ParseState) (bytes : List ℕ) (state' : ParseState)
      → accept_frame codec limits state bytes ≡ ok state'
      → IsReplayed state
      → IsReplayed state'
  unfolding accept_frame push_record
  accept_frame-IsReplayed state bytes state' h replayed =
      let (_, h1) = >>-eq-ok (ensure_record_limit state.next_sequence limits) _ h in
      let (r, _, h2) = >>=-eq-ok (parse_record codec limits bytes) _ h1 in
      let (_, h3) =
        >>-eq-ok (validate_record codec r state.next_sequence state.previous_hash) _ h2 in
      let (valid, h4) = >>-eq-ok (validate state.lifecycle r.payload) _ h3 in
      let (n, _, h5) =
        >>=-eq-ok (ok_or (checked_add state.next_sequence 1) sequence_overflow) _ h4 in
      let records : state.records ++ r ∷ [] ≡ state'.records = cc h5 in
      let lifecycle : accept state.lifecycle r.payload ≡ state'.lifecycle = cc h5 in
      rw (← records, ← lifecycle) (replay-append new_lifecycle state.records r replayed valid)

  pub accept_all-IsReplayed :
      (state : ParseState) (frames : List (List ℕ)) {end : ParseState}
      → accept_all codec limits state frames ≡ ok end
      → IsReplayed state
      → IsReplayed end
  unfolding accept_all
  accept_all-IsReplayed state [] {end} h replayed =
      let same : state ≡ end = cc h in rw (← same) replayed
  accept_all-IsReplayed state (bytes ∷ frames) h replayed =
      let (s, first, rest) =
        >>=-eq-ok (accept_frame codec limits state bytes) (λ s. accept_all codec limits s frames)
          h in
      accept_all-IsReplayed s frames rest (accept_frame-IsReplayed state bytes s first replayed)
