-- ===== src/Journal/Reader/Tamper.antt =====
-- What `read_bytes` says of a file, and what a terminal hash says of two.
use baseline_ops.Prelude.{
  ℕ, suc, ◌≡◌, refl, sym, ◌∙◌, ap, ◌==◌, ==_iff, not, ◌||◌, Bool, true, false, List, ◌++◌, length,
  take, drop, take-append-drop, AreBytes, ok, some, reject_if, >>=-eq-ok, >>-eq-ok, value_of_run,
  arith,
}
use baseline_ops.Journal.Event.{bad_magic, incomplete_frame}
use baseline_ops.Journal.Frame.{
  Codec, JournalLimits, JournalSnapshot, journal_magic, ensure_size_limit,
}
use baseline_ops.Journal.Reader.{ParsedJournal, equal_bytes, parse_rounds, new_state, finish}
use baseline_ops.Journal.Reader.Chain.{IsChain, equal_bytes-eq, not_rejected, accept_all-IsChain}
use baseline_ops.Journal.Reader.Frames.{frames_of}
use baseline_ops.Journal.Reader.Inversion.{AreBytes-rest, IsRead, parse_rounds-IsRead}
use baseline_ops.Journal.Reader.Total.{
  parse_rounds_total, parse_records, read_magic, parse_bytes, read_bytes,
}

no_complaint : {E : Type 0} (a b : Bool) (e : E) → reject_if (not a || not b) e ≡ ok tt → b ≡ true
no_complaint true true e h = refl
no_complaint true false e h = absurd (cc h)
no_complaint false b e h = absurd (cc h)

module _ (codec : Codec) (limits : JournalLimits) where
  read_magic-eq-ok :
      (bytes reader : List ℕ)
      → read_magic codec limits bytes ≡ ok reader
      → bytes ≡ journal_magic ++ reader
  unfolding read_magic
  read_magic-eq-ok bytes reader h =
      let n = length journal_magic in
      let magic = take n bytes in
      let (valid, h1) =
        >>-eq-ok
          (reject_if (not (length magic == n) || not (equal_bytes magic journal_magic)) bad_magic) _
          h in
      let same =
        equal_bytes-eq magic journal_magic
          (no_complaint (length magic == n) (equal_bytes magic journal_magic) bad_magic valid) in
      let rest : drop n bytes ≡ reader = cc h1 in
      sym (take-append-drop n bytes)
      ∙ ap (λ xs. xs ++ drop n bytes) same
      ∙ ap (λ xs. journal_magic ++ xs) rest

  parse_records-IsRead :
      (reader : List ℕ) (parsed : ParsedJournal)
      → AreBytes reader
      → parse_records codec limits (new_state codec limits) reader ≡ ok parsed
      → parsed.trailing_bytes ≡ 0
      → IsRead codec limits (new_state codec limits) reader parsed
  unfolding parse_records
  parse_records-IsRead reader parsed are h nothing =
      parse_rounds-IsRead codec limits (suc (length reader)) (new_state codec limits) reader parsed
        are
        (value_of_run
            (parse_rounds codec limits (suc (length reader)) (new_state codec limits) reader)
            (parse_rounds_total codec limits (suc (length reader)) (new_state codec limits) reader
              (omega arith))
          ∙ ap (λ x. some x) h)
        nothing

  -- Whatever file the reader accepts holds the magic and then, frame by frame and with nothing before,
  -- between or behind, the canonical bytes of the records it returns. They count up from zero, each
  -- carries the digest of itself and the hash of the one before it, the first that of no bytes, and
  -- the last hash is the terminal hash.
  pub read_bytes-IsChain :
      (bytes : List ℕ) (snapshot : JournalSnapshot)
      → AreBytes bytes
      → read_bytes codec limits bytes ≡ ok snapshot
      → (frames : List (List ℕ)) × (bytes ≡ journal_magic ++ frames_of frames)
        × IsChain codec 0 codec.empty_hash snapshot.records frames snapshot.terminal_hash
  unfolding read_bytes parse_bytes finish
  read_bytes-IsChain bytes snapshot are h =
      let (parsed, parses, h1) = >>=-eq-ok (parse_bytes codec limits bytes) _ h in
      let (complete, h2) =
        >>-eq-ok (reject_if (not (parsed.trailing_bytes == 0)) incomplete_frame) _ h1 in
      let nothing : parsed.trailing_bytes ≡ 0 =
        (==_iff parsed.trailing_bytes 0).0
          (not_rejected (parsed.trailing_bytes == 0) incomplete_frame complete) in
      let (_, h3) = >>-eq-ok (ensure_size_limit (length bytes) limits) _ parses in
      let (reader, starts, h4) = >>=-eq-ok (read_magic codec limits bytes) _ h3 in
      let laid = read_magic-eq-ok bytes reader starts in
      let is_read =
        parse_records-IsRead reader parsed
          (AreBytes-rest codec limits journal_magic reader (rw laid at are)) h4 nothing in
      let (records, all, chain) =
        accept_all-IsChain codec limits (new_state codec limits) is_read.frames is_read.end
          is_read.accepted in
      let same : parsed.snapshot ≡ snapshot = cc h2 in
      let end : (finish is_read.end).snapshot ≡ snapshot =
        ap (λ (x : ParsedJournal). x.snapshot) is_read.parsed_end ∙ same in
      (
        is_read.frames,
        laid ∙ ap (λ xs. journal_magic ++ xs) is_read.laid_out,
        rw (← end) (rw all chain),
      )
