-- ===== src/Journal/Reader/Whole.antt =====
-- `parse_bytes` and `read_bytes` of a whole file: the magic, frames that are accepted, and a rest.
use baseline_ops.Prelude.{
  ℕ, suc, ◌+◌, ◌-◌, ◌<◌, ◌≤◌, ◌^◌, ◌≡◌, refl, ◌∙◌, List, [], ◌∷◌, ◌++◌, All, length, length-append,
  if◌then◌else◌, ◌==◌, ok, err, some, value_of-eq, arith,
}
use baseline_ops.Journal.Event.{incomplete_frame}
use baseline_ops.Journal.Frame.{Codec, JournalLimits, journal_magic, ensure_size_limit}
use baseline_ops.Journal.Reader.{
  ParseState, ParsedJournal, ends, new_state, read_round, parse_rounds, finish,
}
use baseline_ops.Journal.Reader.Frames.{IsFrame, frames_of, accept_all, parse_rounds-frames}
use baseline_ops.Journal.Reader.Total.{parse_records, parse_bytes, read_bytes}

length-frames_of : (frames : List (List ℕ)) → length frames ≤ length (frames_of frames)
length-frames_of [] = omega arith
length-frames_of (bytes ∷ frames) =
    omega (arith, length-append bytes (frames_of frames), length-frames_of frames)

module _ (codec : Codec) (limits : JournalLimits) where
  pub ensure_size_limit_lem : (n : ℕ) → n ≤ limits.max_bytes → ensure_size_limit n limits ≡ ok tt
  unfolding ensure_size_limit
  ensure_size_limit_lem n le = ground (arith, le)

  parse_rounds-end :
      (fuel : ℕ) (state end : ParseState) (rest : List ℕ)
      → read_round codec limits state rest ≡ ok (ends end)
      → parse_rounds codec limits (suc fuel) state rest ≡ some (ok (finish end))
  unfolding parse_rounds
  parse_rounds-end fuel state end rest h = rw (parse_rounds, h) refl

  pub parse_bytes-frames :
      (frames : List (List ℕ)) (rest : List ℕ) {middle end : ParseState}
      → All IsFrame frames
      → length journal_magic + length (frames_of frames) + length rest ≤ limits.max_bytes
      → limits.max_bytes < 2 ^ 64
      → accept_all codec limits (new_state codec limits) frames ≡ ok middle
      → read_round codec limits middle rest ≡ ok (ends end)
      → parse_bytes codec limits (journal_magic ++ (frames_of frames ++ rest)) ≡ ok (finish end)
  unfolding parse_bytes parse_records
  parse_bytes-frames frames rest {middle} {end} sizes le lt accepted last =
      let reader = frames_of frames ++ rest in
      let long : length reader ≡ length (frames_of frames) + length rest =
        length-append (frames_of frames) rest in
      let spare = length reader - length frames in
      let enough : suc (length reader) ≡ length frames + suc spare =
        omega (arith, length-frames_of frames, long) in
      let (_, runs) =
        parse_rounds-frames codec limits (new_state codec limits) frames rest (suc spare) sizes
          (omega (arith, le)) lt accepted in
      let all : parse_rounds codec limits (suc (length reader)) (new_state codec limits) reader
          ≡ some (ok (finish end)) =
        rw enough (runs ∙ parse_rounds-end spare middle end rest last) in
      let small =
        ensure_size_limit_lem (length (journal_magic ++ reader))
          (omega (arith, le, long, length-append journal_magic reader)) in
      rw small (value_of-eq _ _ all)

  -- What `read_bytes` makes of a parse.
  pub read_bytes-parse_bytes :
      (bytes : List ℕ) (parsed : ParsedJournal)
      → parse_bytes codec limits bytes ≡ ok parsed
      → read_bytes codec limits bytes
        ≡ (if parsed.trailing_bytes == 0 then ok parsed.snapshot else err incomplete_frame)
  unfolding read_bytes
  read_bytes-parse_bytes bytes parsed h = rw (read_bytes, h) (ground arith)
