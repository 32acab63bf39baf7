-- ===== src/Journal/Reader/Frames.antt =====
-- What the reader makes of frames that stand one behind the other, and of a piece of a frame.
use baseline_ops.Prelude.{
  ℕ, zero, suc, ◌+◌, ◌-◌, ◌<◌, ◌≤◌, ◌^◌, ◌≡◌, refl, min, ltb, lt→ltb, false, List, [], ◌∷◌, ◌++◌,
  All, length, length-append, take, take-append, drop-append, take_all, length-take, to_le_bytes,
  from_le_bytes-to_le_bytes, Outcome, ok, ok_or, append_assoc, append-nil, ◌>>=◌, >>=-eq-ok,
  >>-eq-ok, arith,
}
use baseline_ops.Journal.Event.{JournalError, sequence_overflow}
use baseline_ops.Journal.Frame.{
  Codec, JournalLimits, max_record_bytes, checked_add, ensure_size_limit, ensure_record_limit,
  ensure_observed_size, frame_length, validate_record,
}
use baseline_ops.Journal.Lifecycle.{validate}
use baseline_ops.Journal.Reader.{
  ParseState, ends, goes_on, parse_record, push_record, accept_frame, read_frame, read_round,
  parse_rounds,
}

-- A frame: the length of its bytes, and the bytes.
abbrev pub frame_of : List ℕ → List ℕ
frame_of bytes = to_le_bytes (length bytes) ++ bytes

abbrev pub frames_of : List (List ℕ) → List ℕ
frames_of [] = []
frames_of (bytes ∷ frames) = to_le_bytes (length bytes) ++ (bytes ++ frames_of frames)

abbrev pub IsFrame : List ℕ → Type 0
IsFrame bytes = (0 < length bytes) × (length bytes ≤ max_record_bytes)

pub frames_of-append :
    (frames : List (List ℕ)) (bytes : List ℕ)
    → frames_of (frames ++ bytes ∷ []) ≡ frames_of frames ++ frame_of bytes
frames_of-append [] bytes = simp append-nil
frames_of-append (f ∷ frames) bytes = simp (append_assoc, frames_of-append frames bytes)

ltb_irrefl : (n : ℕ) → ltb n n ≡ false
ltb_irrefl n = ground arith

module _ (codec : Codec) (limits : JournalLimits) where
  unfoldable pub accept_all : ParseState → List (List ℕ) → Outcome JournalError ParseState
  accept_all state [] = ok state
  accept_all state (bytes ∷ frames) =
      accept_frame codec limits state bytes >>= λ s. accept_all s frames

  pub accept_all-append :
      (state : ParseState) (frames : List (List ℕ)) (bytes : List ℕ) {middle end : ParseState}
      → accept_all state frames ≡ ok middle
      → accept_frame codec limits middle bytes ≡ ok end
      → accept_all state (frames ++ bytes ∷ []) ≡ ok end
  unfolding accept_all
  accept_all-append state [] bytes {middle} {end} h last =
      let same : state ≡ middle = cc h in rw (same, last) refl
  accept_all-append state (f ∷ frames) bytes h last =
      let (s, first, rest) =
        >>=-eq-ok (accept_frame codec limits state f) (λ s. accept_all s frames) h in
      rw first (accept_all-append s frames bytes rest last)

  accept_frame-valid_bytes :
      (state : ParseState) (bytes : List ℕ) (state' : ParseState)
      → accept_frame codec limits state bytes ≡ ok state'
      → state'.valid_bytes ≡ state.valid_bytes + (4 + length bytes)
  unfolding accept_frame push_record
  accept_frame-valid_bytes state bytes state' h =
      let (_, h1) = >>-eq-ok (ensure_record_limit state.next_sequence limits) _ h in
      let (r, _, h2) = >>=-eq-ok (parse_record codec limits bytes) _ h1 in
      let (_, h3) =
        >>-eq-ok (validate_record codec r state.next_sequence state.previous_hash) _ h2 in
      let (_, h4) = >>-eq-ok (validate state.lifecycle r.payload) _ h3 in
      let (n, _, h5) =
        >>=-eq-ok (ok_or (checked_add state.next_sequence 1) sequence_overflow) _ h4 in
      cc h5

  ensure_observed_size_lem :
      (valid_bytes observed : ℕ)
      → valid_bytes + observed ≤ limits.max_bytes
      → limits.max_bytes < 2 ^ 64
      → ensure_observed_size valid_bytes observed limits ≡ ok (valid_bytes + observed)
  unfolding ensure_observed_size ensure_size_limit
  ensure_observed_size_lem valid_bytes observed le lt = ground (arith, le, lt)

  frame_length_lem :
      (bytes : List ℕ)
      → IsFrame bytes
      → frame_length (to_le_bytes (length bytes)) ≡ ok (length bytes)
  unfolding frame_length
  frame_length_lem bytes (some_bytes, few) =
      rw (from_le_bytes-to_le_bytes (length bytes) (omega (arith, few)))
        (ground (arith, some_bytes, few))

  -- A whole frame is one round.
  read_round-frame :
      (state : ParseState) (bytes rest : List ℕ) {state' : ParseState}
      → IsFrame bytes
      → state.valid_bytes + (4 + length bytes) ≤ limits.max_bytes
      → limits.max_bytes < 2 ^ 64
      → accept_frame codec limits state bytes ≡ ok state'
      → read_round codec limits state (to_le_bytes (length bytes) ++ (bytes ++ rest))
        ≡ ok (goes_on state' rest)
  unfolding read_round read_frame
  read_round-frame state bytes rest size le lt h =
      let n = length bytes in
      let whole : min n (min (limits.max_bytes - (state.valid_bytes + 4) + 1) (2 ^ 64 - 1)) ≡ n =
        ground (arith, le, lt, size) in
      rw
        (
          ensure_observed_size_lem state.valid_bytes 4 (omega (arith, le)) lt,
          frame_length_lem bytes size,
          whole,
          take-append bytes rest,
          drop-append bytes rest,
          ensure_observed_size_lem (state.valid_bytes + 4) n (omega (arith, le)) lt,
          ltb_irrefl n,
          h,
        )
        refl

  -- Frames that the reader accepts one by one, whatever follows them.
  pub parse_rounds-frames :
      (state : ParseState) (frames : List (List ℕ)) (rest : List ℕ) (fuel : ℕ) {end : ParseState}
      → All IsFrame frames
      → state.valid_bytes + length (frames_of frames) ≤ limits.max_bytes
      → limits.max_bytes < 2 ^ 64
      → accept_all state frames ≡ ok end
      → (end.valid_bytes ≡ state.valid_bytes + length (frames_of frames))
        × (parse_rounds codec limits (length frames + fuel) state (frames_of frames ++ rest)
            ≡ parse_rounds codec limits fuel end rest)
  unfolding accept_all parse_rounds
  parse_rounds-frames state [] rest fuel {end} sizes le lt h =
      let same : state ≡ end = cc h in
      let nothing : 0 + fuel ≡ fuel = omega arith in rw (same, nothing) (omega arith, refl)
  parse_rounds-frames state (bytes ∷ frames) rest fuel {end} (size, sizes) le lt h =
      let (s, first, others) =
        >>=-eq-ok (accept_frame codec limits state bytes) (λ s. accept_all s frames) h in
      let at = accept_frame-valid_bytes state bytes s first in
      let long = length-append bytes (frames_of frames) in
      let (ends_at, runs) =
        parse_rounds-frames s frames rest fuel sizes (omega (arith, le, at, long)) lt others in
      let one_more : suc (length frames) + fuel ≡ suc (length frames + fuel) = omega arith in
      (
        omega (arith, ends_at, at, long),
        rw
            (
              one_more,
              append_assoc bytes (frames_of frames) rest,
              parse_rounds,
              read_round-frame state bytes (frames_of frames ++ rest) size (omega (arith, le, long))
                  lt first,
            )
            runs,
      )

  -- A piece of a frame ends the loop, and is counted.
  pub read_round-torn :
      (state : ParseState) (bytes : List ℕ) (k : ℕ)
      → IsFrame bytes
      → k < 4 + length bytes
      → state.valid_bytes + k ≤ limits.max_bytes
      → limits.max_bytes < 2 ^ 64
      → state.trailing_bytes ≡ 0
      → read_round codec limits state (take k (frame_of bytes))
        ≡ ok (ends (record state { trailing_bytes = k }))
  unfolding read_round read_frame
  read_round-torn state bytes zero size few le lt none_yet = rw none_yet refl
  read_round-torn state bytes (suc zero) size few le lt none_yet =
      rw (ensure_observed_size_lem state.valid_bytes 1 (omega (arith, le)) lt) refl
  read_round-torn state bytes (suc (suc zero)) size few le lt none_yet =
      rw (ensure_observed_size_lem state.valid_bytes 2 (omega (arith, le)) lt) refl
  read_round-torn state bytes (suc (suc (suc zero))) size few le lt none_yet =
      rw (ensure_observed_size_lem state.valid_bytes 3 (omega (arith, le)) lt) refl
  read_round-torn state bytes (suc (suc (suc (suc j)))) size few le lt none_yet =
      let n = length bytes in
      let part = take j bytes in
      let four : 4 + j ≡ suc (suc (suc (suc j))) = omega arith in
      let short : length part ≡ j = length-take j bytes (omega (arith, few)) in
      let all : length part
          ≤ min n (min (limits.max_bytes - (state.valid_bytes + 4) + 1) (2 ^ 64 - 1)) =
        ground (arith, le, lt, size, few, short) in
      rw
        (
          ensure_observed_size_lem state.valid_bytes 4 (omega (arith, le)) lt,
          frame_length_lem bytes size,
          take_all (min n (min (limits.max_bytes - (state.valid_bytes + 4) + 1) (2 ^ 64 - 1))) part
              all,
          short,
          ensure_observed_size_lem (state.valid_bytes + 4) j (omega (arith, le)) lt,
          lt→ltb j n (omega (arith, few)),
          four,
        )
        refl
