-- ===== src/Journal/Reader/Inversion.antt =====
-- What bytes the reader can have read: the frames that `parse_rounds` went through.
use baseline_ops.Prelude.{
  ℕ, zero, suc, ◌+◌, ◌-◌, ◌<◌, ◌≤◌, ◌^◌, ◌≡◌, refl, sym, ◌∙◌, ap, min, ltb, if◌then◌else◌, Bool,
  true, false, some, List, [], ◌∷◌, ◌++◌, All, length, take, drop, take-append-drop, length-take-le,
  AreBytes, to_le_bytes, from_le_bytes, to_le_bytes-from_le_bytes, Outcome, ok, err, ◌>>=◌,
  >>=-eq-ok, arith,
}
use baseline_ops.Journal.Event.{JournalError}
use baseline_ops.Journal.Frame.{
  Codec, JournalLimits, max_record_bytes, ensure_observed_size, frame_length,
}
use baseline_ops.Journal.Reader.{
  ParsedJournal, ParseState, Round, ends, goes_on, finish, accept_frame, read_frame, read_round,
  parse_rounds,
}
use baseline_ops.Journal.Reader.Frames.{IsFrame, frame_of, frames_of, accept_all}
use baseline_ops.Journal.Reader.Total.{not_ended}

module _ (codec : Codec) (limits : JournalLimits) where
  frame_length-eq-ok :
      (prefix : List ℕ) {n : ℕ}
      → frame_length prefix ≡ ok n
      → (from_le_bytes prefix ≡ n) × (0 < n) × (n ≤ max_record_bytes)
  unfolding frame_length
  frame_length-eq-ok prefix h = ground (arith, h)

  -- The frame of a round that goes on.
  read_frame-goes_on :
      (state : ParseState) (prefix : List ℕ) (prefix_end : ℕ) (reader : List ℕ) (s : ParseState)
      (reader' : List ℕ)
      → read_frame codec limits state prefix prefix_end reader ≡ ok (goes_on s reader')
      → (bytes : List ℕ) × (reader ≡ bytes ++ reader')
        × (from_le_bytes prefix ≡ length bytes)
        × IsFrame bytes
        × (accept_frame codec limits state bytes ≡ ok s)
  unfolding read_frame
  read_frame-goes_on state prefix prefix_end reader s reader' h =
      let (expected, long, h1) = >>=-eq-ok (frame_length prefix) _ h in
      let n = min expected (min (limits.max_bytes - prefix_end + 1) (2 ^ 64 - 1)) in
      let bytes = take n reader in
      let (_, _, h2) = >>=-eq-ok (ensure_observed_size prefix_end (length bytes) limits) _ h1 in
      let (full, h3) = not_ended (ltb (length bytes) expected) _ _ h2 in
      let (s', accepted, h4) = >>=-eq-ok (accept_frame codec limits state bytes) _ h3 in
      let (means, least, most) = frame_length-eq-ok prefix long in
      let size : length bytes ≡ expected = ground (arith, full, length-take-le n reader) in
      let same : drop n reader ≡ reader' = cc h4 in
      let same_state : s' ≡ s = cc h4 in
      (
        bytes,
        sym (take-append-drop n reader) ∙ ap (λ rest. bytes ++ rest) same,
        means ∙ sym size,
        (omega (arith, least, size), omega (arith, most, size)),
        accepted ∙ ap (λ x. ok x) same_state,
      )

  short_goes_on :
      (m : Outcome JournalError ℕ) (state s : ParseState) (reader : List ℕ)
      → ¬ ((m >>= λ _. ok (ends state)) ≡ ok (goes_on s reader))
  short_goes_on (ok n) state s reader h = cc h
  short_goes_on (err e) state s reader h = cc h

  short_ends :
      (m : Outcome JournalError ℕ) (state s : ParseState) (k : ℕ)
      → s.trailing_bytes ≡ 0
      → ¬ ((m >>= λ _. ok (ends (record state { trailing_bytes = suc k }))) ≡ ok (ends s))
  short_ends (ok n) state s k nothing h =
      let r : ParseState = record state { trailing_bytes = suc k } in
      let same : r ≡ s = cc h in
      omega (arith, nothing, ap (λ (x : ParseState). x.trailing_bytes) same)
  short_ends (err e) state s k nothing h = cc h

  frame_ends :
      (b : Bool) (m : Outcome JournalError ParseState) (state s : ParseState) (k : ℕ)
      (reader : List ℕ)
      → s.trailing_bytes ≡ 0
      → ¬ (
          (if b
            then ok (ends (record state { trailing_bytes = 4 + k }))
            else (m >>= λ s'. ok (goes_on s' reader)))
          ≡ ok (ends s))
  frame_ends true m state s k reader nothing h =
      let r : ParseState = record state { trailing_bytes = 4 + k } in
      let same : r ≡ s = cc h in
      omega (arith, nothing, ap (λ (x : ParseState). x.trailing_bytes) same)
  frame_ends false (ok s') state s k reader nothing h = cc h
  frame_ends false (err e) state s k reader nothing h = cc h

  read_frame-ends :
      (state : ParseState) (prefix : List ℕ) (prefix_end : ℕ) (reader : List ℕ) (s : ParseState)
      → s.trailing_bytes ≡ 0
      → ¬ (read_frame codec limits state prefix prefix_end reader ≡ ok (ends s))
  unfolding read_frame
  read_frame-ends state prefix prefix_end reader s nothing h =
      let (expected, _, h1) = >>=-eq-ok (frame_length prefix) _ h in
      let n = min expected (min (limits.max_bytes - prefix_end + 1) (2 ^ 64 - 1)) in
      let (_, _, h2) =
        >>=-eq-ok (ensure_observed_size prefix_end (length (take n reader)) limits) _ h1 in
      frame_ends (ltb (length (take n reader)) expected)
        (accept_frame codec limits state (take n reader)) state s (length (take n reader))
        (drop n reader) nothing h2

  read_round-goes_on :
      (state : ParseState) (reader : List ℕ) (s : ParseState) (reader' : List ℕ)
      → AreBytes reader
      → read_round codec limits state reader ≡ ok (goes_on s reader')
      → (bytes : List ℕ) × (reader ≡ frame_of bytes ++ reader')
        × IsFrame bytes
        × (accept_frame codec limits state bytes ≡ ok s)
  unfolding read_round
  read_round-goes_on state [] s reader' are h = absurd (cc h)
  read_round-goes_on state (a ∷ []) s reader' are h = absurd (short_goes_on _ _ s reader' h)
  read_round-goes_on state (a ∷ b ∷ []) s reader' are h = absurd (short_goes_on _ _ s reader' h)
  read_round-goes_on state (a ∷ b ∷ c ∷ []) s reader' are h = absurd (short_goes_on _ _ s reader' h)
  read_round-goes_on state (a ∷ b ∷ c ∷ d ∷ rest) s reader' (p, (q, (r, (t, _)))) h =
      let prefix = a ∷ b ∷ c ∷ d ∷ [] in
      let (prefix_end, _, h1) = >>=-eq-ok (ensure_observed_size state.valid_bytes 4 limits) _ h in
      let (bytes, here, means, size, accepted) =
        read_frame-goes_on state prefix prefix_end rest s reader' h1 in
      let wrote : prefix ≡ to_le_bytes (length bytes) =
        sym (to_le_bytes-from_le_bytes a b c d p q r t) ∙ ap to_le_bytes means in
      (
        bytes,
        ap (λ xs. prefix ++ xs) here ∙ ap (λ xs. xs ++ (bytes ++ reader')) wrote,
        size,
        accepted,
      )

  read_round-ends :
      (state : ParseState) (reader : List ℕ) (s : ParseState)
      → read_round codec limits state reader ≡ ok (ends s)
      → s.trailing_bytes ≡ 0
      → (reader ≡ []) × (s ≡ state)
  unfolding read_round
  read_round-ends state [] s h nothing = (refl, cc h)
  read_round-ends state (a ∷ []) s h nothing = absurd (short_ends _ state s 0 nothing h)
  read_round-ends state (a ∷ b ∷ []) s h nothing = absurd (short_ends _ state s 1 nothing h)
  read_round-ends state (a ∷ b ∷ c ∷ []) s h nothing = absurd (short_ends _ state s 2 nothing h)
  read_round-ends state (a ∷ b ∷ c ∷ d ∷ rest) s h nothing =
      let (prefix_end, _, h1) = >>=-eq-ok (ensure_observed_size state.valid_bytes 4 limits) _ h in
      absurd (read_frame-ends state (a ∷ b ∷ c ∷ d ∷ []) prefix_end rest s nothing h1)

  -- What is left after some bytes are bytes.
  pub AreBytes-rest : (xs ys : List ℕ) → AreBytes (xs ++ ys) → AreBytes ys
  AreBytes-rest [] ys are = are
  AreBytes-rest (x ∷ xs) ys (_, are) = AreBytes-rest xs ys are

  -- What the reader went through, where it left nothing over.
  pub record IsRead (state : ParseState) (reader : List ℕ) (parsed : ParsedJournal) : Type 0 where
    pub frames : List (List ℕ)
    pub end : ParseState
    pub laid_out : reader ≡ frames_of frames
    pub sizes : All IsFrame frames
    pub accepted : accept_all codec limits state frames ≡ ok end
    pub parsed_end : finish end ≡ parsed

  round-IsRead :
      (fuel : ℕ) (state : ParseState) (reader : List ℕ) (parsed : ParsedJournal)
      (r : Outcome JournalError Round)
      → AreBytes reader
      → read_round codec limits state reader ≡ r
      → parse_rounds codec limits (suc fuel) state reader ≡ some (ok parsed)
      → parsed.trailing_bytes ≡ 0
      → ((s : ParseState) (reader' : List ℕ)
          → AreBytes reader'
          → parse_rounds codec limits fuel s reader' ≡ some (ok parsed)
          → IsRead s reader' parsed)
      → IsRead state reader parsed
  unfolding parse_rounds accept_all finish
  round-IsRead fuel state reader parsed (err e) are k h nothing rest =
      let now : parse_rounds codec limits (suc fuel) state reader ≡ some (err e) =
        rw (parse_rounds, k) refl in
      absurd (cc (now, h))
  round-IsRead fuel state reader parsed (ok (ends s)) are k h nothing rest =
      let now : parse_rounds codec limits (suc fuel) state reader ≡ some (ok (finish s)) =
        rw (parse_rounds, k) refl in
      let same : finish s ≡ parsed = cc (now, h) in
      let (over, unchanged) =
        read_round-ends state reader s k
          (ap (λ (x : ParsedJournal). x.trailing_bytes) same ∙ nothing) in
      record {
        frames = [];
        end = s;
        laid_out = over;
        sizes = tt;
        accepted = ap (λ x. ok x) (sym unchanged);
        parsed_end = same;
      }
  round-IsRead fuel state reader parsed (ok (goes_on s reader')) are k h nothing rest =
      let now : parse_rounds codec limits (suc fuel) state reader
          ≡ parse_rounds codec limits fuel s reader' =
        rw (parse_rounds, k) refl in
      let (bytes, here, size, accepted) = read_round-goes_on state reader s reader' are k in
      let others =
        rest s reader' (AreBytes-rest (frame_of bytes) reader' (rw here at are)) (sym now ∙ h) in
      record {
        frames = bytes ∷ others.frames;
        end = others.end;
        laid_out = here ∙ ap (λ xs. frame_of bytes ++ xs) others.laid_out;
        sizes = (size, others.sizes);
        accepted = rw accepted others.accepted;
        parsed_end = others.parsed_end;
      }

  pub parse_rounds-IsRead :
      (fuel : ℕ) (state : ParseState) (reader : List ℕ) (parsed : ParsedJournal)
      → AreBytes reader
      → parse_rounds codec limits fuel state reader ≡ some (ok parsed)
      → parsed.trailing_bytes ≡ 0
      → IsRead state reader parsed
  unfolding parse_rounds
  parse_rounds-IsRead zero state reader parsed are h nothing = absurd (cc h)
  parse_rounds-IsRead (suc fuel) state reader parsed are h nothing =
      round-IsRead fuel state reader parsed (read_round codec limits state reader) are refl h
        nothing λ s reader' more run. parse_rounds-IsRead fuel s reader' parsed more run nothing
