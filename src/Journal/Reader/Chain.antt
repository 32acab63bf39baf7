-- ===== src/Journal/Reader/Chain.antt =====
-- The hash chain of a file that the reader accepts.
use baseline_ops.Prelude.{
  ℕ, ◌+◌, ◌≡◌, refl, sym, ◌∙◌, ap, ◌==◌, ==_iff, not, Bool, true, false, List, [], ◌∷◌, ◌++◌,
  append_assoc, append-nil, ok, reject_if, ok_or, map_err, >>=-eq-ok, >>-eq-ok, map_err-eq-ok,
  arith,
}
use baseline_ops.Domain.Ids.{Digest}
use baseline_ops.Journal.Event.{
  JournalRecord, domain, invalid_record, non_canonical_record, sequence_overflow, sequence_mismatch,
  previous_hash_mismatch, record_hash_mismatch,
}
use baseline_ops.Journal.Frame.{
  Codec, JournalLimits, checked_add, ensure_record_limit, validate_record,
}
use baseline_ops.Journal.Lifecycle.{validate}
use baseline_ops.Journal.Reader.{ParseState, equal_bytes, parse_record, push_record, accept_frame}
use baseline_ops.Journal.Reader.Frames.{accept_all}

-- The records count up from `sequence`, each carries the hash before it and the digest of itself,
-- and each is in the file in its canonical bytes. `end` is the last hash.
abbrev pub IsChain :
    Codec
    → (sequence : ℕ) → (previous : Digest) → List JournalRecord
    → List (List ℕ)
    → (end : Digest) → Type 0
IsChain codec sequence previous [] [] end = previous ≡ end
IsChain codec sequence previous [] (f ∷ frames) end = ⊥
IsChain codec sequence previous (r ∷ records) [] end = ⊥
IsChain codec sequence previous (r ∷ records) (f ∷ frames) end =
    (r.sequence ≡ sequence)
    × (r.previous_hash ≡ previous)
    × (codec.chain_hash r.sequence r.timestamp r.previous_hash r.payload ≡ ok r.record_hash)
    × (codec.record_bytes r ≡ ok f)
    × IsChain codec (sequence + 1) r.record_hash records frames end

pub equal_bytes-eq : (xs ys : List ℕ) → equal_bytes xs ys ≡ true → xs ≡ ys
unfolding equal_bytes
equal_bytes-eq [] [] h = refl
equal_bytes-eq [] (y ∷ ys) h = cc h
equal_bytes-eq (x ∷ xs) [] h = cc h
equal_bytes-eq (x ∷ xs) (y ∷ ys) h = ground (arith, equal_bytes-eq xs ys)

pub not_rejected : {E : Type 0} (b : Bool) (e : E) → reject_if (not b) e ≡ ok tt → b ≡ true
not_rejected true e h = refl
not_rejected false e h = absurd (cc h)

module _ (codec : Codec) (limits : JournalLimits) where
  validate_record-eq-ok :
      (r : JournalRecord) (sequence : ℕ) (previous_hash : Digest)
      → validate_record codec r sequence previous_hash ≡ ok tt
      → (r.sequence ≡ sequence)
        × (r.previous_hash ≡ previous_hash)
        × (codec.chain_hash r.sequence r.timestamp r.previous_hash r.payload ≡ ok r.record_hash)
  unfolding validate_record
  validate_record-eq-ok r sequence previous_hash h =
      let (first, h1) = >>-eq-ok (reject_if (not (r.sequence == sequence)) sequence_mismatch) _ h in
      let (second, h2) =
        >>-eq-ok (reject_if (not (r.previous_hash == previous_hash)) previous_hash_mismatch) _ h1 in
      let (hash, hashed, h3) =
        >>=-eq-ok
          (map_err domain (codec.chain_hash r.sequence r.timestamp r.previous_hash r.payload)) _
          h2 in
      let same : hash ≡ r.record_hash =
        (==_iff hash r.record_hash).0
          (not_rejected (hash == r.record_hash) record_hash_mismatch h3) in
      (
        (==_iff r.sequence sequence).0
            (not_rejected (r.sequence == sequence) sequence_mismatch first),
        (==_iff r.previous_hash previous_hash).0
            (not_rejected (r.previous_hash == previous_hash) previous_hash_mismatch second),
        map_err-eq-ok domain (codec.chain_hash r.sequence r.timestamp r.previous_hash r.payload)
              hashed
            ∙ ap (λ x. ok x) same,
      )

  parse_record-eq-ok :
      (bytes : List ℕ) {r : JournalRecord}
      → parse_record codec limits bytes ≡ ok r
      → codec.record_bytes r ≡ ok bytes
  unfolding parse_record
  parse_record-eq-ok bytes {r} h =
      let (s, _, h1) = >>=-eq-ok (map_err invalid_record (codec.parse bytes)) _ h in
      let (again, encoded, h2) = >>=-eq-ok (map_err domain (codec.record_bytes s)) _ h1 in
      let (canonical, h3) =
        >>-eq-ok (reject_if (not (equal_bytes again bytes)) non_canonical_record) _ h2 in
      let same : s ≡ r = cc h3 in
      let bytes_same =
        equal_bytes-eq again bytes
          (not_rejected (equal_bytes again bytes) non_canonical_record canonical) in
      rw (← same) (map_err-eq-ok domain (codec.record_bytes s) encoded ∙ ap (λ x. ok x) bytes_same)

  -- A frame that is accepted adds one link.
  pub record IsLink (state : ParseState) (bytes : List ℕ) (state' : ParseState) : Type 0 where
    pub r : JournalRecord
    pub counted : r.sequence ≡ state.next_sequence
    pub linked : r.previous_hash ≡ state.previous_hash
    pub hashed :
        codec.chain_hash r.sequence r.timestamp r.previous_hash r.payload ≡ ok r.record_hash
    pub encoded : codec.record_bytes r ≡ ok bytes
    pub records : state'.records ≡ state.records ++ r ∷ []
    pub hash : state'.previous_hash ≡ r.record_hash
    pub next : state'.next_sequence ≡ state.next_sequence + 1

  accept_frame-IsLink :
      (state : ParseState) (bytes : List ℕ) (state' : ParseState)
      → accept_frame codec limits state bytes ≡ ok state'
      → IsLink state bytes state'
  unfolding accept_frame push_record
  accept_frame-IsLink state bytes state' h =
      let (_, h1) = >>-eq-ok (ensure_record_limit state.next_sequence limits) _ h in
      let (r, parsed, h2) = >>=-eq-ok (parse_record codec limits bytes) _ h1 in
      let (valid, h3) =
        >>-eq-ok (validate_record codec r state.next_sequence state.previous_hash) _ h2 in
      let (_, h4) = >>-eq-ok (validate state.lifecycle r.payload) _ h3 in
      let (n, following, h5) =
        >>=-eq-ok (ok_or (checked_add state.next_sequence 1) sequence_overflow) _ h4 in
      let (counted, linked, hashed) =
        validate_record-eq-ok r state.next_sequence state.previous_hash valid in
      let one_more : n ≡ state.next_sequence + 1 = ground (arith, following) in
      record {
        r = r;
        counted = counted;
        linked = linked;
        hashed = hashed;
        encoded = parse_record-eq-ok bytes parsed;
        records = cc h5;
        hash = cc h5;
        next = (let same : n ≡ state'.next_sequence = cc h5 in sym same ∙ one_more);
      }

  pub accept_all-IsChain :
      (state : ParseState) (frames : List (List ℕ)) (end : ParseState)
      → accept_all codec limits state frames ≡ ok end
      → (records : List JournalRecord) × (end.records ≡ state.records ++ records)
        × IsChain codec state.next_sequence state.previous_hash records frames end.previous_hash
  unfolding accept_all
  accept_all-IsChain state [] end h =
      let same : state ≡ end = cc h in
      ([], rw same (sym (append-nil end.records)), ap (λ (s : ParseState). s.previous_hash) same)
  accept_all-IsChain state (bytes ∷ frames) end h =
      let (s, first, rest) =
        >>=-eq-ok (accept_frame codec limits state bytes) (λ s. accept_all codec limits s frames)
          h in
      let link = accept_frame-IsLink state bytes s first in
      let (records, all, chain) = accept_all-IsChain s frames end rest in
      (
        link.r ∷ records,
        all
            ∙ ap (λ rs. rs ++ records) link.records
            ∙ append_assoc state.records (link.r ∷ []) records,
        (link.counted, link.linked, link.hashed, link.encoded, rw (link.hash, link.next) at chain),
      )
