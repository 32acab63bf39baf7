-- ===== src/Journal/Reader/Anchor.antt =====
-- What a terminal hash that was kept apart from the journal is worth.
use baseline_ops.Prelude.{
  ℕ, ◌+◌, ◌<◌, ◌≡◌, ◌≢◌, refl, sym, ◌∙◌, ap, List, [], ◌∷◌, ◌++◌, All, All-map, AreBytes, ok, arith,
}
use baseline_ops.Domain.Ids.{Digest}
use baseline_ops.Journal.Event.{JournalRecord}
use baseline_ops.Journal.Frame.{Codec, JournalLimits, JournalSnapshot, journal_magic}
use baseline_ops.Journal.Reader.Chain.{IsChain}
use baseline_ops.Journal.Reader.Frames.{frames_of}
use baseline_ops.Journal.Reader.Tamper.{read_bytes-IsChain}
use baseline_ops.Journal.Reader.Total.{read_bytes}

-- No record of the one list has the hash of another record of the other list.
abbrev pub IsCollisionFree : List JournalRecord → List JournalRecord → Type 0
IsCollisionFree records others =
    All
      (λ (r : JournalRecord).
        All (λ (s : JournalRecord). r.record_hash ≡ s.record_hash → r ≡ s) others)
      records

-- The hash is that of none of the records.
abbrev pub IsApart : Digest → List JournalRecord → Type 0
IsApart hash records = All (λ (s : JournalRecord). hash ≢ s.record_hash) records

module _ (codec : Codec) where
  later-IsApart :
      (hash : Digest) (earlier sequence : ℕ) (previous : Digest) (records : List JournalRecord)
      (frames : List (List ℕ)) (end : Digest)
      → earlier < sequence
      → IsChain codec sequence previous records frames end
      → All (λ (s : JournalRecord). hash ≡ s.record_hash → s.sequence ≡ earlier) records
      → IsApart hash records
  later-IsApart hash earlier sequence previous [] [] end lt chain same = tt
  later-IsApart hash earlier sequence previous [] (f ∷ frames) end lt chain same = tt
  later-IsApart hash earlier sequence previous (r ∷ records) [] end lt chain same = absurd chain
  later-IsApart hash earlier sequence previous (r ∷ records) (f ∷ frames) end lt
        (counted, _, _, _, chain) (here, same) =
      (
        λ e. omega (arith, lt, counted, here e),
        later-IsApart hash earlier (sequence + 1) r.record_hash records frames end
            (omega (arith, lt)) chain same,
      )

  end_of_chain :
      (hash : Digest) (sequence : ℕ) (previous : Digest) (r : JournalRecord)
      (records : List JournalRecord) (frames : List (List ℕ)) (end : Digest)
      → IsChain codec sequence previous (r ∷ records) frames end
      → IsApart hash (r ∷ records)
      → hash ≢ end
  end_of_chain hash sequence previous r records [] end chain apart e = chain
  end_of_chain hash sequence previous r [] (f ∷ []) end (_, _, _, _, last) (apart, _) e =
      apart (e ∙ sym last)
  end_of_chain hash sequence previous r [] (f ∷ g ∷ frames) end (_, _, _, _, more) apart e = more
  end_of_chain hash sequence previous r (s ∷ records) (f ∷ frames) end (_, _, _, _, chain)
        (_, apart) e =
      end_of_chain hash (sequence + 1) r.record_hash s records frames end chain apart e

  same_chain :
      (sequence : ℕ) (previous previous' : Digest) (records : List JournalRecord)
      (frames : List (List ℕ)) (records' : List JournalRecord) (frames' : List (List ℕ))
      (end : Digest)
      → IsChain codec sequence previous records frames end
      → IsChain codec sequence previous' records' frames' end
      → IsApart previous records'
      → IsApart previous' records
      → IsCollisionFree records records'
      → (previous ≡ previous') × (frames ≡ frames')
  same_chain n p p' [] [] [] [] end chain chain' apart apart' free = (chain ∙ sym chain', refl)
  same_chain n p p' [] (f ∷ fs) rs' fs' end chain chain' apart apart' free = absurd chain
  same_chain n p p' [] [] [] (f ∷ fs) end chain chain' apart apart' free = absurd chain'
  same_chain n p p' [] [] (r ∷ rs) fs end chain chain' apart apart' free =
      absurd (end_of_chain p n p' r rs fs end chain' apart chain)
  same_chain n p p' (r ∷ rs) [] rs' fs' end chain chain' apart apart' free = absurd chain
  same_chain n p p' (r ∷ rs) (f ∷ fs) [] [] end chain chain' apart apart' free =
      absurd (end_of_chain p' n p r rs (f ∷ fs) end chain apart' chain')
  same_chain n p p' (r ∷ rs) (f ∷ fs) [] (g ∷ gs) end chain chain' apart apart' free = absurd chain'
  same_chain n p p' (r ∷ rs) (f ∷ fs) (s ∷ ss) [] end chain chain' apart apart' free = absurd chain'
  same_chain n p p' (r ∷ rs) (f ∷ fs) (s ∷ ss) (g ∷ gs) end (counted, linked, _, encoded, chain)
        (counted', linked', _, encoded', chain') apart apart' ((here, row), rows) =
      let seq = λ (x y : JournalRecord) (e : x ≡ y). ap (λ (z : JournalRecord). z.sequence) e in
      let later =
        later-IsApart r.record_hash n (n + 1) s.record_hash ss gs end (omega arith) chain'
          (All-map (λ x same e. sym (seq r x (same e)) ∙ counted) ss row) in
      let later' =
        later-IsApart s.record_hash n (n + 1) r.record_hash rs fs end (omega arith) chain
          (All-map (λ x same e. seq x s (same.0 (sym e)) ∙ counted') rs rows) in
      let (same_hash, same_frames) =
        same_chain (n + 1) r.record_hash s.record_hash rs fs ss gs end chain chain' later later'
          (All-map (λ x same. same.1) rs rows) in
      let same : r ≡ s = here same_hash in
      let f-g : ok f ≡ ok g = sym encoded ∙ ap (λ x. codec.record_bytes x) same ∙ encoded' in
      let first : f ≡ g = cc f-g in
      (
        sym linked ∙ ap (λ (x : JournalRecord). x.previous_hash) same ∙ linked',
        ap (λ x. x ∷ fs) first ∙ ap (λ xs. g ∷ xs) same_frames,
      )

  -- Two files that the reader accepts with the same terminal hash are the same file, as long as no two
  -- different records of theirs have one hash, and none that of no bytes: whoever changes, drops, adds
  -- or reorders anything changes the terminal hash.
  pub read_bytes_terminal_hash :
      (limits limits' : JournalLimits) (bytes bytes' : List ℕ)
      (snapshot snapshot' : JournalSnapshot)
      → AreBytes bytes
      → AreBytes bytes'
      → read_bytes codec limits bytes ≡ ok snapshot
      → read_bytes codec limits' bytes' ≡ ok snapshot'
      → snapshot.terminal_hash ≡ snapshot'.terminal_hash
      → IsCollisionFree snapshot.records snapshot'.records
      → IsApart codec.empty_hash snapshot.records
      → IsApart codec.empty_hash snapshot'.records
      → bytes ≡ bytes'
  read_bytes_terminal_hash limits limits' bytes bytes' snapshot snapshot' are are' h h' same free
        apart apart' =
      let (frames, laid, chain) = read_bytes-IsChain codec limits bytes snapshot are h in
      let (frames', laid', chain') = read_bytes-IsChain codec limits' bytes' snapshot' are' h' in
      let (_, same_frames) =
        same_chain 0 codec.empty_hash codec.empty_hash snapshot.records frames snapshot'.records
          frames' snapshot'.terminal_hash (rw same at chain) chain' apart' apart free in
      laid ∙ ap (λ fs. journal_magic ++ frames_of fs) same_frames ∙ sym laid'
