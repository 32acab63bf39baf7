-- ===== src/Journal/Session/Durable.antt =====
-- What is read from the file of a journal that was created and appended to.
use baseline_ops.Prelude.{
  ℕ, ◌≤◌, ◌<◌, ◌^◌, ◌≡◌, refl, sym, ◌∙◌, ap, inl, inr, false, List, [], ◌∷◌, ◌++◌, length, String,
  le-or-lt, lt→ltb, Outcome, ok, err,
}
use baseline_ops.Domain.Ids.{DateTime}
use baseline_ops.Journal.Event.{
  JournalEvent, JournalRecord, JournalError, journal_size_limit_exceeded,
}
use baseline_ops.Journal.Frame.{Codec, JournalLimits, journal_magic, ensure_size_limit}
use baseline_ops.Journal.Lifecycle.{new_lifecycle}
use baseline_ops.Journal.Reader.{finish}
use baseline_ops.Journal.Reader.Frames.{accept_all}
use baseline_ops.Journal.Reader.Total.{read_bytes}
use baseline_ops.Journal.Reader.Whole.{ensure_size_limit_lem, read_bytes-parse_bytes}
use baseline_ops.Journal.Session.{Decodes, state_of, IsWritten}
use baseline_ops.Journal.Session.RoundTrip.{append_all, IsKept, append_all-IsKept}
use baseline_ops.Journal.Session.Reads.{IsWritten-parse_bytes}
use baseline_ops.Journal.Writer.{
  DurableWrite, Journal, append, after_io, initialize, create_with_limits,
}
use baseline_ops.Journal.Writer.Storage.{IsStorage}
use baseline_ops.Journal.Writer.Appends.{append-Committed, Committed}

-- The writer after `initialize`.
abbrev pub new_journal : Codec → JournalLimits → Journal
new_journal codec limits = record {
  next_sequence = 0;
  previous_hash = codec.empty_hash;
  current_bytes = length journal_magic;
  limits = limits;
  lifecycle = new_lifecycle;
  is_unusable = false;
}

-- What `initialize` and `create_with_limits` leave, when they succeed.
module _ (codec : Codec) {W : Type 0} (file : DurableWrite W) (content : W → List ℕ)
    (storage : IsStorage file content) where
  abbrev opened :
      JournalLimits → Outcome JournalError (Unit {0}) × W → Outcome JournalError Journal × W
  opened limits r = elim r.0 [ err e ↦ (err e, r.1) | ok _ ↦ (ok (new_journal codec limits), r.1) ]

  opened-eq-ok :
      (limits : JournalLimits) (r : Outcome JournalError (Unit {0}) × W) {journal : Journal}
      {w' : W}
      → opened limits r ≡ (ok journal, w')
      → (r.0 ≡ ok tt) × (new_journal codec limits ≡ journal) × (r.1 ≡ w')
  opened-eq-ok limits (err e, w₁) h = absurd (cc h)
  opened-eq-ok limits (ok u, w₁) h = (refl, cc h, cc h)

  synchronized :
      (bytes : List ℕ) (s : Outcome String (Unit {0}) × W)
      → content s.1 ≡ bytes
      → (let r = after_io s (λ w'. (ok tt, w')) in r.0 ≡ ok tt → content r.1 ≡ bytes)
  synchronized bytes (ok u, w') h done = h
  synchronized bytes (err e, w') h done = absurd (cc done)

  wrote_magic :
      (w : W) (s : Outcome String (Unit {0}) × W)
      → file.write_all journal_magic w ≡ s
      → (let r = after_io s (λ w₁. after_io (file.synchronize w₁) λ w₂. (ok tt, w₂)) in
          r.0 ≡ ok tt → content r.1 ≡ content w ++ journal_magic)
  wrote_magic w (ok u, w₁) h done =
      synchronized (content w ++ journal_magic) (file.synchronize w₁)
        (storage.synchronize_keeps w₁ ∙ storage.appends journal_magic w w₁ h) done
  wrote_magic w (err e, w₁) h done = absurd (cc done)

  initialize-eq-ok :
      (limits : JournalLimits) (w : W) {journal : Journal} {w' : W}
      → initialize codec file limits w ≡ (ok journal, w')
      → (new_journal codec limits ≡ journal) × (content w' ≡ content w ++ journal_magic)
  unfolding initialize
  initialize-eq-ok limits w h =
      let r =
        after_io (file.write_all journal_magic w)
          (λ w₁. after_io (file.synchronize w₁) λ w₂. (ok tt, w₂)) in
      let (done, same, same_world) = opened-eq-ok limits r h in
      (same, rw (← same_world) (wrote_magic w (file.write_all journal_magic w) refl done))

  fits-IsWritten :
      (limits : JournalLimits)
      → length journal_magic ≤ limits.max_bytes
      → IsWritten codec (new_journal codec limits) journal_magic []
  unfolding accept_all
  fits-IsWritten limits le = record {
    frames = [];
    laid_out = refl;
    sizes = tt;
    counted = refl;
    within = le;
    accepted = refl;
  }

  create-fits :
      (limits : JournalLimits) (w : W)
      → length journal_magic ≤ limits.max_bytes
      → create_with_limits codec file limits w ≡ initialize codec file limits w
  unfolding create_with_limits
  create-fits limits w le =
      rw (create_with_limits, ensure_size_limit_lem codec limits (length journal_magic) le) refl

  create-too_small :
      (limits : JournalLimits) (w : W)
      → limits.max_bytes < length journal_magic
      → create_with_limits codec file limits w
        ≡ (err (journal_size_limit_exceeded limits.max_bytes), w)
  unfolding create_with_limits ensure_size_limit
  create-too_small limits w lt =
      rw (create_with_limits, lt→ltb limits.max_bytes (length journal_magic) lt) refl

  pub create_with_limits-eq-ok :
      (limits : JournalLimits) (w : W) {journal : Journal} {w' : W}
      → content w ≡ []
      → create_with_limits codec file limits w ≡ (ok journal, w')
      → (new_journal codec limits ≡ journal) × IsKept codec journal (content w') []
  create_with_limits-eq-ok limits w empty h =
      elim (le-or-lt (length journal_magic) limits.max_bytes) [
        | inl le ↦
            let (same, now) = initialize-eq-ok limits w (sym (create-fits limits w le) ∙ h) in
            let all = now ∙ ap (λ bytes. bytes ++ journal_magic) empty in
            (same, inl (rw (← same) refl, rw (← same, all) (fits-IsWritten limits le)))
        | inr lt ↦ absurd (cc (h, create-too_small limits w lt))
      ]

  Committed-limits :
      (timestamp : DateTime) (payload : JournalEvent) (journal : Journal) (w : W)
      (answer : Outcome JournalError JournalRecord) (journal' : Journal) (w' : W)
      → Committed codec file content storage timestamp payload journal w answer journal' w'
      → journal'.limits ≡ journal.limits
  Committed-limits timestamp payload journal w (ok entry) journal' w' (p, _, _, same, _) =
      rw (← same) refl
  Committed-limits timestamp payload journal w (err e) journal' w' (inl (same, _)) = rw same refl
  Committed-limits timestamp payload journal w (err e) journal' w' (inr (p, _, same, _, _, _)) =
      rw same refl

  pub append_all-limits :
      (events : List (DateTime × JournalEvent)) (journal : Journal) (w : W)
      → (append_all codec file events journal w).1.limits ≡ journal.limits
  unfolding append_all
  append_all-limits [] journal w = refl
  append_all-limits ((timestamp, payload) ∷ events) journal w =
      let r = append codec file timestamp payload journal w in
      append_all-limits events r.1 r.2
      ∙ Committed-limits timestamp payload journal w r.0 r.1 r.2
          (append-Committed codec file content storage timestamp payload journal w)

  module _ (decodes : Decodes codec) where
    whole :
        (limits : JournalLimits) (journal : Journal) (bytes : List ℕ) (records : List JournalRecord)
        → limits.max_bytes < 2 ^ 64
        → journal.limits ≡ limits
        → journal.is_unusable ≡ false
        → IsKept codec journal bytes records
        → read_bytes codec limits bytes
          ≡ ok (record { records = records; terminal_hash = journal.previous_hash })
    unfolding finish
    whole limits journal bytes records lt same usable (inl (free, so_far)) =
        let small : journal.limits.max_bytes < 2 ^ 64 = rw same lt in
        rw (← same) (
          read_bytes-parse_bytes codec journal.limits bytes (finish (state_of journal records))
            (IsWritten-parse_bytes codec journal bytes records small so_far))
    whole limits journal bytes records lt same usable (inr torn) =
        cc (usable, ap (λ (j : Journal). j.is_unusable) torn.now)

    -- A journal is created on an empty file and events are appended to it, some of them refused. As
    -- long as no write failed, the file reads back as exactly the records that the appends returned,
    -- in order, with the writer's hash at the end.
    pub append_all-read_bytes :
        (limits : JournalLimits) (events : List (DateTime × JournalEvent)) (w w₁ : W)
        {journal : Journal}
        → limits.max_bytes < 2 ^ 64
        → content w ≡ []
        → create_with_limits codec file limits w ≡ (ok journal, w₁)
        → (append_all codec file events journal w₁).1.is_unusable ≡ false
        → read_bytes codec limits (content (append_all codec file events journal w₁).2)
          ≡ ok (record {
            records = (append_all codec file events journal w₁).0;
            terminal_hash = (append_all codec file events journal w₁).1.previous_hash;
          })
    append_all-read_bytes limits events w w₁ {journal} lt empty created usable =
        let (same, kept) = create_with_limits-eq-ok limits w empty created in
        let r = append_all codec file events journal w₁ in
        whole limits r.1 (content r.2) r.0 lt
          (append_all-limits events journal w₁ ∙ ap (λ (j : Journal). j.limits) (sym same)) usable
          (append_all-IsKept codec decodes file content storage events journal w₁ [] kept)
