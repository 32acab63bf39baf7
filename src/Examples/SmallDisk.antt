-- ===== src/Examples/SmallDisk.antt =====
-- A codec for some records and a small disk, on which the journal's theorems are tried.
use baseline_ops.Prelude.{
  ℕ, zero, suc, ◌+◌, ◌-◌, ◌≤◌, ◌≡◌, refl, sym, ap, String, Bool, true, false, leb, if◌then◌else◌,
  List, [], ◌∷◌, ◌++◌, length, take, Outcome, ok, err, arith,
}
use baseline_ops.Domain.Ids.{DateTime}
use baseline_ops.Domain.Json.{DomainError, validation}
use baseline_ops.Journal.Event.{
  JournalEvent, plan_approved, action_started, action_finished, run_finished, JournalRecord,
}
use baseline_ops.Journal.Frame.{Codec, JournalLimits, journal_magic}
use baseline_ops.Journal.Reopen.{FileStore}
use baseline_ops.Journal.Reopen.Laws.{IsWorking}
use baseline_ops.Journal.Session.{Decodes}
use baseline_ops.Journal.Writer.{DurableWrite}
use baseline_ops.Journal.Writer.Storage.{IsStorage}

-- A codec for the two events that hold no text. A digest is the sequence number and one.
abbrev pub bytes_of : JournalRecord → JournalEvent → Outcome DomainError (List ℕ)
bytes_of r (plan_approved plan_id digest) =
    ok (0 ∷ r.sequence ∷ r.timestamp ∷ r.previous_hash ∷ r.record_hash ∷ plan_id ∷ digest ∷ [])
bytes_of r (run_finished result_id digest) =
    ok (1 ∷ r.sequence ∷ r.timestamp ∷ r.previous_hash ∷ r.record_hash ∷ result_id ∷ digest ∷ [])
bytes_of r (action_started action_id digest) = err (validation "not in this codec")
bytes_of r (action_finished action_id status digest) = err (validation "not in this codec")

abbrev pub event_of : (tag id digest : ℕ) → JournalEvent
event_of zero plan_id digest = plan_approved plan_id digest
event_of (suc n) result_id digest = run_finished result_id digest

abbrev pub parse_bytes_of : List ℕ → Outcome String JournalRecord
parse_bytes_of (tag ∷ sequence ∷ timestamp ∷ previous ∷ hash ∷ id ∷ digest ∷ []) = ok (record {
  sequence = sequence;
  timestamp = timestamp;
  previous_hash = previous;
  payload = event_of tag id digest;
  record_hash = hash;
})
parse_bytes_of other = err "no record"

abbrev pub small_codec : Codec
small_codec = record {
  record_bytes = λ r. bytes_of r r.payload;
  chain_hash = λ sequence timestamp previous payload. ok (sequence + 1);
  empty_hash = 0;
  parse = parse_bytes_of;
}

small_codec-payload :
    (r : JournalRecord) (e : JournalEvent) (bytes : List ℕ)
    → r.payload ≡ e
    → bytes_of r e ≡ ok bytes
    → parse_bytes_of bytes ≡ ok r
small_codec-payload r (plan_approved p d) bytes same h =
    let wrote : 0 ∷ r.sequence ∷ r.timestamp ∷ r.previous_hash ∷ r.record_hash ∷ p ∷ d ∷ []
        ≡ bytes =
      cc h in
    rw (← wrote) (ap (λ x. ok (record r { payload = x })) (sym same))
small_codec-payload r (run_finished p d) bytes same h =
    let wrote : 1 ∷ r.sequence ∷ r.timestamp ∷ r.previous_hash ∷ r.record_hash ∷ p ∷ d ∷ []
        ≡ bytes =
      cc h in
    rw (← wrote) (ap (λ x. ok (record r { payload = x })) (sym same))
small_codec-payload r (action_started a d) bytes same h = absurd (cc h)
small_codec-payload r (action_finished a s d) bytes same h = absurd (cc h)

pub small_codec-Decodes : Decodes small_codec
small_codec-Decodes r bytes h = small_codec-payload r r.payload bytes refl h

-- A disk with room for so many bytes more. It takes of a write what it has room for.
pub record Disk : Type 0 where
  pub bytes : List ℕ
  pub room : ℕ

abbrev pub disk_write : List ℕ → Disk → Outcome String (Unit {0}) × Disk
disk_write xs w =
    if leb (length xs) w.room
    then (ok tt, record { bytes = w.bytes ++ xs; room = w.room - length xs })
    else (err "no space left on device", record { bytes = w.bytes ++ take w.room xs; room = 0 })

abbrev pub disk_file : DurableWrite Disk
disk_file = record {
  write_all = disk_write;
  flush = λ w. (ok tt, w);
  synchronize = λ w. (ok tt, w);
}

disk-appends :
    (b : Bool) (xs : List ℕ) (w w' : Disk)
    → (let r : Outcome String (Unit {0}) × Disk =
          if b then (ok tt, record { bytes = w.bytes ++ xs; room = w.room - length xs }) else (
            err "no space left on device",
            record { bytes = w.bytes ++ take w.room xs; room = 0 },
          ) in
        r ≡ (ok tt, w'))
    → w'.bytes ≡ w.bytes ++ xs
disk-appends true xs w w' h = cc h
disk-appends false xs w w' h = absurd (cc h)

disk-stops :
    (b : Bool) (xs : List ℕ) (w w' : Disk) (e : String)
    → leb (length xs) w.room ≡ b
    → (let r : Outcome String (Unit {0}) × Disk =
          if b then (ok tt, record { bytes = w.bytes ++ xs; room = w.room - length xs }) else (
            err "no space left on device",
            record { bytes = w.bytes ++ take w.room xs; room = 0 },
          ) in
        r ≡ (err e, w'))
    → (k : ℕ) × (k ≤ length xs) × (w'.bytes ≡ w.bytes ++ take k xs)
disk-stops true xs w w' e full h = absurd (cc h)
disk-stops false xs w w' e full h = (w.room, ground (arith, full), cc h)

pub disk-IsStorage : IsStorage disk_file (λ (w : Disk). w.bytes)
disk-IsStorage = record {
  appends = λ xs w w' h. disk-appends (leb (length xs) w.room) xs w w' h;
  stops = λ xs w w' e h. disk-stops (leb (length xs) w.room) xs w w' e refl h;
  flush_keeps = λ w. refl;
  synchronize_keeps = λ w. refl;
}

abbrev pub disk_store : FileStore Disk
disk_store = record {
  read = λ w. ok w.bytes;
  open_write = λ w. (ok tt, w);
  open_append = λ w. (ok tt, w);
  set_len = λ n w. (ok tt, record { bytes = take n w.bytes; room = w.room });
  sync_all = λ w. (ok tt, w);
}

pub disk-IsWorking : IsWorking disk_store (λ (w : Disk). w.bytes)
disk-IsWorking = record {
  reads = λ w. refl;
  opens_write = λ w. (w, refl, refl);
  opens_append = λ w. (w, refl, refl);
  sets_len = λ n w le. (record { bytes = take n w.bytes; room = w.room }, refl, refl);
  syncs = λ w. (w, refl, refl);
}

abbrev pub small_limits : JournalLimits
small_limits = record { max_bytes = 1000; max_records = 10 }

-- An approval, an event that the codec refuses, and the end of the run.
abbrev pub session : List (DateTime × JournalEvent)
session = (5, plan_approved 1 2) ∷ (6, action_started "a" 3) ∷ (7, run_finished 8 9) ∷ []

abbrev pub empty_disk : (room : ℕ) → Disk
empty_disk room = record { bytes = []; room = room }

abbrev pub started : (room : ℕ) → Disk
started room = record { bytes = journal_magic; room = room }
