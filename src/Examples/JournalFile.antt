-- ===== src/Examples/JournalFile.antt =====
-- A journal on a small disk: the theorems on the writer, the reader and the recovery at work.
use baseline_ops.Prelude.{ℕ, ◌≡◌, refl, false, List, [], ◌∷◌, ◌++◌, AreBytes, ok, arith}
use baseline_ops.Journal.Event.{plan_approved}
use baseline_ops.Journal.Frame.{journal_magic}
use baseline_ops.Journal.Lifecycle.{require_resumable}
use baseline_ops.Journal.Reader.{ParsedJournal}
use baseline_ops.Journal.Reader.Anchor.{read_bytes_terminal_hash}
use baseline_ops.Journal.Reader.Chain.{IsChain}
use baseline_ops.Journal.Reader.Frames.{frames_of}
use baseline_ops.Journal.Reader.Tamper.{read_bytes-IsChain}
use baseline_ops.Journal.Reader.Total.{read_bytes}
use baseline_ops.Journal.Reopen.{FileStore, open_with_limits, validate_recover, recover_with_limits}
use baseline_ops.Journal.Reopen.Session.{
  IsRecovered, append_all-IsRecovered, append_all-open_with_limits,
}
use baseline_ops.Journal.Session.Durable.{new_journal, append_all-read_bytes}
use baseline_ops.Journal.Session.RoundTrip.{append_all}
use baseline_ops.Journal.Writer.{Journal, append, create_with_limits}
use baseline_ops.Examples.SmallDisk.{
  Disk, small_codec, small_codec-Decodes, disk_file, disk_store, disk-IsStorage, disk-IsWorking,
  small_limits, session, empty_disk, started,
}

abbrev small_journal : Journal
small_journal = new_journal small_codec small_limits

abbrev content : Disk → List ℕ
content w = w.bytes

created_1000 :
    create_with_limits small_codec disk_file small_limits (empty_disk 1000)
    ≡ (ok small_journal, started 977)
unfolding create_with_limits
created_1000 = refl

created_40 :
    create_with_limits small_codec disk_file small_limits (empty_disk 40)
    ≡ (ok small_journal, started 17)
unfolding create_with_limits
created_40 = refl

still_usable :
    (append_all small_codec disk_file session small_journal (started 977)).1.is_unusable ≡ false
unfolding append_all append
still_usable = refl

append_all-read_bytes_example :
    read_bytes small_codec small_limits
      (append_all small_codec disk_file session small_journal (started 977)).2.bytes
    ≡ ok (record {
      records = (append_all small_codec disk_file session small_journal (started 977)).0;
      terminal_hash =
          (append_all small_codec disk_file session small_journal (started 977)).1.previous_hash;
    })
append_all-read_bytes_example =
    append_all-read_bytes small_codec disk_file content disk-IsStorage small_codec-Decodes
      small_limits session (empty_disk 1000) (started 977) (omega arith) refl created_1000
      still_usable

-- The last record finds room for six bytes.
abbrev six_bytes : ParsedJournal
six_bytes = record {
  snapshot = record {
    records =
        record {
          sequence = 0;
          timestamp = 5;
          previous_hash = 0;
          payload = plan_approved 1 2;
          record_hash = 1;
        }
        ∷ [];
    terminal_hash = 1;
  };
  next_sequence = 1;
  valid_bytes = 34;
  trailing_bytes = 6;
}

recover_checked :
    validate_recover small_codec disk_store small_limits
      (append_all small_codec disk_file session small_journal (started 17)).2
    ≡ ok six_bytes
unfolding append_all append validate_recover baseline_ops.Journal.Reopen.parse_journal
    baseline_ops.Journal.Reader.Total.parse_bytes baseline_ops.Journal.Reader.parse_rounds
    baseline_ops.Journal.Lifecycle.replay baseline_ops.Journal.Lifecycle.validate_recovery
recover_checked = refl

append_all-IsRecovered_example :
    IsRecovered small_codec disk_store content disk-IsWorking small_limits
      (append_all small_codec disk_file session small_journal (started 17)).0
      6
      (append_all small_codec disk_file session small_journal (started 17)).2
append_all-IsRecovered_example =
    append_all-IsRecovered small_codec disk_file disk_store content small_limits session
      (empty_disk 40) (started 17) {parsed = six_bytes} small_codec-Decodes disk-IsStorage
      disk-IsWorking (omega arith) refl created_40 recover_checked

-- The file with the one record.
abbrev one_record : List ℕ
one_record = journal_magic ++ (7 ∷ 0 ∷ 0 ∷ 0 ∷ 0 ∷ 0 ∷ 5 ∷ 0 ∷ 1 ∷ 1 ∷ 2 ∷ [])

one_record-AreBytes : AreBytes one_record
one_record-AreBytes = omega arith

one_record-read_bytes : read_bytes small_codec small_limits one_record ≡ ok six_bytes.snapshot
unfolding read_bytes baseline_ops.Journal.Reader.parse_rounds
one_record-read_bytes = refl

read_bytes-IsChain_example :
    (frames : List (List ℕ)) × (one_record ≡ journal_magic ++ frames_of frames)
    × IsChain small_codec 0 0 six_bytes.snapshot.records frames 1
read_bytes-IsChain_example =
    read_bytes-IsChain small_codec small_limits one_record six_bytes.snapshot one_record-AreBytes
      one_record-read_bytes

read_bytes_terminal_hash_example : one_record ≡ one_record
read_bytes_terminal_hash_example =
    read_bytes_terminal_hash small_codec small_limits small_limits one_record one_record
      six_bytes.snapshot six_bytes.snapshot one_record-AreBytes one_record-AreBytes
      one_record-read_bytes one_record-read_bytes refl ((λ e. refl, tt), tt)
      (λ e. omega (arith, e), tt) (λ e. omega (arith, e), tt)

resumable_end :
    require_resumable
      (append_all small_codec disk_file session small_journal (started 977)).1.lifecycle
    ≡ ok tt
unfolding append_all append require_resumable
resumable_end = refl

append_all-open_with_limits_example :
    (w' : Disk) × (open_with_limits small_codec disk_store small_limits
        (append_all small_codec disk_file session small_journal (started 977)).2
      ≡ (ok (append_all small_codec disk_file session small_journal (started 977)).1, w'))
    × (w'.bytes ≡ (append_all small_codec disk_file session small_journal (started 977)).2.bytes)
append_all-open_with_limits_example =
    append_all-open_with_limits small_codec disk_file disk_store content small_limits session
      (empty_disk 1000) (started 977) small_codec-Decodes disk-IsStorage disk-IsWorking
      (omega arith) refl created_1000 still_usable resumable_end
