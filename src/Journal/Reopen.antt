-- ===== src/Journal/Reopen.antt =====
-- The entry points of journal.rs on a file that exists: read, verify, open and recover. The file is
-- a `FileStore` over a state of the world; a file that was opened is not told apart from its bytes.
pub mod Laws
pub mod Recover
pub mod Session
use baseline_ops.Prelude.{
  ℕ, ◌==◌, String, Bool, true, false, not, if◌then◌else◌, List, map, Outcome, ok, err, reject_if,
  ◌>>=◌, ◌>>◌,
}
use baseline_ops.Domain.Ids.{Digest}
use baseline_ops.Journal.Event.{
  JournalRecord, JournalError, io, incomplete_frame, terminal_hash_mismatch,
}
use baseline_ops.Journal.Frame.{Codec, JournalLimits, JournalSnapshot}
use baseline_ops.Journal.Lifecycle.{
  Lifecycle, new_lifecycle, replay, require_resumable, validate_recovery,
}
use baseline_ops.Journal.Reader.{ParsedJournal}
use baseline_ops.Journal.Reader.Total.{parse_bytes}
use baseline_ops.Journal.Writer.{Journal, after_io}

pub record FileStore (W : Type 0) : Type 0 where
  -- to open the file and to read it to its end
  pub read : W → Outcome String (List ℕ)
  pub open_write : W → Outcome String (Unit {0}) × W
  pub open_append : W → Outcome String (Unit {0}) × W
  pub set_len : ℕ → W → Outcome String (Unit {0}) × W
  pub sync_all : W → Outcome String (Unit {0}) × W

pub record JournalRecovery : Type 0 where
  pub truncated_bytes : ℕ

-- `Lifecycle::from_snapshot`
abbrev pub from_snapshot : JournalSnapshot → Outcome JournalError Lifecycle
from_snapshot snapshot =
    replay new_lifecycle (map (λ (r : JournalRecord). r.payload) snapshot.records)

-- `Self { … }` of `open_with_limits`
abbrev pub reopened : JournalLimits → ParsedJournal → Lifecycle → Journal
reopened limits parsed lifecycle = record {
  next_sequence = parsed.next_sequence;
  previous_hash = parsed.snapshot.terminal_hash;
  current_bytes = parsed.valid_bytes;
  limits = limits;
  lifecycle = lifecycle;
  is_unusable = false;
}

unfoldable pub truncate_incomplete_frame :
    {W : Type 0} (store : FileStore W) (valid_bytes trailing_bytes : ℕ)
    → W
    → Outcome JournalError (Unit {0}) × W
truncate_incomplete_frame store valid_bytes trailing_bytes w =
    if trailing_bytes == 0
    then (ok tt, w)
    else (after_io (store.open_write w) λ w₁.
        after_io (store.set_len valid_bytes w₁)
          λ w₂. after_io (store.sync_all w₂) λ w₃. (ok tt, w₃))

module _ (codec : Codec) {W : Type 0} (store : FileStore W) (limits : JournalLimits) where
  unfoldable pub parse_journal : W → Outcome JournalError ParsedJournal
  parse_journal w = elim (store.read w) [
    | err e ↦ err (io e)
    | ok bytes ↦ parse_bytes codec limits bytes
  ]

  unfoldable pub complete_parse : W → Outcome JournalError ParsedJournal
  complete_parse w = do
    parsed ← parse_journal w
    reject_if (not (parsed.trailing_bytes == 0)) incomplete_frame
    ok parsed

  unfoldable pub read_with_limits : W → Outcome JournalError JournalSnapshot
  read_with_limits w = complete_parse w >>= λ parsed. ok parsed.snapshot

  unfoldable pub verify_with_limits :
      (expected_terminal_hash : Digest) → W → Outcome JournalError JournalSnapshot
  verify_with_limits expected_terminal_hash w = do
    snapshot ← read_with_limits w
    reject_if (not (snapshot.terminal_hash == expected_terminal_hash)) terminal_hash_mismatch
    ok snapshot

  -- `open_with_limits`, up to the file that it opens to append to.
  unfoldable pub validate_open : W → Outcome JournalError Journal
  validate_open w = do
    parsed ← complete_parse w
    lifecycle ← from_snapshot parsed.snapshot
    require_resumable lifecycle
    ok (reopened limits parsed lifecycle)

  unfoldable pub open_with_limits : W → Outcome JournalError Journal × W
  open_with_limits w = elim (validate_open w) [
    | err e ↦ (err e, w)
    | ok journal ↦ elim (store.open_append w).0 [
      | err e ↦ (err (io e), (store.open_append w).1)
      | ok _ ↦ (ok journal, (store.open_append w).1)
    ]
  ]

  -- the checks of `recover_with_limits`, before it touches the file
  unfoldable pub validate_recover : W → Outcome JournalError ParsedJournal
  validate_recover w = do
    parsed ← parse_journal w
    lifecycle ← from_snapshot parsed.snapshot
    validate_recovery lifecycle parsed.trailing_bytes
    ok parsed

  unfoldable pub recover_open :
      (trailing_bytes : ℕ)
      → Outcome JournalError (Unit {0}) × W
      → Outcome JournalError (Journal × JournalRecovery) × W
  recover_open trailing_bytes (err e, w) = (err e, w)
  recover_open trailing_bytes (ok u, w) =
      let (answer, w') = open_with_limits w in
      elim answer [
        | err e ↦ (err e, w')
        | ok journal ↦ (ok (journal, record { truncated_bytes = trailing_bytes }), w')
      ]

  unfoldable pub recover_with_limits : W → Outcome JournalError (Journal × JournalRecovery) × W
  recover_with_limits w = elim (validate_recover w) [
    | err e ↦ (err e, w)
    | ok parsed ↦
        recover_open parsed.trailing_bytes
          (truncate_incomplete_frame store parsed.valid_bytes parsed.trailing_bytes w)
  ]
