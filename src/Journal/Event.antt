-- ===== src/Journal/Event.antt =====
-- The events and the errors of journal.rs. The causes that other crates report (platform, I/O,
-- serde) are kept as texts.
use baseline_ops.Prelude.{ℕ, String}
use baseline_ops.Domain.Ids.{PlanId, ResultId, Digest, DateTime}
use baseline_ops.Domain.Json.{DomainError}
use baseline_ops.Domain.Results.{ActionStatus}

pub data JournalEvent : Type 0 where
  plan_approved : (plan_id : PlanId) → (plan_digest : Digest) → JournalEvent
  action_started : (action_id : String) → (pre_state_digest : Digest) → JournalEvent
  action_finished :
      (action_id : String) → (status : ActionStatus) → (receipt_digest : Digest) → JournalEvent
  run_finished : (result_id : ResultId) → (result_digest : Digest) → JournalEvent

pub record JournalRecord : Type 0 where
  pub sequence : ℕ
  pub timestamp : DateTime
  pub previous_hash : Digest
  pub payload : JournalEvent
  pub record_hash : Digest

pub data JournalError : Type 0 where
  protection : String → JournalError
  io : String → JournalError
  domain : DomainError → JournalError
  write_failed : JournalError
  invalid_lifecycle : String → JournalError
  action_recovery_required : String → JournalError
  record_too_large : JournalError
  journal_size_limit_exceeded : (limit : ℕ) → JournalError
  journal_record_limit_exceeded : (limit : ℕ) → JournalError
  bad_magic : JournalError
  incomplete_frame : JournalError
  non_canonical_record : JournalError
  invalid_record : String → JournalError
  sequence_mismatch : JournalError
  sequence_overflow : JournalError
  previous_hash_mismatch : JournalError
  record_hash_mismatch : JournalError
  terminal_hash_mismatch : JournalError
