-- ===== src/NativeExecution.antt =====
-- rust/crates/baselineops-engine/src/native_execution/action.rs: what one native action is given and
-- what it gives back. The port's `&mut self` is a state of the world that is passed on. The digests
-- of serde_json and SHA-256, and the texts of identifiers and fields, are the fields of `Rendering`.
pub mod Checks
pub mod Attempt
pub mod Action
pub mod Monitor
pub mod Triples
pub mod Complete
pub mod Terminal
pub mod Laws
use baseline_ops.Prelude.{String, Bool, Option, Outcome}
use baseline_ops.Domain.Ids.{ActionId, Digest}
use baseline_ops.Domain.Results.{ActionReceipt}
use baseline_ops.Journal.Event.{JournalEvent}
use baseline_ops.WindowsUpdate.{WindowsUpdateField, PolicyValueSnapshot, WindowsUpdateObservation}

pub data FailurePhase : Type 0 where
  precondition recovery_evidence journal mutation postcondition : FailurePhase

pub record ActionFailure : Type 0 where
  pub phase : FailurePhase
  pub detail : String
  pub mutation_attempted : Bool

pub record ActionOutcome : Type 0 where
  pub receipt : Option ActionReceipt
  pub failure : Option ActionFailure
  pub reboot_possible : Bool
  pub may_finish_run : Bool

pub record ActionPort (W : Type 0) : Type 0 where
  pub observe : W → Outcome String WindowsUpdateObservation × W
  pub persist_recovery :
      ActionId
      → WindowsUpdateObservation
      → WindowsUpdateObservation
      → W
      → Outcome String (Unit {0}) × W
  pub append : JournalEvent → W → Outcome String (Unit {0}) × W
  pub mutate :
      WindowsUpdateField
      → PolicyValueSnapshot
      → PolicyValueSnapshot
      → W
      → Outcome String PolicyValueSnapshot × W

pub record Rendering : Type 0 where
  pub observation_digest : WindowsUpdateObservation → Outcome String Digest
  pub receipt_digest : ActionReceipt → Outcome String Digest
  pub action_text : ActionId → String
  pub field_text : WindowsUpdateField → String
