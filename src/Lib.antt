-- ===== src/Lib.antt =====
-- BaselineOps plans changes to a Windows host from a reviewed profile, lets an operator approve one
-- exact plan, and runs the plan's actions in a protected worker that keeps a journal. This library
-- models the parts of the Rust workspace that decide what may run and in which order.
--
-- The parts, each with its files:
--
--   Domain      rust/crates/baselineops-domain/src/model/, ids.rs, error.rs: the documents (profile,
--               plan, result, worker result) as records, their enumerations as data types. A UUID, a
--               digest and a moment are numbers, compared as the program compares them; a map is a
--               list in the order of its keys.
--   Validate    validate.rs and validate/: the checks on a document. Text and Json hold the bounds of
--               texts and of typed JSON values (`validate_value` passes its node counter on); Identity,
--               Plan, Evidence and Worker the checks on the documents, in the order of the source,
--               with its messages; Graph the dependency checks of validate/graph.rs.
--   Graph       the sort that both dependency checks share once their maps are taken away: positions
--               that wait for others, and the set of the positions that are ready.
--   Scheduler   rust/crates/baselineops-engine/src/scheduler/order.rs (Index, Loop, Order) and
--               scheduler.rs (State, Run): the topological order and the execution loop. The state of the
--               loop is `ExecutionState`; the runner, the cancellation token and the clock are the
--               fields of `Environment`, over any state of the world, passed through every call.
--   Journal     rust/crates/baselineops-engine/src/journal/lifecycle.rs (Lifecycle: the state machine
--               that the writer, the reader and the recovery consult before each event), journal.rs
--               (Frame, Writer and Reopen) and journal/reader.rs (Reader). The file is a `DurableWrite` or
--               a `FileStore` over any state of the world, serde_json and SHA-256 are a `Codec`. Session
--               has the appends of a client, one after the other, and what they leave in the file.
--   Planner     rust/crates/baselineops-engine/src/planner.rs: a plan from a profile, and the rebuilding of
--               a plan that was reviewed. The derivation of an action is a parameter.
--   WindowsUpdate  rust/crates/baselineops-capabilities/src/windows_update_policy.rs: the desired Windows
--               Update policy, its checks, and the plan of what differs from an observation.
--   NativeExecution  rust/crates/baselineops-engine/src/native_execution/action.rs: one Windows Update
--               action over an `ActionPort`, which is any port on any state of the world (Checks, Action).
--               Monitor wraps a port so that its calls can be told by their turn.
--   Load        rust/crates/baselineops-domain/src/load.rs and load/bounds.rs: bounded loading of JSON.
--   Approval    rust/crates/baselineops-engine/src/approval.rs: the approval of an exact digest.
--   Orchestrator  rust/crates/baselineops-engine/src/orchestrator.rs: the reboot that a run asks for.
--   Agreement   the two dependency checks beside each other: a plan is validated in one crate and
--               scheduled in the other.
--   Prelude     the libraries' names, lists, maps and sets over native numbers, and `Outcome`, which
--               is `Result` with its `?`.
--   Examples    concrete documents and runs, and the theorems at them.
--
-- A fallible function returns an `Outcome`; an index out of range, a subtraction below zero and a
-- missing key of `by_id[..]`, which panic, are the `none` of an `Option`. The two sorts run on
-- fuel, one round more than there are items: a position becomes ready once at most, and both
-- functions are defined by taking the value of a run that is proved to end without a panic. The
-- reader of a journal runs on one round more than there are bytes, and is defined in the same
-- way. Lengths of texts are in bytes; the sum of the artifact sizes is checked against 2 ^ 64.
--
-- Not modelled: serde, uuid, SHA-256 and the operating system, which are parameters where a
-- modelled function calls them (`Canonical` in Validate/Identity.antt, `Decoder` in Load.antt,
-- `Codec` in Journal/Frame.antt, `Planning` in Planner.antt, `Rendering` in NativeExecution.antt)
-- and absent otherwise; the apply authority, reporting, the collectors and the other policies of
-- single capabilities, the Windows crate, the applications and the PowerShell library. Opening
-- a new journal fails where the file exists already; that is left out, since the file of the model
-- is given. A JSON number is its printed text.
pub mod Prelude
pub mod Domain
pub mod Validate
pub mod Graph
pub mod Scheduler
pub mod Agreement
pub mod Approval
pub mod Orchestrator
pub mod Planner
pub mod WindowsUpdate
pub mod NativeExecution
pub mod Load
pub mod Journal
mod Examples
