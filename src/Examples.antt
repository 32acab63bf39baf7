-- ===== src/Examples.antt =====
-- Concrete inputs, and the theorems at them.
mod Samples
mod Scheduling
mod Documents
mod Journal
mod SmallDisk
mod JournalFile
mod Planning
mod Boundary
mod Policies
mod NativeAction
