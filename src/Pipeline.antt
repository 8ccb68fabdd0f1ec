-- ===== src/Pipeline.antt =====
-- The archive as a whole: cli/src/service.rs starts the tasks, and archive/notifier/src/comparer.rs
-- and initializer.rs close the loop between them.
pub mod Comparer
pub mod Initializer
pub mod Walk
pub mod System
pub mod Order
pub mod Accounting
pub mod Bound
pub mod Ahead
pub mod Progress
pub mod Archived
pub mod Turns
pub mod Traces
pub mod Provenance
pub mod Published
pub mod Versions
