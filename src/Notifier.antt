-- ===== src/Notifier.antt =====
-- archive/notifier: the archiver task, which stores and publishes what the executor produced.
pub mod Task
pub mod Archive
pub mod Success
pub mod Failure
pub mod Keeps
pub mod Monotone
pub mod Publishes
