-- ===== src/Executor.antt =====
-- archive/executor: executes each block again and hands its storage changes to the archiver.
pub mod VersionCache
pub mod HostFunctions
pub mod VersionLaws
pub mod Block
pub mod Archive
pub mod Changes
pub mod Execution
pub mod Sends
