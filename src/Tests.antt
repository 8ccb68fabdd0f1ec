-- ===== src/Tests.antt =====
-- The theorems at concrete inputs, and runs of the code.
mod Data
mod Start
mod Tries
mod Calls
mod Network
mod Parts
mod Proofs
mod Blocks
mod Storage
mod Queue
mod Tasks
mod Flow
mod MockData
mod Mock
mod ClientData
mod Client
mod Finality
mod Overrides
