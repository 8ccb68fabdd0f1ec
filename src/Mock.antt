-- ===== src/Mock.antt =====
-- archive/runtime/src/mock.rs: the runtime api that the archive calls the runtime by. It stands for every
-- chain's own api, and passes a call on to the client with its arguments encoded.
pub mod State
pub mod Call
pub mod Apis
pub mod Dispatch
pub mod Laws
pub mod Object
pub mod Executes
pub mod Runs
pub mod Knot
pub mod Metadata
