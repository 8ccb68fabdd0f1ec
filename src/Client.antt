-- ===== src/Client.antt =====
-- The node's client: client/service/src/client/client.rs, with its rules, notifications and queries.
pub mod Rules
pub mod Backend
pub mod Status
pub mod Check
pub mod CheckLaws
pub mod Operation
pub mod Finality
pub mod Import
pub mod Prepare
pub mod Notifies
pub mod Lock
pub mod FinalityLaws
pub mod FinalityOrder
pub mod ImportLaws
pub mod NotifyLaws
pub mod LockLaws
pub mod PrepareLaws
pub mod ImportBlock
pub mod Succeeds
pub mod Uncles
pub mod Provide
pub mod UncleLaws
pub mod Overrides
pub mod OverrideLaws
pub mod OverrideScrape
pub mod ChangesTrie
pub mod TrieLaws
pub mod KeyReturns
pub mod KeyChanges
pub mod CallExecutor
pub mod CallLaws
pub mod Genesis
pub mod GenesisLaws
pub mod Proofs
pub mod RootRecord
pub mod ProofLaws
pub mod Api
pub mod ApiLaws
pub mod Streams
pub mod StreamLaws
pub mod Blocks
pub mod Storage
