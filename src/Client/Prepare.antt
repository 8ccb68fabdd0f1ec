-- ===== src/Client/Prepare.antt =====
-- `prepare_block_storage_changes` of client/service/src/client/client.rs.
use sub_archive.Prelude.{
  Option, none, some, Bool, true, false, Result, ok, err, ◌>>=◌, ok_or, nat_beq, if◌then◌else◌,
  List,
}
use sub_archive.Chain.{
  Bytes, Hash, Block, Extrinsic, BlockId, hash, ChainError, storage, invalid_state_root,
}
use sub_archive.Client.Backend.{
  BlockOrigin, BlockImportParams, StorageChanges, ImportResult, known_bad, unknown_parent,
  missing_state,
}
use sub_archive.Client.Status.{Client, BlockStatus, block_status}

-- `ExecutionContext`, of which the import uses two.
pub data ExecutionContext : Type 0 where
  syncing : ExecutionContext
  importing : ExecutionContext

-- The runtime api and the states: what a block's execution records, and the changes made of it.
pub record Runtime : Type 0 where
  pub execute_block_with_context : BlockId → ExecutionContext → Block → Result ChainError Bytes
  pub state_at : BlockId → Result ChainError Bytes
  pub changes_tries_state_at_block : BlockId → Result ChainError (Option Bytes)
  pub into_storage_changes : Bytes → Bytes → Option Bytes → Hash → Option StorageChanges

-- Whether the state is enacted, or what the import answers at once.
pub data Enact : Type 0 where
  answer : ImportResult → Enact
  enact_state : Bool → Enact

abbrev pub enacted : Bool → BlockStatus → Enact
enacted allow_missing_state BlockStatus.unknown = answer unknown_parent
enacted allow_missing_state BlockStatus.in_chain_with_state = enact_state true
enacted allow_missing_state BlockStatus.queued = enact_state true
enacted allow_missing_state BlockStatus.in_chain_pruned =
    if allow_missing_state then enact_state false else answer missing_state
enacted allow_missing_state BlockStatus.known_bad = answer known_bad

abbrev pub execution_context : BlockOrigin → ExecutionContext
execution_context BlockOrigin.network_initial_sync = syncing
execution_context BlockOrigin.network_broadcast = importing
execution_context BlockOrigin.consensus_broadcast = importing
execution_context BlockOrigin.genesis = importing
execution_context BlockOrigin.own = importing
execution_context BlockOrigin.file = importing

module _ (api : Runtime) where
  -- The block is executed, and its changes must have the root that its header names.
  unfoldable pub execute : BlockImportParams → List Extrinsic → Result ChainError BlockImportParams
  execute b body =
      let parent_hash = b.header.parent_hash in
      do
        executed ←
            api.execute_block_with_context (hash parent_hash) (execution_context b.origin)
              (record { header = b.header; extrinsics = body })
        state ← api.state_at (hash parent_hash)
        changes_trie_state ← api.changes_tries_state_at_block (hash parent_hash)
        changes ←
            ok_or storage (api.into_storage_changes executed state changes_trie_state parent_hash)
        if nat_beq b.header.state_root changes.transaction_storage_root
            then ok (record b { storage_changes = some changes })
            else err invalid_state_root

  -- `match (enact_state, storage_changes, body)`
  unfoldable pub fill :
      Bool
      → Option StorageChanges
      → Option (List Extrinsic)
      → BlockImportParams
      → Result ChainError BlockImportParams
  fill true (some _) _ b = ok b
  fill true none (some body) b = execute b body
  fill true none none b = ok b
  fill false _ _ b = ok (record b { storage_changes = none })

  abbrev answered :
      BlockImportParams → Enact → Result ChainError (Option ImportResult × BlockImportParams)
  answered b (answer r) = ok (some r, b)
  answered b (enact_state enact) =
      fill enact b.storage_changes b.body b >>= (λ filled. ok (none, filled))

  unfoldable pub prepare_block_storage_changes :
      Client → BlockImportParams → Result ChainError (Option ImportResult × BlockImportParams)
  prepare_block_storage_changes c b = do
    status ← block_status c (hash b.header.parent_hash)
    answered b (enacted b.allow_missing_state status)
