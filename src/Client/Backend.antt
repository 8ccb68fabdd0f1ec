-- ===== src/Client/Backend.antt =====
-- What the client is given: the blockchain that it reads and the operation that it prepares for the
-- backend (sc-client-api, sp-blockchain, sp-consensus). What the client only carries is bytes.
use sub_archive.Prelude.{List, Option, Bool, Result}
use sub_archive.Chain.{
  Bytes, Hash, BlockNumber, BlockId, Header, Extrinsic, Justification, ChainError,
}

-- `blockchain::BlockStatus`
pub data InChain : Type 0 where
  in_chain : InChain
  unknown : InChain

-- `blockchain::Info`
pub record Info : Type 0 where
  pub best_hash : Hash
  pub best_number : BlockNumber
  pub finalized_hash : Hash
  pub finalized_number : BlockNumber
  pub genesis_hash : Hash

-- `sp_blockchain::TreeRoute`: the blocks to retract, from the start of the route down, and those to
-- enact, up to its end, by their hashes.
pub record TreeRoute : Type 0 where
  pub retracted : List Hash
  pub common_block : Hash
  pub enacted : List Hash

-- The reads of `backend.blockchain()` and the backend between two commits.
pub record Blockchain : Type 0 where
  pub status : Hash → Result ChainError InChain
  pub info : Info
  pub last_finalized : Result ChainError Hash
  pub number_of : Hash → Result ChainError (Option BlockNumber)
  pub hash_of : BlockNumber → Result ChainError (Option Hash)
  pub header : BlockId → Result ChainError (Option Header)
  pub children : Hash → Result ChainError (List Hash)
  pub tree_route : Hash → Hash → Result ChainError TreeRoute
  pub have_state_at : Hash → BlockNumber → Bool

-- `NewBlockState`
pub data NewBlockState : Type 0 where
  normal : NewBlockState
  best : NewBlockState
  final : NewBlockState

-- The calls of `BlockImportOperation` that the client makes, in order.
pub data Op : Type 0 where
  begin_state_operation : Hash → Op
  reset_storage : Bytes → Op
  update_cache : Bytes → Op
  update_offchain_storage : Bytes → Op
  update_db_storage : Bytes → Op
  update_storage : Bytes → Bytes → Op
  update_transaction_index : Bytes → Op
  update_changes_trie : Bytes → Op
  set_block_data :
      Header → Option (List Extrinsic) → Option (List Justification) → NewBlockState → Op
  insert_aux : List (Bytes × Option Bytes) → Op
  mark_finalized : Hash → Option Justification → Op
  mark_head : Hash → Op

-- `BlockOrigin`
pub data BlockOrigin : Type 0 where
  genesis : BlockOrigin
  network_initial_sync : BlockOrigin
  network_broadcast : BlockOrigin
  consensus_broadcast : BlockOrigin
  own : BlockOrigin
  file : BlockOrigin

-- `ForkChoiceStrategy`
pub data ForkChoiceStrategy : Type 0 where
  longest_chain : ForkChoiceStrategy
  custom : Bool → ForkChoiceStrategy

-- `ImportResult`; of the flags of an imported block the client sets `is_new_best` alone.
pub data ImportResult : Type 0 where
  imported : Bool → ImportResult
  already_in_chain : ImportResult
  known_bad : ImportResult
  unknown_parent : ImportResult
  missing_state : ImportResult

-- `sp_api::StorageChanges`
pub record StorageChanges : Type 0 where
  pub main_storage_changes : Bytes
  pub child_storage_changes : Bytes
  pub offchain_storage_changes : Bytes
  pub transaction : Bytes
  pub transaction_storage_root : Hash
  pub changes_trie_transaction : Option Bytes
  pub transaction_index_changes : Bytes

-- `BlockImportParams`; of the intermediates only whether there are some matters.
pub record BlockImportParams : Type 0 where
  pub origin : BlockOrigin
  pub header : Header
  pub justifications : Option (List Justification)
  pub post_digests : List Bytes
  pub body : Option (List Extrinsic)
  pub storage_changes : Option StorageChanges
  pub finalized : Bool
  pub auxiliary : List (Bytes × Option Bytes)
  pub fork_choice : Option ForkChoiceStrategy
  pub intermediates : List Bytes
  pub allow_missing_state : Bool
  pub import_existing : Bool
