-- ===== src/Client/Import.antt =====
-- `apply_block` and `execute_and_import_block` of client/service/src/client/client.rs.
use sub_archive.Prelude.{
  List, [], ◌∷◌, ◌++◌, Option, none, some, Bool, true, false, not, ◌&&◌, ◌||◌, Result, ok, err,
  nat_beq, leb, ltb, if◌then◌else◌,
}
use sub_archive.Prelude.Assoc.{is_some}
use sub_archive.Chain.{
  Bytes, Hash, Header, ChainError, not_in_finalized_chain, unknown_block, incomplete_pipeline,
}
use sub_archive.Client.Backend
use sub_archive.Client.Backend.{
  Blockchain, InChain, in_chain, Info, TreeRoute, NewBlockState, normal, best, final, BlockOrigin,
  ForkChoiceStrategy, longest_chain, custom, ImportResult, imported, already_in_chain,
  StorageChanges, BlockImportParams, begin_state_operation, update_cache, update_offchain_storage,
  update_db_storage, update_storage, update_transaction_index, update_changes_trie, set_block_data,
  insert_aux,
}
use sub_archive.Client.Operation.{
  Task, ◌>>=◌, Accepts, call, issue, lift, fail, pure, skip, assert, when, push_finalized,
  set_imported, set_importing, ImportSummary,
}
use sub_archive.Client.Finality.{apply_finality_with_block_hash, is_empty}

-- `PrePostHeader`
pub data PrePostHeader : Type 0 where
  same : Header → PrePostHeader
  different : Header → Header → PrePostHeader

abbrev pub post : PrePostHeader → Header
post (same h) = h
post (different _ h) = h

-- Whether the import is told to those who listen.
abbrev pub make_notifications : BlockOrigin → Bool
make_notifications BlockOrigin.network_broadcast = true
make_notifications BlockOrigin.own = true
make_notifications BlockOrigin.consensus_broadcast = true
make_notifications BlockOrigin.genesis = false
make_notifications BlockOrigin.network_initial_sync = false
make_notifications BlockOrigin.file = false

abbrev chosen : ForkChoiceStrategy → Header → Info → Bool
chosen longest_chain h info = ltb info.best_number h.number
chosen (custom v) h info = v

unfoldable pub is_new_best : Bool → ForkChoiceStrategy → Header → Info → Bool
is_new_best finalized fork_choice h info = finalized || chosen fork_choice h info

unfoldable pub leaf_state : Bool → Bool → NewBlockState
leaf_state finalized is_best = if finalized then final else (if is_best then best else normal)

abbrev pub import_headers : Header → List Bytes → PrePostHeader
import_headers h [] = same h
import_headers h (item ∷ rest) = different h (record h { digest = h.digest ++ item ∷ rest })

-- `match (import_existing, status)`: an answer, an error, or `none` to go on.
abbrev pub existing : Bool → InChain → Result ChainError (Option ImportResult)
existing false in_chain = ok (some already_in_chain)
existing false Backend.unknown = ok none
existing true in_chain = ok none
existing true Backend.unknown = err unknown_block

abbrev pub justified : BlockImportParams → Bool
justified b = is_some b.justifications && b.finalized || not (is_some b.justifications)

module _ (chain : Blockchain) (accepts : Accepts) (offchain_indexing_api : Bool) where
  abbrev update_trie : Option Bytes → Task (Unit {0})
  update_trie none = skip
  update_trie (some tx) = call accepts (update_changes_trie tx)

  -- The storage changes of the block, and first the finality of its parent.
  unfoldable pub enact :
      Hash → Bool → Bool → Bytes → Option StorageChanges → Task (Option (Bytes × Bytes))
  enact parent_hash finalized notify new_cache none = pure none
  enact parent_hash finalized notify new_cache (some changes) = do
    _ ← call accepts (begin_state_operation parent_hash)
    _ ←
        when finalized (
          apply_finality_with_block_hash chain accepts parent_hash none chain.info.best_hash notify)
    _ ← issue (update_cache new_cache)
    _ ←
        when offchain_indexing_api
          (call accepts (update_offchain_storage changes.offchain_storage_changes))
    _ ← call accepts (update_db_storage changes.transaction)
    _ ← call accepts (update_storage changes.main_storage_changes changes.child_storage_changes)
    _ ← call accepts (update_transaction_index changes.transaction_index_changes)
    _ ← update_trie changes.changes_trie_transaction
    pure (some (changes.main_storage_changes, changes.child_storage_changes))

  -- The route to the block's parent, where the block is the new best one off the best chain.
  unfoldable pub route_to : Bool → Hash → Task (Option TreeRoute)
  route_to is_best parent_hash =
      if is_best && not (nat_beq chain.info.best_hash parent_hash)
      then (do route ← lift (chain.tree_route chain.info.best_hash parent_hash); pure (some route))
      else pure none

  unfoldable pub announce : Bool → Hash → Option TreeRoute → ImportSummary → Task (Unit {0})
  announce finalized h route summary =
      when (make_notifications summary.origin || is_some route)
        (do _ ← when finalized (push_finalized (h ∷ [])); set_imported summary)

  unfoldable pub import_new :
      Hash → PrePostHeader → Bytes → ForkChoiceStrategy → BlockImportParams → Task ImportResult
  unfolding enact route_to announce
  import_new h headers new_cache fork_choice b =
      let is_best = is_new_best b.finalized fork_choice (post headers) chain.info in
      do
        storage_changes ←
            enact (post headers).parent_hash b.finalized (make_notifications b.origin) new_cache
              b.storage_changes
        tree_route ← route_to is_best (post headers).parent_hash
        _ ←
            call accepts (
              set_block_data (post headers) b.body b.justifications
                (leaf_state b.finalized is_best))
        _ ← call accepts (insert_aux b.auxiliary)
        _ ← announce b.finalized h tree_route (record {
          block_hash = h;
          origin = b.origin;
          header = post headers;
          is_new_best = is_best;
          storage_changes = storage_changes;
          tree_route = tree_route;
        })
        pure (imported is_best)

  unfoldable pub after_status :
      Hash
      → PrePostHeader
      → Bytes
      → ForkChoiceStrategy
      → BlockImportParams
      → Option ImportResult
      → Task ImportResult
  after_status h headers new_cache fork_choice b (some answer) = pure answer
  after_status h headers new_cache fork_choice b none =
      if leb (post headers).number chain.info.finalized_number
      then fail not_in_finalized_chain
      else import_new h headers new_cache fork_choice b

  unfoldable pub execute_and_import_block :
      Hash → PrePostHeader → Bytes → ForkChoiceStrategy → BlockImportParams → Task ImportResult
  unfolding after_status
  execute_and_import_block h headers new_cache fork_choice b = do
    status ← lift (chain.status h)
    answer ← lift (existing b.import_existing status)
    after_status h headers new_cache fork_choice b answer

  chosen_fork : Option ForkChoiceStrategy → Result ChainError ForkChoiceStrategy
  chosen_fork none = err incomplete_pipeline
  chosen_fork (some choice) = ok choice

  unfoldable pub apply_block : (Header → Hash) → BlockImportParams → Bytes → Task ImportResult
  unfolding chosen_fork
  apply_block header_hash b new_cache =
      let headers = import_headers b.header b.post_digests in
      let h = header_hash (post headers) in
      do
        _ ← assert (justified b)
        _ ← if is_empty b.intermediates then skip else fail incomplete_pipeline
        fork_choice ← lift (chosen_fork b.fork_choice)
        _ ← set_importing h
        execute_and_import_block h headers new_cache fork_choice b
