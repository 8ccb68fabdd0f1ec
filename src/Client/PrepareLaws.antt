-- ===== src/Client/PrepareLaws.antt =====
-- What `prepare_block_storage_changes` leaves for the import.
use sub_archive.Prelude.{◌≡◌, ◌≢◌, ◌⊎◌, none, some, ok, true, false, arith}
use sub_archive.Chain.{hash}
use sub_archive.Client.Backend.{BlockImportParams, StorageChanges, ImportResult, imported}
use sub_archive.Client.Status.{Client, BlockStatus, block_status}
use sub_archive.Client.Check.{BlockCheckParams, check_block}
use sub_archive.Client.CheckLaws.{check_block-imported_iff}
use sub_archive.Client.Prepare.{Runtime, prepare_block_storage_changes, execute, fill}

module _ (api : Runtime) where
  -- A block that goes on to the import has the parameters it came with but for its storage changes.
  -- Its parent has its state or is queued, or the parent is pruned, a missing state is allowed, and
  -- the block has no storage changes.
  pub prepare-IsReady :
      (c : Client) (b b' : BlockImportParams)
      → prepare_block_storage_changes api c b ≡ ok (none, b')
      → (b' ≡ record b { storage_changes = b'.storage_changes })
        × ((block_status c (hash b.header.parent_hash) ≡ ok BlockStatus.in_chain_with_state)
            ⊎ ((block_status c (hash b.header.parent_hash) ≡ ok BlockStatus.queued)
                ⊎ ((b.allow_missing_state ≡ true)
                    × (block_status c (hash b.header.parent_hash) ≡ ok BlockStatus.in_chain_pruned)
                    × (b'.storage_changes ≡ none))))
  unfolding prepare_block_storage_changes fill execute
  prepare-IsReady c b b' e = ground arith

  -- A block that came without storage changes and goes on to the import with some has those whose
  -- root its header names.
  pub prepare-state_root :
      (c : Client) (b b' : BlockImportParams) (changes : StorageChanges)
      → prepare_block_storage_changes api c b ≡ ok (none, b')
      → b.storage_changes ≡ none
      → b'.storage_changes ≡ some changes
      → b.header.state_root ≡ changes.transaction_storage_root
  unfolding prepare_block_storage_changes fill execute
  prepare-state_root c b b' changes e without made = ground arith

  -- A block that `check_block` admits is not turned away when its changes are prepared, where both
  -- are told the same of its parent and of missing states.
  pub prepare-admits :
      (c : Client) (p : BlockCheckParams) (b b' : BlockImportParams) (r : ImportResult)
      → check_block c p ≡ ok (imported false)
      → p.parent_hash ≡ b.header.parent_hash
      → p.allow_missing_state ≡ b.allow_missing_state
      → prepare_block_storage_changes api c b ≢ ok (some r, b')
  unfolding prepare_block_storage_changes fill execute
  prepare-admits c p b b' r e same_parent same_leave =
      ground (arith, (check_block-imported_iff c p).0 e)
