-- ===== src/Client/ImportBlock.antt =====
-- The import of a block as a whole, from `import_block` down to the commit.
use sub_archive.Prelude.{
  none, some, Bool, true, false, ok, returned, ◌≡◌, ◌≢◌, ◌⊎◌, ◌<◌, arith, inl, inr, Result-cases,
  Option-cases,
}
use std.Path.{subst}
use sub_archive.Chain.{Bytes, Hash, Header}
use sub_archive.Client.Backend
use sub_archive.Client.Backend.{
  Blockchain, BlockImportParams, ForkChoiceStrategy, imported, in_chain,
}
use sub_archive.Client.Rules.{BlockRules}
use sub_archive.Client.Status.{Client}
use sub_archive.Client.Operation.{Task, Importing, Accepts}
use sub_archive.Client.Import.{post, import_headers, apply_block, execute_and_import_block}
use sub_archive.Client.ImportLaws.{execute_and_import_block-IsFresh}
use sub_archive.Client.Prepare.{Runtime, prepare_block_storage_changes, fill, execute}
use sub_archive.Client.PrepareLaws.{prepare-IsReady}
use sub_archive.Client.Lock.{Backend, Node, lock_import_and_run, import_block}
use sub_archive.Client.LockLaws.{prepared, started}

module _ {S R : Type 0} (b : Backend S) where
  lock_import_and_run-ok :
      (f : Task R) (n : Node S) (r : R)
      → (lock_import_and_run b f n).0 ≡ returned (ok r)
      → ((f (started n)).0 ≡ returned (ok r))
        × ((b.commit_operation (prepared f n).op n.backend).0 ≡ ok tt)
        × ((lock_import_and_run b f n).1.backend
            ≡ (b.commit_operation (prepared f n).op n.backend).1)
        × ((lock_import_and_run b f n).1.importing_block ≡ none)
  unfolding lock_import_and_run
  lock_import_and_run-ok f n r e = ground arith

-- A block may be imported under its hash: it is above the last finalized block, and it is unknown, or
-- in the chain while existing blocks may be imported.
abbrev pub IsAllowed : Blockchain → (Header → Hash) → BlockImportParams → Type 0
IsAllowed chain header_hash block =
    let h = post (import_headers block.header block.post_digests) in
    (chain.info.finalized_number < h.number)
    × (((block.import_existing ≡ false) × (chain.status (header_hash h) ≡ ok Backend.unknown))
        ⊎ ((block.import_existing ≡ true) × (chain.status (header_hash h) ≡ ok in_chain)))

module _ (chain : Blockchain) (accepts : Accepts) (offchain : Bool)
    (header_hash : Header → Hash) where
  executed-IsAllowed :
      (block : BlockImportParams) (choice : ForkChoiceStrategy) (cache : Bytes) (best : Bool)
      (s : Importing)
      → (execute_and_import_block chain accepts offchain
          (header_hash (post (import_headers block.header block.post_digests)))
          (import_headers block.header block.post_digests)
          cache
          choice
          block
          s).0
        ≡ returned (ok (imported best))
      → IsAllowed chain header_hash block
  executed-IsAllowed block choice cache best s e =
      let fresh =
        execute_and_import_block-IsFresh chain accepts offchain _ _ cache choice block best s e in
      (fresh.0, fresh.1)

  apply_block-IsAllowed :
      (block : BlockImportParams) (cache : Bytes) (best : Bool) (s : Importing)
      → (apply_block chain accepts offchain header_hash block cache s).0
        ≡ returned (ok (imported best))
      → IsAllowed chain header_hash block
  unfolding apply_block
  apply_block-IsAllowed block cache best s e = elim (Option-cases block.fork_choice) [
    | inl q ↦ absurd (ground (arith, q, e))
    | inr (choice, q) ↦
        executed-IsAllowed block choice cache best
          (record s {
            importing_block =
                some (header_hash (post (import_headers block.header block.post_digests)));
          })
          (ground (arith, q, e))
  ]

-- Other storage changes make no difference.
IsAllowed-alike :
    (block block' : BlockImportParams) (chain : Blockchain) (header_hash : Header → Hash)
    → block' ≡ record block { storage_changes = block'.storage_changes }
    → IsAllowed chain header_hash block'
    → IsAllowed chain header_hash block
IsAllowed-alike block block' chain header_hash same allowed =
    subst (IsAllowed chain header_hash) same allowed

-- The checks of a node, as `prepare_block_storage_changes` sees it.
abbrev pub client_of : {S : Type 0} → Backend S → BlockRules → Node S → Client
client_of b rules n = record {
  blockchain = b.blockchain n.backend;
  importing_block = n.importing_block;
  block_rules = rules;
}

prepare-ne-imported :
    (api : Runtime) (c : Client) (block block' : BlockImportParams) (best : Bool)
    → prepare_block_storage_changes api c block ≢ ok (some (imported best), block')
unfolding prepare_block_storage_changes fill execute
prepare-ne-imported api c block block' best e = ground arith

module _ {S : Type 0} (b : Backend S) (api : Runtime) (header_hash : Header → Hash) where
  import_block-prepared :
      (rules : BlockRules) (offchain : Bool) (block block' : BlockImportParams) (cache : Bytes)
      (best : Bool) (n : Node S)
      → prepare_block_storage_changes api (client_of b rules n) block ≡ ok (none, block')
      → (import_block b api header_hash rules offchain block cache n).0
        ≡ returned (ok (imported best))
      → IsAllowed (b.blockchain n.backend) header_hash block'
        × ((import_block b api header_hash rules offchain block cache n).1.importing_block ≡ none)
  unfolding import_block
  import_block-prepared rules offchain block block' cache best n q e =
      let f =
        apply_block (b.blockchain n.backend) (b.accepts n.backend) offchain header_hash block'
          cache in
      let locked = lock_import_and_run-ok b f n (imported best) in
      (
        apply_block-IsAllowed (b.blockchain n.backend) (b.accepts n.backend) offchain header_hash
            block' cache best (started n) (ground (arith, q, e, locked)),
        ground (arith, q, e, locked),
      )

  -- A block that `import_block` imports is above the last finalized block, and under its hash it was
  -- unknown, or in the chain while existing blocks may be imported. No block counts as being imported
  -- after it.
  pub import_block-IsAllowed :
      (rules : BlockRules) (offchain : Bool) (block : BlockImportParams) (cache : Bytes)
      (best : Bool) (n : Node S)
      → (import_block b api header_hash rules offchain block cache n).0
        ≡ returned (ok (imported best))
      → IsAllowed (b.blockchain n.backend) header_hash block
        × ((import_block b api header_hash rules offchain block cache n).1.importing_block ≡ none)
  unfolding import_block
  import_block-IsAllowed rules offchain block cache best n e =
      elim (Result-cases (prepare_block_storage_changes api (client_of b rules n) block)) [
        | inr (x, q) ↦ absurd (ground (arith, q, e))
        | inl ((some r, block'), q) ↦
            absurd (
              ground (arith, q, e, prepare-ne-imported api (client_of b rules n) block block' best))
        | inl ((none, block'), q) ↦
            let ready = prepare-IsReady api (client_of b rules n) block block' q in
            let done = import_block-prepared rules offchain block block' cache best n q e in
            (
              IsAllowed-alike block block' (b.blockchain n.backend) header_hash ready.0 done.0,
              done.1,
            )
      ]
