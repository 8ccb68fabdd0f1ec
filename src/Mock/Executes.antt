-- ===== src/Mock/Executes.antt =====
-- What the block executor makes of a block by the runtime api, where the execution fails.
use mathlib.Core.Option
use sub_archive.Prelude.{
  Option-cases, inl, inr, [], ◌∷◌, none, some, false, ok, err, Result, returned, ◌≡◌, ◌≢◌, arith,
  nat_eq, refl,
}
use sub_archive.Chain.{hash, number, BlockNumber, SignedBlock}
use sub_archive.Executor.VersionCache.{RuntimeVersion, Versions, get_by_id}
use sub_archive.Executor.Block.{
  BlockExecutor, block_to_execute, block_model, block_payload, storages_map, collect,
  execute_block_and_into_storage_changes,
}
use sub_archive.Executor.Archive.{archive}
use sub_archive.Client.Api.{CallApiAtParams}
use sub_archive.Prelude.Text.{codes}
use sub_archive.Mock.State.{
  ApiError, NativeOrEncoded, MockRuntimeApi, OverlayedChanges, CallApiAt, Scale,
  construct_runtime_api,
}
use sub_archive.Mock.Call.{started, call_params, into_storage_changes}
use sub_archive.Mock.Apis.{execute_block}
use sub_archive.Mock.Object.{runtime_api}
use sub_archive.Mock.Laws.{
  IsTransactional, IsBalanced, call_api_at-Transacted, after_failure, after_success,
}

module _ {O K S C E I R G J : Type 0} (v : OverlayedChanges O K S C)
    (c : CallApiAt E (MockRuntimeApi O K)) (scale : Scale I R G) (x : BlockExecutor S J) where
  -- The executor, whose client has the runtime api.
  abbrev pub executor : BlockExecutor S J
  executor = record x { client = runtime_api v c scale }

  -- The call that executes a stored block, and the object that it is made on.
  abbrev pub execution : SignedBlock → CallApiAtParams E (Result ApiError (Unit {0}))
  execution sb =
      call_params v c (codes "Core_execute_block") none false (hash sb.block.header.parent_hash)
        (scale.encode_block (block_to_execute sb.block)) (started v (construct_runtime_api v))

  module _ (laws : IsTransactional v) (balanced : IsBalanced v c) (n : BlockNumber)
      (sb : SignedBlock) (state : S) (got : x.get_block n ≡ returned (some sb))
      (at_parent : x.get_state (hash sb.block.header.parent_hash) ≡ ok state) where
    pub failed_execution-unchanged :
        (e : ApiError)
        → (c.call_api_at (Unit {0}) (execution sb) (started v (construct_runtime_api v))).0 ≡ err e
        → ((k : K)
            → v.into_storage_changes v.default state none sb.block.header.parent_hash k ≡ some [])
        → execute_block_and_into_storage_changes executor n ≡ returned (some ([], sb))
    unfolding execute_block_and_into_storage_changes runtime_api execute_block into_storage_changes
    failed_execution-unchanged e fails nothing =
        let (s', called, t) =
          call_api_at-Transacted v laws c balanced scale.decode_unit (codes "Core_execute_block")
            none false (hash sb.block.header.parent_hash)
            (scale.encode_block (block_to_execute sb.block)) (construct_runtime_api v) in
        let undone = after_failure v laws c balanced e fails t in
        rw (got, at_parent, called) (ground (arith, undone, nothing s'.storage))

    -- Where the client executes it, the changes are made of what was committed, with the cache.
    pub executed-changes :
        (a : NativeOrEncoded (Unit {0}))
        → (c.call_api_at (Unit {0}) (execution sb) (started v (construct_runtime_api v))).0 ≡ ok a
        → (q : O) × (v.commit_transaction
              (c.call_api_at
                (Unit {0})
                (execution sb)
                (started v (construct_runtime_api v))).1.changes
            ≡ some q)
          × (execute_block_and_into_storage_changes executor n
              ≡ returned (
                  Option.map
                    (λ changes. (changes, sb))
                    (v.into_storage_changes q state none sb.block.header.parent_hash
                      (c.call_api_at
                        (Unit {0})
                        (execution sb)
                        (started v (construct_runtime_api v))).1.storage)))
    unfolding execute_block_and_into_storage_changes runtime_api execute_block into_storage_changes
    executed-changes a succeeds =
        let (s', called, t) =
          call_api_at-Transacted v laws c balanced scale.decode_unit (codes "Core_execute_block")
            none false (hash sb.block.header.parent_hash)
            (scale.encode_block (block_to_execute sb.block)) (construct_runtime_api v) in
        let (q, committed, kept) = after_success v laws c balanced a succeeds t in
        (
          q,
          committed,
          rw (got, at_parent, called, kept)
              (elim (Option-cases (
                v.into_storage_changes q state none sb.block.header.parent_hash
                  (c.call_api_at (Unit {0}) (execution sb)
                    (started v (construct_runtime_api v))).1.storage)) [
                      | inl missing ↦ rw missing refl
                      | inr (changes, made) ↦ rw made refl
                    ]),
        )

    -- Let the client fail to execute a block that the backend has, and not the genesis block, at its
    -- parent, whose state is there, and let its runtime's version be known; and let an overlay in which
    -- nothing was changed have no changes. The executor then sends the block to the archiver all the same,
    -- as one that changes nothing, and tells the comparer of it.
    pub failed_execution-archived :
        (cache : Versions) (version : RuntimeVersion) (e : ApiError)
        → n ≢ 0
        → (get_by_id x.externals (number n) cache).0 ≡ returned (ok (some version))
        → (c.call_api_at (Unit {0}) (execution sb) (started v (construct_runtime_api v))).0 ≡ err e
        → ((k : K)
            → v.into_storage_changes v.default state none sb.block.header.parent_hash k ≡ some [])
        → ((archive executor n cache).0 ≡ returned tt)
          × ((archive executor n cache).1.to_archiver
              ≡ (
                block_model executor version.spec_version n [] sb,
                block_payload executor version.spec_version [] sb,
              )
                ∷ [])
          × ((archive executor n cache).1.to_comparer ≡ n ∷ [])
    unfolding archive storages_map collect
    failed_execution-archived cache version e positive known fails nothing =
        rw (failed_execution-unchanged e fails nothing, known) (ground (arith, positive))
