-- ===== src/Executor/Sends.antt =====
-- What the executor sends for a block number.
use sub_archive.Prelude.{
  List, [], ◌∷◌, some, ok, returned, panicked, ◌≡◌, ◌⊎◌, inl, inr, arith, All, map, Outcome-cases,
  Result-cases, Option-cases,
}
use sub_archive.Chain.{SignedBlock, BlockNumber, number}
use sub_archive.Notifier.Archive.{ArchiveSendMsg}
use sub_archive.Executor.VersionCache.{RuntimeVersion, Versions, get_by_id}
use sub_archive.Executor.Block.{
  BlockExecutor, StorageChanges, storages_map, block_model, block_payload,
  execute_block_and_into_storage_changes,
}
use sub_archive.Executor.Archive.{Sent, archive}

-- The block numbers of the messages to the archiver.
abbrev pub numbers : {J : Type 0} → List (ArchiveSendMsg J) → List BlockNumber
numbers [] = []
numbers ((model, payload) ∷ rest) = model.block_num ∷ numbers rest

module _ {S J : Type 0} (x : BlockExecutor S J) where
  -- A message is about the block `sb`: the row and the published payload agree, and both have the
  -- block's header as it is stored, its seal included.
  pub record IsAbout (sb : SignedBlock) (msg : ArchiveSendMsg J) : Type 0 where
    pub versions : msg.0.spec_version ≡ msg.1.spec_version
    pub hashes : msg.0.block_hash ≡ x.hash_bytes msg.1.block_hash
    pub parents : msg.0.parent_hash ≡ x.hash_bytes msg.1.parent_hash
    pub states : msg.0.state_root ≡ x.hash_bytes msg.1.state_root
    pub roots : msg.0.extrinsics_root ≡ x.hash_bytes msg.1.extrinsics_root
    pub digests : msg.0.digest ≡ x.encode_digest msg.1.digest
    pub extrinsics : msg.0.extrinsics ≡ map x.encode_extrinsic msg.1.extrinsics
    pub changes : msg.0.main_changes ≡ x.to_json msg.1.main_changes
    pub own_hash : msg.1.block_hash ≡ x.header_hash sb.block.header
    pub own_number : msg.1.block_num ≡ sb.block.header.number
    pub own_digest : msg.1.digest ≡ sb.block.header.digest
    pub own_extrinsics : msg.1.extrinsics ≡ sb.block.extrinsics
    pub own_justifications : msg.1.justifications ≡ sb.justifications

module _ {S J : Type 0} (x : BlockExecutor S J) (n : BlockNumber) (cache : Versions) where
  -- A call that has executed the block, knows its version and has sent it.
  pub record HasSent (a : Sent J) : Type 0 where
    pub main_sc : StorageChanges
    pub sb : SignedBlock
    pub version : RuntimeVersion
    pub executed : execute_block_and_into_storage_changes x n ≡ returned (some (main_sc, sb))
    pub known : (get_by_id x.externals (number n) cache).0 ≡ returned (ok (some version))
    pub sent :
        a.to_archiver
        ≡ (
          block_model x version.spec_version n (storages_map x n main_sc) sb,
          block_payload x version.spec_version (storages_map x n main_sc) sb,
        )
          ∷ []

  module _ (a : Sent J) (e : archive x n cache ≡ (returned tt, a)) where
    sends_executed :
        (main_sc : StorageChanges) (sb : SignedBlock)
        → execute_block_and_into_storage_changes x n ≡ returned (some (main_sc, sb))
        → HasSent a
    unfolding archive
    sends_executed main_sc sb q = elim (Outcome-cases (get_by_id x.externals (number n) cache).0) [
      | inl p ↦ absurd (ground (arith, q, p, e))
      | inr (r, p) ↦ elim (Result-cases r) [
        | inr (why, f) ↦ absurd (ground (arith, q, p, f, e))
        | inl (o, f) ↦ elim (Option-cases o) [
          | inl unknown ↦ absurd (ground (arith, q, p, f, unknown, e))
          | inr (v, there) ↦ record {
            main_sc = main_sc;
            sb = sb;
            version = v;
            executed = q;
            known = rw (f, there) at p;
            sent = ground (arith, q, p, f, there, e);
          }
        ]
      ]
    ]

    -- A call that returns has sent the archiver nothing, or the block that it has executed.
    pub archive-cases : (a.to_archiver ≡ []) ⊎ HasSent a
    unfolding archive
    archive-cases = elim (Outcome-cases (execute_block_and_into_storage_changes x n)) [
      | inl q ↦ absurd (ground (arith, q, e))
      | inr (o, q) ↦ elim (Option-cases o) [
        | inl missing ↦ inl (ground (arith, q, missing, e))
        | inr (c, there) ↦ inr (sends_executed c.0 c.1 (rw there at q))
      ]
    ]

  -- The cache after a call is as it was, or as the look-up of the version has left it.
  pub archive-versions :
      ((archive x n cache).1.versions ≡ cache)
      ⊎ ((archive x n cache).1.versions ≡ (get_by_id x.externals (number n) cache).1)
  unfolding archive
  archive-versions = ground arith

  -- A call that returns has told the comparer its number, once; it has sent the archiver one
  -- message, under that number, or none, which happens for the genesis block alone.
  pub archive_sends :
      (archive x n cache).0 ≡ returned tt
      → ((archive x n cache).1.to_comparer ≡ n ∷ [])
        × ((numbers (archive x n cache).1.to_archiver ≡ n ∷ [])
            ⊎ (n ≡ 0) × ((archive x n cache).1.to_archiver ≡ []))
  unfolding archive
  archive_sends h = ground arith

  -- A call that panics has sent nothing.
  pub archive_panics :
      (archive x n cache).0 ≡ panicked
      → ((archive x n cache).1.to_comparer ≡ []) × ((archive x n cache).1.to_archiver ≡ [])
  unfolding archive
  archive_panics h = ground arith

  -- Every message that a call sends is about the block that the backend has under the number.
  pub archive-IsAbout :
      (sb : SignedBlock)
      → x.get_block n ≡ returned (some sb)
      → All (IsAbout x sb) (archive x n cache).1.to_archiver
  unfolding archive execute_block_and_into_storage_changes
  archive-IsAbout sb h = ground arith
