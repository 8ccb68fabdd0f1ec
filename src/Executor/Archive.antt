-- ===== src/Executor/Archive.antt =====
-- `BlockExecutor::archive` and `BlockExecutor::run` of archive/executor/src/lib.rs.
use sub_archive.Prelude.{
  ℕ, List, [], ◌∷◌, ◌++◌, Option, none, some, Result, ok, err, Outcome, returned, panicked, ◌==◌,
  nat_eq, if◌then◌else◌,
}
use sub_archive.Chain.{SignedBlock, number, BlockNumber}
use sub_archive.Notifier.Archive.{ArchiveSendMsg}
use sub_archive.Executor.VersionCache.{RuntimeVersion, Versions, ServiceError, get_by_id}
use sub_archive.Executor.Block.{
  BlockExecutor, StorageChanges, block_model, block_payload, storages_map,
  execute_block_and_into_storage_changes,
}

-- What a call has sent on its two channels, the oldest first, and the version cache after it.
pub record Sent (J : Type 0) : Type 0 where
  pub to_archiver : List (ArchiveSendMsg J)
  pub to_comparer : List BlockNumber
  pub versions : Versions

module _ {S J : Type 0} (x : BlockExecutor S J) where
  abbrev sent : List (ArchiveSendMsg J) → List BlockNumber → Versions → Sent J
  sent msgs numbers versions = record {
    to_archiver = msgs;
    to_comparer = numbers;
    versions = versions;
  }

  abbrev message : ℕ → BlockNumber → StorageChanges → SignedBlock → ArchiveSendMsg J
  message spec_version n main_sc sb =
      let changes = storages_map x n main_sc in
      (block_model x spec_version n changes sb, block_payload x spec_version changes sb)

  abbrev with_version :
      BlockNumber
      → StorageChanges
      → SignedBlock
      → Outcome (Result ServiceError (Option RuntimeVersion))
      → Versions
      → Outcome (Unit {0}) × Sent J
  with_version n main_sc sb (returned (ok (some v))) cache =
      (returned tt, sent (message v.spec_version n main_sc sb ∷ []) (n ∷ []) cache)
  with_version n main_sc sb (returned (ok none)) cache = (panicked, sent [] [] cache)
  with_version n main_sc sb (returned (err e)) cache = (panicked, sent [] [] cache)
  with_version n main_sc sb panicked cache = (panicked, sent [] [] cache)

  abbrev with_storages :
      BlockNumber
      → Outcome (Option (StorageChanges × SignedBlock))
      → Versions
      → Outcome (Unit {0}) × Sent J
  with_storages n panicked cache = (panicked, sent [] [] cache)
  with_storages n (returned none) cache =
      if n == 0 then (returned tt, sent [] (n ∷ []) cache) else (panicked, sent [] [] cache)
  with_storages n (returned (some (main_sc, sb))) cache =
      let (version, cache') = get_by_id x.externals (number n) cache in
      with_version n main_sc sb version cache'

  unfoldable pub archive : BlockNumber → Versions → Outcome (Unit {0}) × Sent J
  archive n cache = with_storages n (execute_block_and_into_storage_changes x n) cache

  abbrev before : Sent J → Outcome (Unit {0}) × Sent J → Outcome (Unit {0}) × Sent J
  before a (r, b) =
      (r, sent (a.to_archiver ++ b.to_archiver) (a.to_comparer ++ b.to_comparer) b.versions)

  -- The loop over the channel `executor_recv`, given what it will receive before it closes.
  unfoldable pub run : List BlockNumber → Versions → Outcome (Unit {0}) × Sent J
  run [] cache = (returned tt, sent [] [] cache)
  run (n ∷ rest) cache =
      let (r, a) = archive n cache in
      elim r [ returned _ ↦ before a (run rest a.versions) | panicked ↦ (panicked, a) ]
