-- ===== src/Tests/Tasks.antt =====
-- The archiver and the executor.
use sub_archive.Prelude.{
  ℕ, ◌++◌, [], ◌∷◌, true, none, some, ok, err, returned, ◌≡◌, refl, arith, nat_eq, bytes_eq,
}
use sub_archive.Prelude.Int.{pos, int_eq}
use sub_archive.Prelude.Assoc.{contains_key, lookup, insert}
use sub_archive.Chain.{storage, number}
use sub_archive.Postgres.Tables.{IsConsistent}
use sub_archive.Postgres.Statements
use sub_archive.Postgres.Statements.{block_row}
use sub_archive.Postgres.Database
use sub_archive.Kafka.Payload.{block, metadata}
use sub_archive.Kafka.Producer.{record_of, send}
use sub_archive.Notifier.Task.{Notifier}
use sub_archive.Notifier.Archive.{archive, run, metadata_payload}
use sub_archive.Notifier.Success.{IsHealthy, archive_succeeds}
use sub_archive.Notifier.Failure.{metadata_unpublished}
use sub_archive.Notifier.Keeps.{run-IsConsistent}
use sub_archive.Executor.VersionCache.{get_by_id, executed_version}
use sub_archive.Executor.Block.{
  StorageChanges, execute_block_and_into_storage_changes, storages_map,
}
use sub_archive.Executor.Changes.{last_change}
use sub_archive.Executor.Archive as Execution
use sub_archive.Tests.Data.{
  model, payload, notifier, known, empty, producer, executor, externals, version,
}

healthy : IsHealthy (notifier empty []) (model 4)
healthy = record {
  no_faults = refl;
  no_outages = refl;
  bound_num = refl;
  bound_spec = refl;
  fits = omega arith;
}

archive_succeeds_example :
    ((archive (model 4) (payload 4) (notifier empty [])).0 ≡ returned (ok tt))
    × (lookup (pos 4) (archive (model 4) (payload 4) (notifier empty [])).1.db.tables.blocks
        ≡ some (block_row pos (model 4)))
    × (contains_key
          (pos 7)
          (archive (model 4) (payload 4) (notifier empty [])).1.db.tables.metadatas
        ≡ true)
    × ((archive (model 4) (payload 4) (notifier empty [])).1.producer.delivered
        ≡ []
          ++ (record_of (producer []) (metadata (metadata_payload (model 4) (payload 4) (9 ∷ [])))
                ∷ []
              ++ record_of (producer []) (block (payload 4)) ∷ []))
unfolding lookup
archive_succeeds_example =
    archive_succeeds (model 4) (payload 4) (notifier empty []) (9 ∷ []) healthy refl

metadata_unpublished_example :
    ((archive (model 4) (payload 4) (notifier empty (some 1 ∷ []))).0 ≡ returned (err storage))
    × ((archive
          (model 4)
          (payload 4)
          (archive (model 4) (payload 4) (notifier empty (some 1 ∷ []))).1).0
        ≡ returned (ok tt))
    × ((archive
          (model 4)
          (payload 4)
          (archive (model 4) (payload 4) (notifier empty (some 1 ∷ []))).1).1.producer.delivered
        ≡ [] ++ record_of (producer []) (block (payload 4)) ∷ [])
unfolding lookup
metadata_unpublished_example =
    metadata_unpublished (model 4) (payload 4) (notifier empty (some 1 ∷ [])) (9 ∷ []) 1 healthy
      refl refl refl

-- The queue is down for the block, after the database has taken it.
abbrev queue_down : Notifier ℕ
queue_down = notifier known (some 1 ∷ [])

archive_fails : (archive (model 4) (payload 4) queue_down).0 ≡ returned (err storage)
unfolding archive Database.check_if_metadata_exists Database.insert_block Statements.insert_block
    Statements.select_exists send lookup
archive_fails = refl

known-IsConsistent : IsConsistent known
unfolding lookup
known-IsConsistent = record {
  metadata_keys = (refl, tt);
  block_keys = tt;
  metadata_rows = (record { own_key = refl; checked = refl }, tt);
  block_rows = tt;
}

run-IsConsistent_example :
    IsConsistent (run ((model 4, payload 4) ∷ (model 5, payload 5) ∷ []) queue_down).1.db.tables
run-IsConsistent_example =
    run-IsConsistent ((model 4, payload 4) ∷ (model 5, payload 5) ∷ []) queue_down
      known-IsConsistent

first_answer : (get_by_id externals (number 4) []).0 ≡ returned (ok (some version))
unfolding get_by_id executed_version lookup
first_answer = refl

abbrev changes : StorageChanges
changes = (1 ∷ [], some (2 ∷ [])) ∷ (3 ∷ [], none) ∷ (1 ∷ [], none) ∷ []

last_change_test : last_change (1 ∷ []) changes ≡ some none
unfolding last_change
last_change_test = refl

archive_returns : (Execution.archive executor 4 []).0 ≡ returned tt
unfolding Execution.archive execute_block_and_into_storage_changes get_by_id executed_version
    storages_map lookup insert
archive_returns = refl
