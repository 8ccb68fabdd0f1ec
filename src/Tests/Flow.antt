-- ===== src/Tests/Flow.antt =====
-- The pipeline: a run in which blocks 1 and 2 are executed, and block 1 is stored.
use sub_archive.Prelude.{
  ℕ, ◌+◌, ◌≤◌, [], ◌∷◌, true, false, some, List, ◌++◌, All, ◌≡◌, ◌⊎◌, refl, arith, elem, length,
}
use sub_archive.Prelude.Int.{int_eq, pos}
use sub_archive.Prelude.Assoc.{contains_key, lookup, insert}
use sub_archive.Postgres.Database
use sub_archive.Postgres.Statements
use sub_archive.Postgres.Statements.{block_row}
use sub_archive.Postgres.Tables.{BlockRow}
use sub_archive.Kafka.Producer.{KafkaRecord, send}
use sub_archive.Notifier.Archive
use sub_archive.Notifier.Archive.{ArchiveSendMsg}
use sub_archive.Executor.VersionCache.{get_by_id, executed_version}
use sub_archive.Executor.Block.{block_model, execute_block_and_into_storage_changes, storages_map}
use sub_archive.Executor.Archive.{archive}
use sub_archive.Executor.Sends.{numbers}
use sub_archive.Pipeline.Comparer.{compare}
use sub_archive.Pipeline.System.{System, execute, compare_next, stored, init, Reach, here, next}
use sub_archive.Pipeline.Turns.{Ever, Always}
use sub_archive.Pipeline.Order.{executor_no_gaps, one_number_under_way}
use sub_archive.Pipeline.Accounting.{executed_blocks_accounted}
use sub_archive.Pipeline.Bound.{executor_within_best}
use sub_archive.Pipeline.Progress.{executor_reaches}
use sub_archive.Pipeline.Archived.{block_archived}
use sub_archive.Pipeline.Provenance.{IsExecuted, stored_rows_origin}
use sub_archive.Pipeline.Published.{IsJustified, HasAnswered, published_records_origin}
use sub_archive.Pipeline.Versions.{IsVersioned, stored_versions_origin}
use sub_archive.Tests.Data.{notifier, known, executor, signed_block}

abbrev begun : System ℕ
begun = init 1 2 (notifier known [])

abbrev Run : System ℕ → Type 1
Run t = Reach begun t

record Ran : Type 1 where
  last : System ℕ
  run : Run last

one_executed : Ran
unfolding archive execute_block_and_into_storage_changes get_by_id executed_version storages_map
    lookup insert
one_executed = record {
  last = _;
  run = next here (execute (Unit {0}) executor 1 [] _ refl refl refl);
}

two_executed : Ran
unfolding one_executed archive execute_block_and_into_storage_changes get_by_id executed_version
    storages_map lookup insert compare
two_executed = record {
  last = _;
  run =
      next (next one_executed.run (compare_next 1 [] refl))
        (execute (Unit {0}) executor 2 [] _ refl refl refl);
}

two_executed_has : elem 2 two_executed.last.done ≡ true
unfolding two_executed
two_executed_has = refl

executor_no_gaps_example : elem 1 two_executed.last.done ≡ true
unfolding two_executed
executor_no_gaps_example =
    executor_no_gaps 2 1 (1 ∷ []) two_executed.run refl (omega arith) (omega arith)

executor_within_best_example :
    (1 ≤ 2) × ((◌≡◌ {A = ℕ} 2 1) ⊎ Ever (λ u. 2 ≤ u.best) two_executed.run)
executor_within_best_example = executor_within_best 2 two_executed.run two_executed_has

-- Two turns of the executor after the first one.
record RanOn : Type 1 where
  last : System ℕ
  run : Reach one_executed.last last

two_turns_on : RanOn
unfolding one_executed archive execute_block_and_into_storage_changes get_by_id executed_version
    storages_map lookup insert compare
two_turns_on = record {
  last = _;
  run =
      next
        (next
          (next (next here (compare_next 1 [] refl))
            (execute (Unit {0}) executor 2 [] _ refl refl refl))
          (compare_next 2 [] refl))
        (execute (Unit {0}) executor 2 [] _ refl refl refl);
}

two_turns_long : length one_executed.last.done + 2 + 1 ≤ 1 + length two_turns_on.last.done
unfolding one_executed two_turns_on archive execute_block_and_into_storage_changes get_by_id
    executed_version storages_map lookup insert compare
two_turns_long = omega arith

one_executed_done : one_executed.last.done ≡ 1 ∷ []
unfolding one_executed archive execute_block_and_into_storage_changes get_by_id executed_version
    storages_map lookup insert
one_executed_done = refl

two_turns_in_chain : Always (λ u. 2 ≤ u.best) two_turns_on.run
unfolding one_executed two_turns_on archive execute_block_and_into_storage_changes get_by_id
    executed_version storages_map lookup insert compare
two_turns_in_chain = ((((omega arith, omega arith), omega arith), omega arith), omega arith)

executor_reaches_example : elem 2 two_turns_on.last.done ≡ true
executor_reaches_example =
    executor_reaches 1 2 [] one_executed.run one_executed_done (omega arith) two_turns_on.run
      two_turns_in_chain two_turns_long

one_number_under_way_example :
    (length two_executed.last.executor_queue + length two_executed.last.comparer_queue ≤ 1)
    × ((two_executed.last.executor_alive ≡ false)
        ⊎ (length two_executed.last.executor_queue + length two_executed.last.comparer_queue ≡ 1))
one_number_under_way_example = one_number_under_way two_executed.run

-- Block 1 stored, block 2 still waiting.
one_stored : Ran
unfolding two_executed archive execute_block_and_into_storage_changes get_by_id executed_version
    storages_map Archive.archive Database.check_if_metadata_exists Database.insert_block
    Statements.insert_block Statements.select_exists send lookup insert
one_stored = record { last = _; run = next two_executed.run (stored _ _ _ refl refl refl) }

executed_blocks_accounted_example :
    ((elem 1 (numbers one_stored.last.archiver_queue) ≡ true)
      × (one_stored.last.archiver_alive ≡ true))
    ⊎ (contains_key (one_stored.last.notifier.db.bind 1) one_stored.last.notifier.db.tables.blocks
        ≡ true)
    ⊎ (elem 1 one_stored.last.lost ≡ true)
unfolding one_stored
executed_blocks_accounted_example =
    executed_blocks_accounted 1 one_stored.run refl (λ e. omega arith)

abbrev row_1 : BlockRow ℕ
row_1 = block_row pos (block_model executor 7 1 [] (signed_block 1))

row_1_stored : lookup (pos 1) one_stored.last.notifier.db.tables.blocks ≡ some row_1
unfolding one_stored two_executed one_executed archive execute_block_and_into_storage_changes
    get_by_id executed_version storages_map Archive.archive Database.check_if_metadata_exists
    Database.insert_block Statements.insert_block Statements.select_exists send lookup insert
row_1_stored = refl

stored_rows_origin_example :
    (lookup (pos 1) known.blocks ≡ some row_1)
    ⊎ ((msg : ArchiveSendMsg ℕ) × IsExecuted one_stored.run msg
        × (pos 1 ≡ pos msg.0.block_num)
        × (row_1 ≡ block_row pos msg.0))
stored_rows_origin_example =
    stored_rows_origin (notifier known []) (pos 1) row_1 one_stored.run row_1_stored

published_records_origin_example :
    (added : List KafkaRecord) × (one_stored.last.notifier.producer.delivered ≡ [] ++ added)
    × All
        (IsJustified
          (notifier known [])
          (IsExecuted one_stored.run)
          (HasAnswered one_stored.run)
          one_stored.last.notifier)
        added
published_records_origin_example = published_records_origin (notifier known []) one_stored.run

stored_versions_origin_example :
    (lookup (pos 1) known.blocks ≡ some row_1)
    ⊎ ((msg : ArchiveSendMsg ℕ) × IsVersioned one_stored.run msg
        × (pos 1 ≡ pos msg.0.block_num)
        × (row_1 ≡ block_row pos msg.0))
stored_versions_origin_example =
    stored_versions_origin (notifier known []) (pos 1) row_1 one_stored.run row_1_stored

-- At the best block the comparer sends the same number again.
compare_at_best : compare 2 2 ≡ 2
unfolding compare
compare_at_best = refl

-- The archiver has caught up with these two turns.
all_stored : RanOn
unfolding one_executed two_turns_on archive execute_block_and_into_storage_changes get_by_id
    executed_version storages_map Archive.archive Database.check_if_metadata_exists
    Database.insert_block Statements.insert_block Statements.select_exists send lookup insert
    compare
all_stored = record {
  last = _;
  run =
      next
        (next (next two_turns_on.run (stored _ _ _ refl refl refl)) (stored _ _ _ refl refl refl))
        (stored _ _ _ refl refl refl);
}

all_stored_long : length one_executed.last.done + 2 + 1 ≤ 1 + length all_stored.last.done
unfolding all_stored one_executed two_turns_on archive execute_block_and_into_storage_changes
    get_by_id executed_version storages_map lookup insert compare
all_stored_long = omega arith

all_stored_in_chain : Always (λ u. 2 ≤ u.best) all_stored.run
unfolding all_stored one_executed two_turns_on archive execute_block_and_into_storage_changes
    get_by_id executed_version storages_map lookup insert compare
all_stored_in_chain = (((two_turns_in_chain, omega arith), omega arith), omega arith)

all_stored_drained : (all_stored.last.archiver_queue ≡ []) × (all_stored.last.lost ≡ [])
unfolding all_stored one_executed two_turns_on archive execute_block_and_into_storage_changes
    get_by_id executed_version storages_map lookup insert compare
all_stored_drained = (refl, refl)

block_archived_example :
    contains_key (all_stored.last.notifier.db.bind 2) all_stored.last.notifier.db.tables.blocks
    ≡ true
block_archived_example =
    block_archived 1 2 [] one_executed.run one_executed_done (omega arith) (λ e. omega arith)
      all_stored.run all_stored_in_chain all_stored_long all_stored_drained.0 all_stored_drained.1
