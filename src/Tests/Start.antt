-- ===== src/Tests/Start.antt =====
-- Starts of the node, on backends that are told apart by numbers.
use sub_archive.Prelude.{
  ℕ, [], ◌∷◌, none, some, true, false, ok, returned, panicked, ◌≡◌, ◌≢◌, ◌⊎◌, refl,
}
use sub_archive.Service.Config.{
  Strategy, readonly_backend, local_backend, runtime_api, ArchiveConfig,
}
use sub_archive.Service.Start.{
  Parts, Started, new_full_base, new_notifier, start, executor, archiver, comparer,
}
use sub_archive.Service.StartLaws.{archive_tasks, IsArchiveOn}
use sub_archive.Service.Command.{
  World, block_body, NodeConfig, main, secondary, both, constrained, do_work, by_strategy,
  gen_genesis_storages, settings, archive_setup, canonicalization_delay,
}
use sub_archive.Service.CommandLaws.{IsReading, do_work-starts}
use sub_archive.Tests.Data.{config}

abbrev parts : Parts ℕ ℕ ℕ ℕ ℕ
parts = record {
  telemetry = λ es. ok tt;
  new_full_parts = λ b. returned (ok b);
  kafka_producer = λ c. returned (ok tt);
  postgres_db = λ p. ok p;
  grandpa_block_import = λ c. ok tt;
  babe_block_import = λ c. ok tt;
  import_queue = λ c. ok tt;
  build_network = λ c. ok tt;
  run_grandpa_voter = λ c. ok tt;
}

-- Backend 1 is the node's own one, backend 2 the one on the RocksDB opened as a secondary.
abbrev world : World ℕ ℕ ℕ ℕ ℕ ℕ ℕ ℕ ℕ ℕ
world = record {
  archive_json = some [];
  from_json_file = λ p. some 0;
  build_storage = λ s. some 0;
  open_secondary = λ r. ok r;
  new_backend = λ s delay. elim s.source [ main m ↦ ok 1 | secondary d ↦ ok 2 ];
  parts = λ r c g. parts;
}

abbrev node : NodeConfig ℕ ℕ
node = record {
  service = record { telemetry_endpoints = some (5 ∷ []); disable_grandpa = false };
  execution_strategies = record {
    syncing = both;
    importing = both;
    block_construction = both;
    offchain_worker = both;
    other_calls = both;
  };
  state_pruning = constrained 256;
  state_cache_size = 0;
  state_cache_child_ratio = some 20;
  database = 0;
  keep_blocks = none;
  transaction_storage = block_body;
}

abbrev archive_config : Strategy → ArchiveConfig ℕ ℕ
archive_config strategy = record {
  rocksdb = 0;
  cli = record { block_num = 4; reset_force = true; strategy = strategy; runtime = runtime_api };
  postgres = 3;
  kafka = some config;
}

record Starts (c : ArchiveConfig ℕ ℕ) : Type 0 where
  last : Started ℕ ℕ
  run : do_work world node c ≡ returned (ok last)

started : Starts (archive_config readonly_backend)
unfolding do_work by_strategy gen_genesis_storages new_full_base new_notifier start
started = record { last = _; run = refl }

do_work-starts_example :
    ((readonly_backend ≡ Strategy.none)
      × (archive_tasks started.last.tasks ≡ [])
      × (started.last.to_executor ≡ []))
    ⊎ ((some config ≢ none)
        × ((own : ℕ) × ((reading : ℕ) × ((db : ℕ) × ((world.new_backend
                      (settings (archive_setup node) (main 0))
                      canonicalization_delay
                    ≡ ok own)
                  × IsReading world (archive_setup node) 0 own readonly_backend reading
                  × IsArchiveOn
                      (archive_config readonly_backend).cli
                      db
                      reading
                      own
                      started.last)))))
do_work-starts_example =
    do_work-starts world node (archive_config readonly_backend) started.last started.run

-- The executor reads backend 2, the comparer backend 1, and number 4 is sent to the executor.
started_tasks :
    (archive_tasks started.last.tasks ≡ archiver 3 ∷ executor 2 ∷ comparer 3 1 ∷ [])
    × (started.last.to_executor ≡ 4 ∷ [])
unfolding started archive_tasks
started_tasks = (refl, refl)

-- Without a section on the queue a start that syncs panics.
no_kafka : do_work world node (record (archive_config local_backend) { kafka = none }) ≡ panicked
unfolding do_work by_strategy gen_genesis_storages new_full_base start
no_kafka = refl
