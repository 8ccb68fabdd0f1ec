-- ===== src/Service/Command.antt =====
-- `do_work` of cli/src/command.rs: the backends that the strategy asks for, and the service on them.
use sub_archive.Prelude.{ℕ, Option, none, some, Bool, true, false, Result, ok, err, returned, ok_or}
use sub_archive.Chain.{Bytes}
use sub_archive.Service.Base.{ServiceError, other, Fallible, ◌>>=◌, unwrap}
use sub_archive.Service.Config.{
  Strategy, local_backend, readonly_backend, remote_db, rpc, Runtime, ArchiveConfig,
}
use sub_archive.Service.Start.{Started, Configuration, Parts, new_full_base}

-- `ExecutionStrategy`
pub data ExecutionStrategy : Type 0 where
  native_when_possible : ExecutionStrategy
  always_wasm : ExecutionStrategy
  both : ExecutionStrategy
  native_else_wasm : ExecutionStrategy

pub record ExecutionStrategies : Type 0 where
  pub syncing : ExecutionStrategy
  pub importing : ExecutionStrategy
  pub block_construction : ExecutionStrategy
  pub offchain_worker : ExecutionStrategy
  pub other_calls : ExecutionStrategy

-- `PruningMode`
pub data PruningMode : Type 0 where
  constrained : ℕ → PruningMode
  archive_all : PruningMode
  archive_canonical : PruningMode

-- `TransactionStorageMode`
pub data TransactionStorageMode : Type 0 where
  block_body : TransactionStorageMode
  storage_chain : TransactionStorageMode

-- Where a backend has its data: where the configuration says, or in a RocksDB opened as a secondary.
pub data Source (M S : Type 0) : Type 0 where
  main : M → Source M S
  secondary : S → Source M S

-- The node's configuration, as far as `do_work` reads and changes it; `M` is its database.
pub record NodeConfig (C M : Type 0) : Type 0 where
  pub service : Configuration C
  pub execution_strategies : ExecutionStrategies
  pub state_pruning : PruningMode
  pub state_cache_size : ℕ
  pub state_cache_child_ratio : Option ℕ
  pub database : M
  pub keep_blocks : Option ℕ
  pub transaction_storage : TransactionStorageMode

pub record DatabaseSettings (M S : Type 0) : Type 0 where
  pub state_cache_size : ℕ
  pub state_cache_child_ratio : Option (ℕ × ℕ)
  pub state_pruning : PruningMode
  pub source : Source M S
  pub keep_blocks : Option ℕ
  pub transaction_storage : TransactionStorageMode

-- The calls out of `do_work`: the variable ARCHIVE_JSON, the chain's specification and its storage,
-- the opening of RocksDB and of a backend, and the parts of the service, for each of the two runtimes.
pub record World (B C M S R P D Spec Storage Client : Type 0) : Type 0 where
  pub archive_json : Option Bytes
  pub from_json_file : Bytes → Option Spec
  pub build_storage : Spec → Option Storage
  pub open_secondary : R → Result ServiceError S
  pub new_backend : DatabaseSettings M S → ℕ → Result ServiceError B
  pub parts : Runtime → NodeConfig C M → Storage → Parts B C P D Client

abbrev pub with_hundred : Option ℕ → Option (ℕ × ℕ)
with_hundred none = none
with_hundred (some v) = some (v, 100)

abbrev pub canonicalization_delay : ℕ
canonicalization_delay = 4096

-- default configuration setup
abbrev pub archive_setup : {C M : Type 0} → NodeConfig C M → NodeConfig C M
archive_setup config = record config {
  execution_strategies = record {
    syncing = always_wasm;
    importing = always_wasm;
    block_construction = always_wasm;
    offchain_worker = always_wasm;
    other_calls = always_wasm;
  };
  state_pruning = archive_all;
}

abbrev pub settings : {C M S : Type 0} → NodeConfig C M → Source M S → DatabaseSettings M S
settings config source = record {
  state_cache_size = config.state_cache_size;
  state_cache_child_ratio = with_hundred config.state_cache_child_ratio;
  state_pruning = config.state_pruning;
  source = source;
  keep_blocks = config.keep_blocks;
  transaction_storage = config.transaction_storage;
}

module _ {B C M S R P D Spec Storage Client : Type 0}
    (w : World B C M S R P D Spec Storage Client) where
  unfoldable pub gen_genesis_storages : Fallible ServiceError Storage
  gen_genesis_storages = do
    config_path ← returned (ok_or other w.archive_json)
    json ← unwrap (w.from_json_file config_path)
    returned (ok_or other (w.build_storage json))

  -- The backend that the executor reads, and whether the archive runs at all.
  unfoldable pub by_strategy : Strategy → NodeConfig C M → R → B → Result ServiceError (B × Bool)
  by_strategy readonly_backend config rocksdb backend = elim (w.open_secondary rocksdb) [
    | err e ↦ err e
    | ok db ↦ elim (w.new_backend (settings config (secondary db)) canonicalization_delay) [
      | err e ↦ err e
      | ok readonly ↦ ok (readonly, true)
    ]
  ]
  by_strategy Strategy.none config rocksdb backend = ok (backend, false)
  by_strategy local_backend config rocksdb backend = ok (backend, true)
  by_strategy remote_db config rocksdb backend = ok (backend, true)
  by_strategy rpc config rocksdb backend = ok (backend, true)

  unfoldable pub do_work : NodeConfig C M → ArchiveConfig P R → Fallible ServiceError (Started B D)
  unfolding gen_genesis_storages
  do_work node archive_config =
      let config = archive_setup node in
      do
        genesis_storages ← gen_genesis_storages
        backend ←
            returned (w.new_backend (settings config (main config.database)) canonicalization_delay)
        chosen ←
            returned (by_strategy archive_config.cli.strategy config archive_config.rocksdb backend)
        new_full_base (w.parts archive_config.cli.runtime config genesis_storages) config.service
            archive_config backend chosen.0 chosen.1
