-- ===== src/Service/Config.antt =====
-- archive/src/config.rs: the archive's own configuration. `P` and `R` are those of the database and of
-- RocksDB.
use sub_archive.Prelude.{Option, Bool, Result, ◌>>=◌, ok_or}
use sub_archive.Chain.{Bytes, BlockNumber}
use sub_archive.Kafka.Payload.{KafkaConfig}

pub data Strategy : Type 0 where
  local_backend : Strategy
  readonly_backend : Strategy
  remote_db : Strategy
  rpc : Strategy
  none : Strategy

pub data Runtime : Type 0 where
  runtime_api : Runtime
  mock_runtime_api : Runtime

pub record CliConfig : Type 0 where
  pub block_num : BlockNumber
  pub reset_force : Bool
  pub strategy : Strategy
  pub runtime : Runtime

pub record ArchiveConfig (P R : Type 0) : Type 0 where
  pub rocksdb : R
  pub cli : CliConfig
  pub postgres : P
  pub kafka : Option KafkaConfig

-- `sc_cli::Error`
pub data CliError : Type 0 where
  input_env : CliError
  io : CliError
  input_toml : CliError

-- `ArchiveCli::init`, given the variable ARCHIVE_CONFIG, the files and the reading of TOML.
unfoldable pub init :
    {P R : Type 0}
    → Option Bytes
    → (Bytes → Option Bytes)
    → (Bytes → Option (ArchiveConfig P R))
    → Result CliError (ArchiveConfig P R)
init archive_config read_to_string from_str = do
  config_path ← ok_or input_env archive_config
  toml_str ← ok_or io (read_to_string config_path)
  ok_or input_toml (from_str toml_str)
