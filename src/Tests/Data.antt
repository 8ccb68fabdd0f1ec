-- ===== src/Tests/Data.antt =====
-- Inputs that the tests share. A JSON value is a number here.

use sub_archive.Prelude.{ℕ, List, [], ◌∷◌, Option, none, some, false, ok, returned}
use sub_archive.Prelude.Int.{pos}
use sub_archive.Chain.{SignedBlock, BlockNumber}
use sub_archive.Postgres.Model.{BlockModel, MetadataModel}
use sub_archive.Postgres.Tables.{Tables, MetadataRow}
use sub_archive.Postgres.Database.{PostgresDb}
use sub_archive.Kafka.Payload.{KafkaConfig, BlockPayload}
use sub_archive.Kafka.Producer.{KafkaProducer}
use sub_archive.Notifier.Task.{Notifier}
use sub_archive.Executor.VersionCache.{Externals, RuntimeVersion}
use sub_archive.Executor.Block.{BlockExecutor, RuntimeApi}

abbrev pub model : BlockNumber → BlockModel ℕ
model n = record {
  spec_version = 7;
  block_num = n;
  block_hash = n ∷ [];
  parent_hash = 0 ∷ [];
  state_root = [];
  extrinsics_root = [];
  digest = [];
  extrinsics = [];
  justifications = none;
  main_changes = 0;
  child_changes = 0;
}

abbrev pub metadata_model : MetadataModel
metadata_model = record { spec_version = 7; block_num = 1; block_hash = 1 ∷ []; meta = 9 ∷ [] }

abbrev pub payload : BlockNumber → BlockPayload
payload n = record {
  spec_version = 7;
  block_num = n;
  block_hash = n;
  parent_hash = 0;
  state_root = 0;
  extrinsics_root = 0;
  digest = [];
  extrinsics = [];
  justifications = none;
  main_changes = [];
  child_changes = [];
}

abbrev pub metadata_row : MetadataRow
metadata_row = record {
  spec_version = pos 7;
  block_num = pos 1;
  block_hash = 1 ∷ [];
  meta = 9 ∷ [];
}

abbrev pub empty : Tables ℕ
empty = record { metadatas = []; blocks = []; finalized_block = none }

-- version 7 is known
abbrev pub known : Tables ℕ
known = record { metadatas = (pos 7, metadata_row) ∷ []; blocks = []; finalized_block = none }

abbrev pub database : Tables ℕ → PostgresDb ℕ
database t = record { tables = t; faults = []; bind = pos }

abbrev pub config : KafkaConfig
config = record {
  queue_timeout = 0;
  topic = record { metadata = "m"; block = "b"; finalized_block = "f" };
  rdkafka = ("bootstrap.servers", "localhost:9092") ∷ [];
}

abbrev pub producer : List (Option ℕ) → KafkaProducer
producer outages = record { config = config; to_json = λ x. []; delivered = []; outages = outages }

abbrev pub notifier : Tables ℕ → List (Option ℕ) → Notifier ℕ
notifier t outages = record {
  db = database t;
  producer = producer outages;
  metadata_at = λ n. some (9 ∷ []);
  hash_bytes = λ h. h ∷ [];
}

abbrev pub version : RuntimeVersion
version = record { spec_version = 7; apis = [] }

abbrev pub externals : Externals (Unit {0})
externals = record {
  state_at = λ id. ok tt;
  code_at = λ s. some (some (1 ∷ []));
  make_hash = λ code. 5;
  runtime_version = λ code. some code;
  decode_old = λ bytes. some version;
  decode_new = λ bytes. some version;
  has_api_with = λ v id p. false;
  core_api_id = 0;
}

abbrev pub client : RuntimeApi (Unit {0})
client = record {
  Recorded = Unit {0};
  execute_block = λ id b. returned tt;
  into_storage_changes = λ r s h. some (((1 ∷ []), some (2 ∷ [])) ∷ []);
}

abbrev pub signed_block : BlockNumber → SignedBlock
signed_block n = record {
  block = record {
    header = record {
      parent_hash = 0;
      number = n;
      state_root = 0;
      extrinsics_root = 0;
      digest = (3 ∷ []) ∷ (4 ∷ []) ∷ [];
    };
    extrinsics = [];
  };
  justifications = none;
}

abbrev pub executor : BlockExecutor (Unit {0}) ℕ
executor = record {
  client = client;
  externals = externals;
  get_block = λ n. returned (some (signed_block n));
  get_state = λ id. ok tt;
  genesis_top = [];
  header_hash = λ h. h.number;
  hash_bytes = λ h. h ∷ [];
  encode_digest = λ d. [];
  encode_extrinsic = λ e. e;
  encode_justification = λ j. [];
  to_json = λ m. 0;
  json_null = 0;
}
