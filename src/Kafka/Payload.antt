-- ===== src/Kafka/Payload.antt =====
-- archive/kafka/src/payload.rs and config.rs: what is published, and where.
use Prim.Native.String.{String}
use sub_archive.Prelude.{ℕ, List, Option}
use sub_archive.Chain.{Bytes, Hash, BlockNumber, DigestItem, Extrinsic, Justification}

pub record KafkaTopicConfig : Type 0 where
  pub metadata : String
  pub block : String
  pub finalized_block : String

pub record KafkaConfig : Type 0 where
  pub queue_timeout : ℕ
  pub topic : KafkaTopicConfig
  pub rdkafka : List (String × String)

-- `HashMap<StorageKey, Option<StorageData>>`
abbrev pub StorageMap : Type 0
StorageMap = List (Bytes × Option Bytes)

pub record MetadataPayload : Type 0 where
  pub spec_version : ℕ
  pub block_num : BlockNumber
  pub block_hash : Hash
  pub meta : Bytes

pub record BlockPayload : Type 0 where
  pub spec_version : ℕ
  pub block_num : BlockNumber
  pub block_hash : Hash
  pub parent_hash : Hash
  pub state_root : Hash
  pub extrinsics_root : Hash
  pub digest : List DigestItem
  pub extrinsics : List Extrinsic
  pub justifications : Option (List Justification)
  pub main_changes : StorageMap
  pub child_changes : List (Bytes × StorageMap)

pub record FinalizedBlockPayload : Type 0 where
  pub block_num : BlockNumber
  pub block_hash : Hash

pub record MetadataPayloadForDemo : Type 0 where
  pub spec_version : ℕ
  pub block_num : ℕ
  pub block_hash : String
  pub meta : Bytes

pub record BlockPayloadForDemo : Type 0 where
  pub spec_version : ℕ
  pub block_num : ℕ
  pub block_hash : String
  pub parent_hash : String
  pub state_root : String
  pub extrinsics_root : String
  pub digest : String
  pub extrinsics : List String
  pub justifications : Option (List Justification)
  pub main_changes : StorageMap
  pub child_changes : List (Bytes × StorageMap)

pub record FinalizedBlockPayloadDemo : Type 0 where
  pub block_num : ℕ
  pub block_hash : String

-- The types that implement `SendPayload`.
pub data Payload : Type 0 where
  metadata : MetadataPayload → Payload
  block : BlockPayload → Payload
  finalized : FinalizedBlockPayload → Payload
  metadata_demo : MetadataPayloadForDemo → Payload
  block_demo : BlockPayloadForDemo → Payload
  finalized_demo : FinalizedBlockPayloadDemo → Payload
