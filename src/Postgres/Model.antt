-- ===== src/Postgres/Model.antt =====
-- archive/postgres/src/model.rs: the rows that the archive writes. `J` is `serde_json::Value`.
use sub_archive.Prelude.{ℕ, List, Option}
use sub_archive.Chain.{Bytes}

pub record MetadataModel : Type 0 where
  pub spec_version : ℕ
  pub block_num : ℕ
  pub block_hash : Bytes
  pub meta : Bytes

pub record BlockModel (J : Type 0) : Type 0 where
  pub spec_version : ℕ
  pub block_num : ℕ
  pub block_hash : Bytes
  pub parent_hash : Bytes
  pub state_root : Bytes
  pub extrinsics_root : Bytes
  pub digest : Bytes
  pub extrinsics : List Bytes
  pub justifications : Option (List Bytes)
  pub main_changes : J
  pub child_changes : J

pub record FinalizedBlockModel : Type 0 where
  pub block_num : ℕ
  pub block_hash : Bytes
