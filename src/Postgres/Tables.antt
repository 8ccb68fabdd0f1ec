-- ===== src/Postgres/Tables.antt =====
-- archive/postgres/migrations/20210409032916_tables.sql: the tables, with their constraints.
-- An `integer` column holds an `i32`, modelled by ℤ.
use sub_archive.Prelude.{List, Option, Bool, ◌&&◌, ◌≡◌, true}
use sub_archive.Prelude.Int.{ℤ, pos, leb_ℤ, int_eq}
use sub_archive.Prelude.Assoc.{IsKeyed, contains_key}
use sub_archive.Prelude.{All}
use sub_archive.Chain.{Bytes}

pub record MetadataRow : Type 0 where
  pub spec_version : ℤ
  pub block_num : ℤ
  pub block_hash : Bytes
  pub meta : Bytes

pub record BlockRow (J : Type 0) : Type 0 where
  pub spec_version : ℤ
  pub block_num : ℤ
  pub block_hash : Bytes
  pub parent_hash : Bytes
  pub state_root : Bytes
  pub extrinsics_root : Bytes
  pub digest : Bytes
  pub extrinsics : List Bytes
  pub justifications : Option (List Bytes)
  pub main_changes : J
  pub child_changes : J

pub record FinalizedRow : Type 0 where
  pub block_num : ℤ
  pub block_hash : Bytes

-- Each table under its primary key; `finalized_block` has at most the row `only_one = true`.
pub record Tables (J : Type 0) : Type 0 where
  pub metadatas : List (ℤ × MetadataRow)
  pub blocks : List (ℤ × BlockRow J)
  pub finalized_block : Option FinalizedRow

-- CHECK (spec_version >= 0)
abbrev pub spec_check : ℤ → Bool
spec_check n = leb_ℤ (pos 0) n

-- CHECK (block_num >= 0 and block_num < 2147483647)
abbrev pub number_check : ℤ → Bool
number_check n = leb_ℤ (pos 0) n && leb_ℤ n (pos 2147483646)

-- The partitions blocks_0 to blocks_9 cover the numbers from 0 below 10000000.
abbrev pub has_partition : ℤ → Bool
has_partition n = leb_ℤ (pos 0) n && leb_ℤ n (pos 9999999)

-- What the constraints promise of one row of `blocks`, found under the key `p.0`.
pub record IsBlockRow {J : Type 0} (metadatas : List (ℤ × MetadataRow)) (p : ℤ × BlockRow J)
    : Type 0 where
  pub own_key : p.1.block_num ≡ p.0
  pub stored_in : has_partition p.0 ≡ true
  pub references : contains_key p.1.spec_version metadatas ≡ true

pub record IsMetadataRow (p : ℤ × MetadataRow) : Type 0 where
  pub own_key : p.1.spec_version ≡ p.0
  pub checked : spec_check p.0 ≡ true

pub record IsConsistent {J : Type 0} (t : Tables J) : Type 0 where
  pub metadata_keys : IsKeyed t.metadatas
  pub block_keys : IsKeyed t.blocks
  pub metadata_rows : All IsMetadataRow t.metadatas
  pub block_rows : All (IsBlockRow t.metadatas) t.blocks
