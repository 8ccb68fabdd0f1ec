-- ===== src/Postgres/Statements.antt =====
-- The SQL statements of archive/postgres/src/database/{insert,query,update}.rs, on the tables.
-- `bind` is how sqlx hands a `u32` over as an `integer`.
use sub_archive.Prelude.{ℕ, List, [], ◌∷◌, Option, none, some, Bool, Result, ok, err, if◌then◌else◌}
use sub_archive.Prelude.Int.{ℤ, leb_ℤ, as_u32, int_eq}
use sub_archive.Prelude.Assoc.{insert, lookup, contains_key}
use sub_archive.Postgres.Model.{MetadataModel, BlockModel, FinalizedBlockModel}
use sub_archive.Postgres.Tables.{
  MetadataRow, BlockRow, FinalizedRow, Tables, spec_check, number_check, has_partition,
}

pub data SqlxError : Type 0 where
  pool_timed_out io no_partition check_violation foreign_key_violation : SqlxError

-- A statement gives the rows that it affected and the new tables, or an error and no change.
abbrev pub Statement : Type 0 → Type 0
Statement J = Tables J → Result SqlxError (ℕ × Tables J)

module _ {J : Type 0} (bind : ℕ → ℤ) where
  abbrev pub block_row : BlockModel J → BlockRow J
  block_row m = record {
    spec_version = bind m.spec_version;
    block_num = bind m.block_num;
    block_hash = m.block_hash;
    parent_hash = m.parent_hash;
    state_root = m.state_root;
    extrinsics_root = m.extrinsics_root;
    digest = m.digest;
    extrinsics = m.extrinsics;
    justifications = m.justifications;
    main_changes = m.main_changes;
    child_changes = m.child_changes;
  }

  -- INSERT INTO blocks … ON CONFLICT (block_num) DO UPDATE SET (every column) = (excluded …)
  unfoldable pub insert_block : BlockModel J → Statement J
  insert_block m t =
      let row = block_row m in
      if has_partition row.block_num
      then if number_check row.block_num
        then if contains_key row.spec_version t.metadatas
          then ok (1, record t { blocks = insert row.block_num row t.blocks })
          else err foreign_key_violation
        else err check_violation
      else err no_partition

  with_spec : ℕ → Option (BlockRow J) → Tables J → ℕ → Result SqlxError (ℕ × Tables J)
  with_spec spec_version none t block_num = ok (0, t)
  with_spec spec_version (some row) t block_num =
      if contains_key (bind spec_version) t.metadatas
      then ok (
        1,
        record t {
          blocks =
              insert (bind block_num) (record row { spec_version = bind spec_version }) t.blocks;
        },
      )
      else err foreign_key_violation

  -- update blocks set spec_version=$1 where block_num=$2
  unfoldable pub update_spec : ℕ → ℕ → Statement J
  unfolding with_spec
  update_spec spec_version block_num t =
      with_spec spec_version (lookup (bind block_num) t.blocks) t block_num

  -- SELECT EXISTS(SELECT spec_version FROM metadatas WHERE spec_version = $1)
  unfoldable pub select_exists : ℕ → Tables J → Bool
  select_exists spec_version t = contains_key (bind spec_version) t.metadatas

module _ (bind : ℕ → ℤ) where
  abbrev pub metadata_row : MetadataModel → MetadataRow
  metadata_row m = record {
    spec_version = bind m.spec_version;
    block_num = bind m.block_num;
    block_hash = m.block_hash;
    meta = m.meta;
  }

  abbrev pub finalized_row : FinalizedBlockModel → FinalizedRow
  finalized_row m = record { block_num = bind m.block_num; block_hash = m.block_hash }

module _ {J : Type 0} (bind : ℕ → ℤ) where
  -- INSERT INTO metadatas … ON CONFLICT (spec_version) DO UPDATE SET …
  unfoldable pub insert_metadata : MetadataModel → Statement J
  insert_metadata m t =
      let row = metadata_row bind m in
      if spec_check row.spec_version
      then ok (1, record t { metadatas = insert row.spec_version row t.metadatas })
      else err check_violation

  -- INSERT INTO finalized_block VALUES (true, …) ON CONFLICT (only_one) DO UPDATE SET …
  unfoldable pub insert_finalized : FinalizedBlockModel → Statement J
  insert_finalized m t =
      let row = finalized_row bind m in
      if number_check row.block_num
      then ok (1, record t { finalized_block = some row })
      else err check_violation

-- MAX over a column; NULL for no row.
abbrev pub max_with : ℤ → Option ℤ → ℤ
max_with n none = n
max_with n (some m) = if leb_ℤ n m then m else n

module _ {J : Type 0} where
  unfoldable pub max_column : List (ℤ × BlockRow J) → Option ℤ
  max_column [] = none
  max_column ((n, row) ∷ rows) = some (max_with row.block_num (max_column rows))

  -- SELECT MAX(block_num) FROM blocks, then `max.map(|v| v as u32)`
  unfoldable pub select_max : Tables J → Option ℕ
  unfolding max_column
  select_max t = elim (max_column t.blocks) [ none ↦ none | some n ↦ some (as_u32 n) ]

  -- SELECT block_num, block_hash FROM finalized_block
  unfoldable pub select_finalized : Tables J → Option FinalizedBlockModel
  select_finalized t = elim t.finalized_block [
    | none ↦ none
    | some row ↦ some (record { block_num = as_u32 row.block_num; block_hash = row.block_hash })
  ]
