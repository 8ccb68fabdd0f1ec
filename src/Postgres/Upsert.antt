-- ===== src/Postgres/Upsert.antt =====
-- What an INSERT of the archive leaves in the table: the row of the model, and all else as it was.
use sub_archive.Prelude.{ℕ, some, ok, err, ◌≡◌, arith, ◌≤◌, ◌==◌, if◌then◌else◌}
use sub_archive.Prelude.Int.{ℤ, pos, int_eq}
use sub_archive.Prelude.Assoc.{lookup, lookup-insert, insert-insert}
use sub_archive.Postgres.Model.{BlockModel}
use sub_archive.Postgres.Tables.{Tables}
use sub_archive.Postgres.Statements
use sub_archive.Postgres.Statements.{
  SqlxError, Statement, metadata_row, block_row, no_partition, max_column, select_max,
}
use sub_archive.Postgres.Consistency.{tables_after}

module _ {J : Type 0} (bind : ℕ → ℤ) where
  -- A second INSERT of the same block changes nothing.
  pub insert_block_again :
      (m : BlockModel J) (t : Tables J)
      → tables_after
          (tables_after t (Statements.insert_block bind m t))
          (Statements.insert_block bind m (tables_after t (Statements.insert_block bind m t)))
        ≡ tables_after t (Statements.insert_block bind m t)
  unfolding Statements.insert_block
  insert_block_again m t =
      ground (arith, insert-insert (bind m.block_num) (block_row bind m) t.blocks)

  pub insert_block_no_partition :
      (m : BlockModel J) (t : Tables J)
      → bind m.block_num ≡ pos m.block_num
      → 10000000 ≤ m.block_num
      → Statements.insert_block bind m t ≡ err no_partition
  unfolding Statements.insert_block
  insert_block_no_partition m t b h = ground arith

  pub insert_block-lookup :
      (m : BlockModel J) (t t' : Tables J) (n : ℕ) (k : ℤ)
      → Statements.insert_block bind m t ≡ ok (n, t')
      → (lookup k t'.blocks
          ≡ (if bind m.block_num == k then some (block_row bind m) else lookup k t.blocks))
        × (t'.metadatas ≡ t.metadatas)
        × (t'.finalized_block ≡ t.finalized_block)
  unfolding Statements.insert_block
  insert_block-lookup m t t' n k h =
      ground (arith, lookup-insert (bind m.block_num) k (block_row bind m) t.blocks)
