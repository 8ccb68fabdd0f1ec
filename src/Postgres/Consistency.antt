-- ===== src/Postgres/Consistency.antt =====
-- The constraints of the tables hold after every statement of the archive.
use sub_archive.Prelude.{ℕ, List, Result, ok, err, arith, All-map, Option-cases, inl, inr}
use sub_archive.Prelude.Int.{ℤ, int_eq}
use sub_archive.Prelude.Assoc.{
  lookup, insert, contains_key-insert, insert-IsKeyed, insert-All, lookup-All,
}
use sub_archive.Postgres.Model.{MetadataModel, BlockModel, FinalizedBlockModel}
use sub_archive.Postgres.Tables.{
  MetadataRow, BlockRow, Tables, IsBlockRow, IsMetadataRow, IsConsistent,
}
use sub_archive.Postgres.Statements
use sub_archive.Postgres.Statements.{SqlxError, Statement, metadata_row, block_row}

module _ {J : Type 0} where
  abbrev pub tables_after : Tables J → Result SqlxError (ℕ × Tables J) → Tables J
  tables_after t (ok (n, t')) = t'
  tables_after t (err e) = t

  put_block-IsConsistent :
      (t : Tables J) (n : ℤ) (row : BlockRow J)
      → IsConsistent t
      → IsBlockRow t.metadatas (n, row)
      → IsConsistent (record t { blocks = insert n row t.blocks })
  put_block-IsConsistent t n row c r = record {
    metadata_keys = c.metadata_keys;
    block_keys = insert-IsKeyed n row t.blocks c.block_keys;
    metadata_rows = c.metadata_rows;
    block_rows = insert-All (IsBlockRow t.metadatas) n row t.blocks c.block_rows r;
  }

  module _ (bind : ℕ → ℤ) where
    pub insert_block-IsConsistent :
        (m : BlockModel J) (t : Tables J)
        → IsConsistent t
        → IsConsistent (tables_after t (Statements.insert_block bind m t))
    unfolding Statements.insert_block
    insert_block-IsConsistent m t c =
        ground (arith, put_block-IsConsistent t (bind m.block_num) (block_row bind m) c)

    metadata_references :
        (k : ℤ) (row : MetadataRow) (metadatas : List (ℤ × MetadataRow)) (p : ℤ × BlockRow J)
        → IsBlockRow metadatas p
        → IsBlockRow (insert k row metadatas) p
    metadata_references k row metadatas p h = record {
      own_key = h.own_key;
      stored_in = h.stored_in;
      references =
          ground (arith, contains_key-insert k p.1.spec_version row metadatas, h.references);
    }

    put_metadata-IsConsistent :
        (t : Tables J) (k : ℤ) (row : MetadataRow)
        → IsConsistent t
        → IsMetadataRow (k, row)
        → IsConsistent (record t { metadatas = insert k row t.metadatas })
    put_metadata-IsConsistent t k row c r = record {
      metadata_keys = insert-IsKeyed k row t.metadatas c.metadata_keys;
      block_keys = c.block_keys;
      metadata_rows = insert-All IsMetadataRow k row t.metadatas c.metadata_rows r;
      block_rows = All-map (metadata_references k row t.metadatas) t.blocks c.block_rows;
    }

    pub insert_metadata-IsConsistent :
        (m : MetadataModel) (t : Tables J)
        → IsConsistent t
        → IsConsistent (tables_after t (Statements.insert_metadata bind m t))
    unfolding Statements.insert_metadata
    insert_metadata-IsConsistent m t c =
        ground (arith, put_metadata-IsConsistent t (bind m.spec_version) (metadata_row bind m) c)

    pub insert_finalized-IsConsistent :
        (m : FinalizedBlockModel) (t : Tables J)
        → IsConsistent t
        → IsConsistent (tables_after t (Statements.insert_finalized bind m t))
    unfolding Statements.insert_finalized
    insert_finalized-IsConsistent m t c = ground arith

    pub update_spec-IsConsistent :
        (spec_version block_num : ℕ) (t : Tables J)
        → IsConsistent t
        → IsConsistent (tables_after t (Statements.update_spec bind spec_version block_num t))
    unfolding Statements.update_spec
    update_spec-IsConsistent spec_version block_num t c =
        elim (Option-cases (lookup (bind block_num) t.blocks)) [
          | inl missing ↦ rw missing c
          | inr (row, found) ↦
              let h =
                lookup-All (IsBlockRow t.metadatas) (bind block_num) row t.blocks c.block_rows
                  found in
              rw found (
                ground (
                  arith,
                  h,
                  put_block-IsConsistent t (bind block_num)
                      (record row { spec_version = bind spec_version }) c,
                ))
        ]
