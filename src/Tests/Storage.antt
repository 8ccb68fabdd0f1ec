-- ===== src/Tests/Storage.antt =====
-- The database: sessions, upserts and the greatest number.
use sub_archive.Prelude.{
  none, some, ℕ, List, [], ◌∷◌, true, false, some, err, returned, ◌≡◌, refl, ◌==◌, if◌then◌else◌,
}
use sub_archive.Prelude.Int.{pos, int_eq, leb_ℤ}
use sub_archive.Prelude.Assoc.{contains_key, lookup, insert}
use sub_archive.Postgres.Tables.{Tables, IsConsistent}
use sub_archive.Postgres.Statements
use sub_archive.Postgres.Statements.{block_row, no_partition, select_max}
use sub_archive.Postgres.Database
use sub_archive.Postgres.Statements.{io}
use sub_archive.Postgres.Database.{PostgresDb}
use sub_archive.Postgres.Session.{
  Call, block, metadata, spec, max_query, perform, session, session-IsConsistent,
}
use sub_archive.Postgres.Upsert.{insert_block-lookup}
use sub_archive.Postgres.Refinement.{view, results, Explains, session_refines}
use sub_archive.Pipeline.Initializer.{start, start-resumes}
use sub_archive.Tests.Data.{model, metadata_model, known, empty, database}

IsConsistent-empty : IsConsistent empty
IsConsistent-empty = record {
  metadata_keys = tt;
  block_keys = tt;
  metadata_rows = tt;
  block_rows = tt;
}

abbrev calls : List (Call ℕ)
calls =
    block (model 1)
    ∷ metadata metadata_model
    ∷ block (model 1)
    ∷ block (model 1)
    ∷ spec 8 1
    ∷ max_query
    ∷ []

session-IsConsistent_example : IsConsistent (session calls (database empty)).tables
session-IsConsistent_example = session-IsConsistent calls (database empty) IsConsistent-empty

-- The reply to the metadata's statement is lost.
abbrev losing_a_reply : PostgresDb ℕ
losing_a_reply = record (database empty) { faults = none ∷ none ∷ none ∷ none ∷ some io ∷ [] }

session_refines_example :
    Explains pos
      (results calls losing_a_reply)
      (view empty)
      (view (session calls losing_a_reply).tables)
session_refines_example = session_refines calls losing_a_reply

-- Blocks 3 and 5 stored.
filled : Tables ℕ
filled =
    (session (metadata metadata_model ∷ block (model 5) ∷ block (model 3) ∷ [])
      (database empty)).tables

filled-IsConsistent : IsConsistent filled
unfolding filled
filled-IsConsistent =
    session-IsConsistent (metadata metadata_model ∷ block (model 5) ∷ block (model 3) ∷ [])
      (database empty) IsConsistent-empty

filled_max : select_max filled ≡ some 5
unfolding filled session perform Database.insert_block Database.insert_metadata
    Statements.insert_block Statements.insert_metadata select_max insert lookup
filled_max = refl

filled_has : contains_key (pos 3) filled.blocks ≡ true
unfolding filled session perform Database.insert_block Database.insert_metadata
    Statements.insert_block Statements.insert_metadata insert lookup
filled_has = refl

filled-start : (start false 0 (database filled)).0 ≡ returned 5
unfolding start Database.max_block_num
filled-start = rw filled_max

start-resumes_example :
    (contains_key (pos 5) filled.blocks ≡ true)
    × (leb_ℤ (pos 3) (pos 5) ≡ true)
    × ((start false 0 (database filled)).1.tables ≡ filled)
start-resumes_example =
    start-resumes 0 5 (pos 3) (database filled) filled-IsConsistent filled-start filled_has

insert_block-lookup_example :
    (lookup (pos 3) (record known { blocks = (pos 3, block_row pos (model 3)) ∷ [] }).blocks
      ≡ (if pos 3 == pos 3 then some (block_row pos (model 3)) else lookup (pos 3) known.blocks))
    × (known.metadatas ≡ known.metadatas)
    × (known.finalized_block ≡ known.finalized_block)
unfolding Statements.insert_block insert lookup
insert_block-lookup_example =
    insert_block-lookup pos (model 3) known
      (record known { blocks = (pos 3, block_row pos (model 3)) ∷ [] }) 1 (pos 3) refl

-- A block whose version has no metadata is refused.
unknown_version : Statements.insert_block pos (model 3) empty ≡ err Statements.foreign_key_violation
unfolding Statements.insert_block lookup
unknown_version = refl
