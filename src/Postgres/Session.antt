-- ===== src/Postgres/Session.antt =====
-- Clients of `PostgresDb`: any sequence of its calls, with any failures of the pool or the server.
use sub_archive.Prelude.{ℕ, List, [], ◌∷◌, ◌≡◌, arith}
use sub_archive.Prelude.Int.{int_eq}
use sub_archive.Postgres.Model.{MetadataModel, BlockModel, FinalizedBlockModel}
use sub_archive.Postgres.Tables.{IsConsistent}
use sub_archive.Postgres.Database.{
  PostgresDb, insert_block, insert_metadata, insert_finalized, update_spec,
  check_if_metadata_exists, max_block_num, finalized_block,
}
use sub_archive.Postgres.Consistency.{
  insert_block-IsConsistent, insert_metadata-IsConsistent, insert_finalized-IsConsistent,
  update_spec-IsConsistent,
}

-- A call of `PostgresDb` that the archive can make.
pub data Call (J : Type 0) : Type 0 where
  block : BlockModel J → Call J
  metadata : MetadataModel → Call J
  finalized : FinalizedBlockModel → Call J
  spec : ℕ → ℕ → Call J
  exists_query : ℕ → Call J
  max_query : Call J
  finalized_query : Call J

module _ {J : Type 0} where
  unfoldable pub perform : Call J → PostgresDb J → PostgresDb J
  perform (block m) db = (insert_block m db).1
  perform (metadata m) db = (insert_metadata m db).1
  perform (finalized m) db = (insert_finalized m db).1
  perform (spec v n) db = (update_spec v n db).1
  perform (exists_query v) db = (check_if_metadata_exists v db).1
  perform max_query db = (max_block_num db).1
  perform finalized_query db = (finalized_block db).1

  unfoldable pub session : List (Call J) → PostgresDb J → PostgresDb J
  session [] db = db
  session (c ∷ calls) db = session calls (perform c db)

  db_insert_block-IsConsistent :
      (m : BlockModel J) (db : PostgresDb J)
      → IsConsistent db.tables
      → IsConsistent (insert_block m db).1.tables
  unfolding insert_block
  db_insert_block-IsConsistent m db c =
      ground (arith, insert_block-IsConsistent db.bind m db.tables c)

  db_insert_metadata-IsConsistent :
      (m : MetadataModel) (db : PostgresDb J)
      → IsConsistent db.tables
      → IsConsistent (insert_metadata m db).1.tables
  unfolding insert_metadata
  db_insert_metadata-IsConsistent m db c =
      ground (arith, insert_metadata-IsConsistent db.bind m db.tables c)

  db_insert_finalized-IsConsistent :
      (m : FinalizedBlockModel) (db : PostgresDb J)
      → IsConsistent db.tables
      → IsConsistent (insert_finalized m db).1.tables
  unfolding insert_finalized
  db_insert_finalized-IsConsistent m db c =
      ground (arith, insert_finalized-IsConsistent db.bind m db.tables c)

  db_update_spec-IsConsistent :
      (v n : ℕ) (db : PostgresDb J)
      → IsConsistent db.tables
      → IsConsistent (update_spec v n db).1.tables
  unfolding update_spec
  db_update_spec-IsConsistent v n db c =
      ground (arith, update_spec-IsConsistent db.bind v n db.tables c)

  pub queries-tables :
      (v : ℕ) (db : PostgresDb J)
      → ((check_if_metadata_exists v db).1.tables ≡ db.tables)
        × ((max_block_num db).1.tables ≡ db.tables)
        × ((finalized_block db).1.tables ≡ db.tables)
  unfolding check_if_metadata_exists max_block_num finalized_block
  queries-tables v db = ground arith

  perform-IsConsistent :
      (c : Call J) (db : PostgresDb J) → IsConsistent db.tables → IsConsistent (perform c db).tables
  unfolding perform
  perform-IsConsistent (block m) db h = db_insert_block-IsConsistent m db h
  perform-IsConsistent (metadata m) db h = db_insert_metadata-IsConsistent m db h
  perform-IsConsistent (finalized m) db h = db_insert_finalized-IsConsistent m db h
  perform-IsConsistent (spec v n) db h = db_update_spec-IsConsistent v n db h
  perform-IsConsistent (exists_query v) db h = rw (queries-tables v db).0 h
  perform-IsConsistent max_query db h = rw (queries-tables 0 db).1 h
  perform-IsConsistent finalized_query db h = rw (queries-tables 0 db).2 h

  -- Whatever calls are made, and whichever of them fail, the tables meet their constraints: keys
  -- are unique, each row stands under its own key, each block has a partition, and its spec version
  -- has a row of metadata.
  pub session-IsConsistent :
      (calls : List (Call J)) (db : PostgresDb J)
      → IsConsistent db.tables
      → IsConsistent (session calls db).tables
  unfolding session
  session-IsConsistent [] db h = h
  session-IsConsistent (c ∷ calls) db h =
      session-IsConsistent calls (perform c db) (perform-IsConsistent c db h)
