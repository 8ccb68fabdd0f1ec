-- ===== src/Notifier/Keeps.antt =====
-- The archiver never breaks the tables' constraints, whatever it receives and whatever fails.
use sub_archive.Prelude.{List, [], ◌∷◌, none, some, ◌≡◌, arith, Option-cases, inl, inr}
use sub_archive.Chain.{Bytes}
use sub_archive.Postgres.Model.{BlockModel}
use sub_archive.Postgres.Tables.{IsConsistent}
use sub_archive.Postgres.Statements
use sub_archive.Postgres.Database
use sub_archive.Postgres.Consistency.{
  tables_after, insert_block-IsConsistent, insert_metadata-IsConsistent,
}
use sub_archive.Kafka.Payload.{BlockPayload}
use sub_archive.Kafka.Producer.{send}
use sub_archive.Notifier.Task.{Notifier}
use sub_archive.Notifier.Archive.{ArchiveSendMsg, archive, run, metadata_model}

module _ {J : Type 0} where
  archive_known-IsConsistent :
      (m : BlockModel J) (p : BlockPayload) (s : Notifier J)
      → IsConsistent s.db.tables
      → s.metadata_at m.block_num ≡ none
      → IsConsistent (archive m p s).1.db.tables
  unfolding archive Database.check_if_metadata_exists Database.insert_block Database.insert_metadata
      send
  archive_known-IsConsistent m p s c e =
      ground (arith, insert_block-IsConsistent s.db.bind m s.db.tables c)

  archive_new-IsConsistent :
      (m : BlockModel J) (p : BlockPayload) (s : Notifier J) (meta : Bytes)
      → IsConsistent s.db.tables
      → s.metadata_at m.block_num ≡ some meta
      → IsConsistent (archive m p s).1.db.tables
  unfolding archive Database.check_if_metadata_exists Database.insert_block Database.insert_metadata
      send
  archive_new-IsConsistent m p s meta c e =
      let model = metadata_model s m p meta in
      let c' = insert_metadata-IsConsistent s.db.bind model s.db.tables c in
      let t' = tables_after s.db.tables (Statements.insert_metadata s.db.bind model s.db.tables) in
      ground (
        arith,
        c',
        insert_block-IsConsistent s.db.bind m s.db.tables c,
        insert_block-IsConsistent s.db.bind m t' c',
      )

  archive-IsConsistent :
      (m : BlockModel J) (p : BlockPayload) (s : Notifier J)
      → IsConsistent s.db.tables
      → IsConsistent (archive m p s).1.db.tables
  archive-IsConsistent m p s c = elim (Option-cases (s.metadata_at m.block_num)) [
    | inl none_here ↦ archive_known-IsConsistent m p s c none_here
    | inr (meta, e) ↦ archive_new-IsConsistent m p s meta c e
  ]

  -- From tables that meet their constraints, whatever the archiver receives, and whatever the
  -- server, the queue and the runtime answer, the tables meet their constraints when it ends.
  pub run-IsConsistent :
      (msgs : List (ArchiveSendMsg J)) (s : Notifier J)
      → IsConsistent s.db.tables
      → IsConsistent (run msgs s).1.db.tables
  unfolding run
  run-IsConsistent [] s c = c
  run-IsConsistent ((m, p) ∷ msgs) s c = ground (
    arith,
    archive-IsConsistent m p s c,
    run-IsConsistent msgs (archive m p s).1 (archive-IsConsistent m p s c),
  )
