-- ===== src/Notifier/Monotone.antt =====
-- `archive` never removes a block, and leaves the client's encoding alone.
use sub_archive.Prelude.{true, ◌≡◌, arith}
use sub_archive.Prelude.Int.{ℤ, int_eq}
use sub_archive.Prelude.Assoc.{contains_key, contains_key-insert}
use sub_archive.Postgres.Model.{BlockModel}
use sub_archive.Postgres.Statements
use sub_archive.Postgres.Statements.{block_row}
use sub_archive.Postgres.Database
use sub_archive.Kafka.Payload.{BlockPayload}
use sub_archive.Kafka.Producer.{send}
use sub_archive.Notifier.Task.{Notifier}
use sub_archive.Notifier.Archive.{archive}

module _ {J : Type 0} (m : BlockModel J) (p : BlockPayload) (s : Notifier J) where
  pub archive-bind : (archive m p s).1.db.bind ≡ s.db.bind
  unfolding archive Database.check_if_metadata_exists Database.insert_block Database.insert_metadata
      send
  archive-bind = ground arith

  pub archive-keeps :
      (k : ℤ)
      → contains_key k s.db.tables.blocks ≡ true
      → contains_key k (archive m p s).1.db.tables.blocks ≡ true
  unfolding archive Database.check_if_metadata_exists Database.insert_block Database.insert_metadata
      Statements.insert_block Statements.insert_metadata send
  archive-keeps k h = ground (
    arith,
    contains_key-insert (s.db.bind m.block_num) k (block_row s.db.bind m) s.db.tables.blocks,
  )
