-- ===== src/Notifier/Failure.antt =====
-- What `archive` leaves behind when it fails, and what a retry then does.
use sub_archive.Prelude.{
  List, [], ◌∷◌, ◌++◌, Option, none, some, false, ok, err, returned, ◌≡◌, arith, ◌≢◌, ◌⊎◌,
}
use sub_archive.Prelude.Int.{pos, int_eq}
use sub_archive.Prelude.Assoc.{lookup, contains_key, lookup-insert}
use sub_archive.Chain.{Bytes, storage}
use sub_archive.Postgres.Model.{BlockModel}
use sub_archive.Postgres.Statements
use sub_archive.Postgres.Statements.{block_row, metadata_row}
use sub_archive.Postgres.Database
use sub_archive.Kafka.Payload.{BlockPayload, block, metadata}
use sub_archive.Kafka.Producer.{KafkaError, KafkaRecord, send, record_of}
use sub_archive.Notifier.Task.{Notifier}
use sub_archive.Notifier.Archive.{archive, metadata_payload, metadata_model}
use sub_archive.Notifier.Success.{IsHealthy}

module _ {J : Type 0} (m : BlockModel J) (p : BlockPayload) (s : Notifier J) where
  abbrev after : Notifier J
  after = (archive m p s).1

  -- the metadata record that `archive` may publish first
  abbrev metadata_records : Option Bytes → List KafkaRecord
  metadata_records none = []
  metadata_records (some meta) = record_of s.producer (metadata (metadata_payload m p meta)) ∷ []

  -- A block is published only if it is stored: unless `archive` returns `Ok`, the queue gains at
  -- most the metadata of the block's version.
  pub archive_unpublished :
      (archive m p s).0 ≢ returned (ok tt)
      → (after.producer.delivered ≡ s.producer.delivered)
        ⊎ (after.producer.delivered
            ≡ s.producer.delivered ++ metadata_records (s.metadata_at m.block_num))
  unfolding archive Database.check_if_metadata_exists Database.insert_block Database.insert_metadata
      Statements.insert_block Statements.insert_metadata Statements.select_exists send
  archive_unpublished h = ground arith

  -- If `archive` returns `Ok`, the block is stored with every column of its model.
  pub archive_stored :
      (archive m p s).0 ≡ returned (ok tt)
      → lookup (s.db.bind m.block_num) after.db.tables.blocks ≡ some (block_row s.db.bind m)
  unfolding archive Database.check_if_metadata_exists Database.insert_block Database.insert_metadata
      Statements.insert_block Statements.insert_metadata Statements.select_exists send
  archive_stored h = ground (
    arith,
    lookup-insert (s.db.bind m.block_num) (s.db.bind m.block_num) (block_row s.db.bind m)
        s.db.tables.blocks,
  )

  -- If the database takes the metadata and the queue then fails, `archive` fails, and its retry
  -- publishes the block alone: the metadata is never published.
  pub metadata_unpublished :
      (meta : Bytes) (e : KafkaError)
      → IsHealthy (record s { producer = record s.producer { outages = [] } }) m
      → s.metadata_at m.block_num ≡ some meta
      → contains_key (s.db.bind m.spec_version) s.db.tables.metadatas ≡ false
      → s.producer.outages ≡ some e ∷ []
      → ((archive m p s).0 ≡ returned (err storage))
        × ((archive m p after).0 ≡ returned (ok tt))
        × ((archive m p after).1.producer.delivered
            ≡ s.producer.delivered ++ record_of s.producer (block p) ∷ [])
  unfolding archive Database.check_if_metadata_exists Database.insert_block Database.insert_metadata
      Statements.insert_block Statements.insert_metadata Statements.select_exists send
  metadata_unpublished meta e h q new o =
      let meta_row = metadata_row s.db.bind (metadata_model s m p meta) in
      ground (
        arith,
        lookup-insert (pos m.spec_version) (pos m.spec_version) meta_row s.db.tables.metadatas,
      )
