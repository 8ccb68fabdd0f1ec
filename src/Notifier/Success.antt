-- ===== src/Notifier/Success.antt =====
-- `archive` when nothing fails.
use sub_archive.Prelude.{
  List, [], ◌∷◌, ◌++◌, some, Bool, true, ok, returned, ◌≡◌, ◌<◌, arith, if◌then◌else◌,
}
use mathlib.Core.List.{append_assoc}
use sub_archive.Prelude.Int.{pos, int_eq}
use sub_archive.Prelude.Assoc.{lookup, contains_key, lookup-insert}
use sub_archive.Chain.{Bytes}
use sub_archive.Postgres.Model.{BlockModel}
use sub_archive.Postgres.Statements
use sub_archive.Postgres.Statements.{block_row, metadata_row}
use sub_archive.Postgres.Database
use sub_archive.Kafka.Payload.{BlockPayload, block, metadata}
use sub_archive.Kafka.Producer.{KafkaRecord, send, record_of}
use sub_archive.Notifier.Task.{Notifier}
use sub_archive.Notifier.Archive.{archive, metadata_payload, metadata_model}

module _ {J : Type 0} where
  -- The server, the broker and the runtime answer, and the model fits the tables.
  pub record IsHealthy (s : Notifier J) (m : BlockModel J) : Type 0 where
    pub no_faults : s.db.faults ≡ []
    pub no_outages : s.producer.outages ≡ []
    pub bound_num : s.db.bind m.block_num ≡ pos m.block_num
    pub bound_spec : s.db.bind m.spec_version ≡ pos m.spec_version
    pub fits : m.block_num < 10000000

  module _ (m : BlockModel J) (p : BlockPayload) (s : Notifier J) (meta : Bytes) where
    abbrev known : Bool
    known = contains_key (s.db.bind m.spec_version) s.db.tables.metadatas

    -- what is published before the block
    abbrev announced : List KafkaRecord
    announced =
        if known then [] else record_of s.producer (metadata (metadata_payload m p meta)) ∷ []

    -- When nothing fails and the runtime has metadata, `archive` returns `Ok`, the block is stored
    -- under its number, its spec version has metadata, and the queue gains the block, after the
    -- metadata where the version was not known.
    pub archive_succeeds :
        IsHealthy s m
        → s.metadata_at m.block_num ≡ some meta
        → ((archive m p s).0 ≡ returned (ok tt))
          × (lookup (pos m.block_num) (archive m p s).1.db.tables.blocks
              ≡ some (block_row s.db.bind m))
          × (contains_key (pos m.spec_version) (archive m p s).1.db.tables.metadatas ≡ true)
          × ((archive m p s).1.producer.delivered
              ≡ s.producer.delivered ++ (announced ++ record_of s.producer (block p) ∷ []))
    unfolding archive Database.check_if_metadata_exists Database.insert_block
        Database.insert_metadata Statements.insert_block Statements.insert_metadata
        Statements.select_exists send
    archive_succeeds h e =
        let row = block_row s.db.bind m in
        let meta_row = metadata_row s.db.bind (metadata_model s m p meta) in
        ground (
          arith,
          lookup-insert (pos m.block_num) (pos m.block_num) row s.db.tables.blocks,
          lookup-insert (pos m.spec_version) (pos m.spec_version) meta_row s.db.tables.metadatas,
          append_assoc s.producer.delivered
              (record_of s.producer (metadata (metadata_payload m p meta)) ∷ [])
              (record_of s.producer (block p) ∷ []),
        )
