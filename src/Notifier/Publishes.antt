-- ===== src/Notifier/Publishes.antt =====
-- What `archive` publishes, and what is then in the database.
use sub_archive.Prelude.{[], ◌∷◌, ◌++◌, none, some, true, ◌≡◌, ◌⊎◌, inl, inr, arith, Option-cases}
use sub_archive.Prelude.Int.{int_eq}
use sub_archive.Prelude.Assoc.{contains_key, contains_key-insert}
use sub_archive.Chain.{Bytes}
use sub_archive.Postgres.Model.{BlockModel}
use sub_archive.Postgres.Statements
use sub_archive.Postgres.Statements.{block_row, metadata_row}
use sub_archive.Postgres.Database
use sub_archive.Kafka.Payload.{BlockPayload, block, metadata}
use sub_archive.Kafka.Producer.{KafkaRecord, send, record_of}
use sub_archive.Notifier.Task.{Notifier}
use sub_archive.Notifier.Archive.{archive, metadata_payload}

module _ {J : Type 0} (m : BlockModel J) (p : BlockPayload) (s : Notifier J) where
  abbrev after : Notifier J
  after = (archive m p s).1

  abbrev pub block_record : KafkaRecord
  block_record = record_of s.producer (block p)

  abbrev pub metadata_record : Bytes → KafkaRecord
  metadata_record meta = record_of s.producer (metadata (metadata_payload m p meta))

  abbrev Stored : Type 0
  Stored = contains_key (s.db.bind m.block_num) after.db.tables.blocks ≡ true

  -- What a call adds to the queue's log: nothing, or the metadata, which is what
  -- the runtime answers, or the block, which is then in the database, or the metadata and then the block.
  pub data Publishes : Type 0 where
    nothing : after.producer.delivered ≡ s.producer.delivered → Publishes
    metadata_alone :
        (meta : Bytes)
        → s.metadata_at m.block_num ≡ some meta
        → after.producer.delivered ≡ s.producer.delivered ++ metadata_record meta ∷ []
        → Publishes
    block_alone :
        after.producer.delivered ≡ s.producer.delivered ++ block_record ∷ [] → Stored → Publishes
    both :
        (meta : Bytes)
        → s.metadata_at m.block_num ≡ some meta
        → after.producer.delivered
          ≡ (s.producer.delivered ++ metadata_record meta ∷ []) ++ block_record ∷ []
        → Stored
        → Publishes

  publishes-cases :
      (meta : Bytes)
      → s.metadata_at m.block_num ≡ some meta
      → (after.producer.delivered ≡ s.producer.delivered)
        ⊎ ((after.producer.delivered ≡ s.producer.delivered ++ metadata_record meta ∷ []))
        ⊎ ((after.producer.delivered ≡ s.producer.delivered ++ block_record ∷ []) × Stored)
        ⊎ ((after.producer.delivered
              ≡ (s.producer.delivered ++ metadata_record meta ∷ []) ++ block_record ∷ [])
            × Stored)
  unfolding archive Database.check_if_metadata_exists Database.insert_block Database.insert_metadata
      Statements.insert_block Statements.insert_metadata Statements.select_exists send
  publishes-cases meta e = ground (
    arith,
    e,
    contains_key-insert (s.db.bind m.block_num) (s.db.bind m.block_num) (block_row s.db.bind m)
        s.db.tables.blocks,
  )

  publishes_unread-cases :
      s.metadata_at m.block_num ≡ none
      → (after.producer.delivered ≡ s.producer.delivered)
        ⊎ ((after.producer.delivered ≡ s.producer.delivered ++ block_record ∷ []) × Stored)
  unfolding archive Database.check_if_metadata_exists Database.insert_block Database.insert_metadata
      Statements.insert_block Statements.insert_metadata Statements.select_exists send
  publishes_unread-cases e = ground (
    arith,
    e,
    contains_key-insert (s.db.bind m.block_num) (s.db.bind m.block_num) (block_row s.db.bind m)
        s.db.tables.blocks,
  )

  pub archive-Publishes : Publishes
  archive-Publishes = elim (Option-cases (s.metadata_at m.block_num)) [
    | inl unread ↦ elim (publishes_unread-cases unread) [
      | inl same ↦ nothing same
      | inr (added, st) ↦ block_alone added st
    ]
    | inr (meta, e) ↦ elim (publishes-cases meta e) [
      | inl same ↦ nothing same
      | inr (inl added) ↦ metadata_alone meta e added
      | inr (inr (inl (added, st))) ↦ block_alone added st
      | inr (inr (inr (added, st))) ↦ both meta e added st
    ]
  ]

  -- The parts that a call leaves alone.
  pub record Framed : Type 0 where
    pub bound : after.db.bind ≡ s.db.bind
    pub config : after.producer.config ≡ s.producer.config
    pub to_json : after.producer.to_json ≡ s.producer.to_json
    pub runtime : after.metadata_at ≡ s.metadata_at

  pub archive-Framed : Framed
  unfolding archive Database.check_if_metadata_exists Database.insert_block Database.insert_metadata
      send
  archive-Framed = record {
    bound = ground arith;
    config = ground arith;
    to_json = ground arith;
    runtime = ground arith;
  }
