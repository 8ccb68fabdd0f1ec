-- ===== src/Notifier/Archive.antt =====
-- `Notifier::archive` and `Notifier::run` of archive/notifier/src/notifier.rs.
use sub_archive.Prelude.{
  List, [], ◌∷◌, Option, none, some, Bool, true, false, ok, Outcome, returned, panicked,
}
use sub_archive.Chain.{Bytes, storage, backend}
use sub_archive.Postgres.Model.{BlockModel, MetadataModel}
use sub_archive.Postgres.Database
use sub_archive.Kafka.Payload.{BlockPayload, MetadataPayload, block, metadata}
use sub_archive.Kafka.Producer.{send}
use sub_archive.Notifier.Task.{Notifier, Task, on_db, on_kafka, ◌>>=◌}

-- `type ArchiveSendMsg<Block> = (BlockModel, BlockPayload<Block>)`
abbrev pub ArchiveSendMsg : Type 0 → Type 0
ArchiveSendMsg J = BlockModel J × BlockPayload

module _ {J : Type 0} where
  abbrev pub metadata_payload : BlockModel J → BlockPayload → Bytes → MetadataPayload
  metadata_payload model payload meta = record {
    spec_version = model.spec_version;
    block_num = payload.block_num;
    block_hash = payload.block_hash;
    meta = meta;
  }

  abbrev pub metadata_model : Notifier J → BlockModel J → BlockPayload → Bytes → MetadataModel
  metadata_model s model payload meta = record {
    spec_version = model.spec_version;
    block_num = model.block_num;
    block_hash = s.hash_bytes payload.block_hash;
    meta = meta;
  }

  -- save block to db and mq
  save_block : BlockModel J → BlockPayload → Task J (Unit {0})
  save_block model payload = do
    _ ← on_db storage (Database.insert_block model)
    on_kafka storage (send (block payload))

  write_metadata : BlockModel J → BlockPayload → Bytes → Task J (Unit {0})
  write_metadata model payload meta = do
    _ ← λ s. on_db storage (Database.insert_metadata (metadata_model s model payload meta)) s
    on_kafka storage (send (metadata (metadata_payload model payload meta)))

  fetched : BlockModel J → BlockPayload → Option Bytes → Task J (Unit {0})
  unfolding write_metadata
  fetched model payload none s = (panicked, s)
  fetched model payload (some meta) s = write_metadata model payload meta s

  -- save metadata only when query metadata by version don't exist
  save_metadata : BlockModel J → BlockPayload → Bool → Task J (Unit {0})
  unfolding fetched
  save_metadata model payload true s = (returned (ok tt), s)
  save_metadata model payload false s = fetched model payload (s.metadata_at model.block_num) s

  unfoldable pub archive : BlockModel J → BlockPayload → Task J (Unit {0})
  unfolding save_metadata save_block
  archive model payload = do
    exist ← on_db backend (Database.check_if_metadata_exists model.spec_version)
    _ ← save_metadata model payload exist
    save_block model payload

  -- The loop over the channel `archive_recv`, given what it will receive before it closes. An error
  -- of `archive` is dropped; a panic ends the task.
  unfoldable pub run : List (ArchiveSendMsg J) → Notifier J → Outcome (Unit {0}) × Notifier J
  run [] s = (returned tt, s)
  run ((model, payload) ∷ rest) s =
      let (r, s') = archive model payload s in
      elim r [ returned _ ↦ run rest s' | panicked ↦ (panicked, s') ]
