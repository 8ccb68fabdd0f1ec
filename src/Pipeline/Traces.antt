-- ===== src/Pipeline/Traces.antt =====
-- The rows of the database, as far as they come from messages to the archiver.
use sub_archive.Chain.{Bytes, BlockNumber}
use sub_archive.Prelude.{
  Option, All-map, List, [], ◌∷◌, some, ◌≡◌, ◌⊎◌, inl, inr, arith, refl, All, ◌∙◌,
}
use sub_archive.Prelude.Int.{ℤ, int_eq}
use sub_archive.Prelude.Assoc.{lookup, lookup-insert}
use sub_archive.Postgres.Model.{BlockModel}
use sub_archive.Postgres.Tables.{BlockRow}
use sub_archive.Postgres.Statements
use sub_archive.Postgres.Statements.{block_row}
use sub_archive.Postgres.Database
use sub_archive.Kafka.Payload.{BlockPayload}
use sub_archive.Kafka.Producer.{send}
use sub_archive.Notifier.Task.{Notifier}
use sub_archive.Notifier.Archive.{ArchiveSendMsg, archive as store}
use sub_archive.Notifier.Monotone.{archive-bind}

module _ {J : Type 0} where
  module _ (m : BlockModel J) (p : BlockPayload) (s : Notifier J) where
    -- The only row that the archiver writes is that of its message.
    archive-writes :
        (k : ℤ) (row : BlockRow J)
        → lookup k (store m p s).1.db.tables.blocks ≡ some row
        → (lookup k s.db.tables.blocks ≡ some row)
          ⊎ ((k ≡ s.db.bind m.block_num) × (row ≡ block_row s.db.bind m))
    unfolding store Database.check_if_metadata_exists Database.insert_block Database.insert_metadata
        Statements.insert_block Statements.insert_metadata send
    archive-writes k row h = ground (
      arith,
      lookup-insert (s.db.bind m.block_num) k (block_row s.db.bind m) s.db.tables.blocks,
      int_eq.eq_iff (s.db.bind m.block_num) k,
    )

  module _ (start : Notifier J) (Q : ArchiveSendMsg J → Type 1) where
    -- A row that was there at the start, or the row of a message that `Q` holds of.
    abbrev pub IsTracedRow : ℤ → BlockRow J → Type 1
    IsTracedRow k row =
        (lookup k start.db.tables.blocks ≡ some row)
        ⊎ ((msg : ArchiveSendMsg J) × Q msg
            × (k ≡ start.db.bind msg.0.block_num)
            × (row ≡ block_row start.db.bind msg.0))

    pub record IsTraced (queue : List (ArchiveSendMsg J)) (s : Notifier J) : Type 1 where
      pub bound : s.db.bind ≡ start.db.bind
      pub messages : All Q queue
      pub rows :
          (k : ℤ) (row : BlockRow J) → lookup k s.db.tables.blocks ≡ some row → IsTracedRow k row

    pub store-IsTraced :
        (m : BlockModel J) (p : BlockPayload) (rest queue : List (ArchiveSendMsg J))
        (s : Notifier J)
        → queue ≡ (m, p) ∷ rest
        → IsTraced queue s
        → IsTraced rest (store m p s).1
    store-IsTraced m p rest queue s q i =
        let messages : All Q ((m, p) ∷ rest) = rw q at i.messages in
        let bind : s.db.bind ≡ start.db.bind = i.bound in
        record {
          bound = archive-bind m p s ∙ i.bound;
          messages = messages.1;
          rows = λ k row h. elim (archive-writes m p s k row h) [
            | inl old ↦ i.rows k row old
            | inr (same, new) ↦ inr ((m, p), messages.0, rw bind at same, rw bind at new)
          ];
        }

    -- A dead archiver has dropped its queue.
    pub drop-IsTraced :
        (queue : List (ArchiveSendMsg J)) (s : Notifier J) → IsTraced queue s → IsTraced [] s
    drop-IsTraced queue s i = record { bound = i.bound; messages = tt; rows = i.rows }

    -- The rows do not depend on what the runtime answers.
    pub answers-IsTraced :
        (queue : List (ArchiveSendMsg J)) (s : Notifier J)
        (metadata_at : BlockNumber → Option Bytes)
        → IsTraced queue s
        → IsTraced queue (record s { metadata_at = metadata_at })
    answers-IsTraced queue s metadata_at i = record {
      bound = i.bound;
      messages = i.messages;
      rows = i.rows;
    }

    pub begins-IsTraced : IsTraced [] start
    begins-IsTraced = record { bound = refl; messages = tt; rows = λ k row h. inl h }

  -- What holds of the messages may be weakened.
  pub IsTraced-map :
      (start : Notifier J) {P Q : ArchiveSendMsg J → Type 1}
      → ((msg : ArchiveSendMsg J) → P msg → Q msg)
      → (queue : List (ArchiveSendMsg J)) (s : Notifier J) → IsTraced start P queue s
      → IsTraced start Q queue s
  IsTraced-map start f queue s i = record {
    bound = i.bound;
    messages = All-map f queue i.messages;
    rows = λ k row h. elim (i.rows k row h) [
      | inl old ↦ inl old
      | inr (msg, made, same, new) ↦ inr (msg, f msg made, same, new)
    ];
  }
