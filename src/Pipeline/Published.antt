-- ===== src/Pipeline/Published.antt =====
-- Where the records of the queue come from.
use sub_archive.Prelude.{
  Option, inl, inr, ℕ, List, [], ◌∷◌, ◌++◌, true, some, ◌≡◌, refl, All, All-append, All-map, ◌∙◌,
  ap, sym,
}
use mathlib.Core.List.{append-nil, append_assoc}
use sub_archive.Prelude.Int.{ℤ, int_eq}
use sub_archive.Prelude.Assoc.{contains_key}
use sub_archive.Chain.{Bytes, BlockNumber}
use sub_archive.Postgres.Model.{BlockModel}
use sub_archive.Kafka.Payload.{BlockPayload, Payload, block, metadata}
use sub_archive.Kafka.Producer.{KafkaProducer, KafkaRecord, record_of}
use sub_archive.Notifier.Task.{Notifier}
use sub_archive.Notifier.Archive.{ArchiveSendMsg, metadata_payload, archive as store}
use sub_archive.Notifier.Monotone.{archive-keeps}
use sub_archive.Notifier.Publishes.{
  nothing, metadata_alone, block_alone, both, block_record, metadata_record, archive-Publishes,
  archive-Framed,
}
use sub_archive.Pipeline.System.{
  System, Step, import, execute, execute_panic, compare_next, stored, failed, store_panic, init,
  Reach, here, next,
}
use sub_archive.Pipeline.Turns.{newest, All-heard, Ever, Ever-now}
use sub_archive.Pipeline.Provenance.{IsExecuted, IsExecuted-earlier, archive-IsExecuted}

record_of-same :
    (p q : KafkaProducer)
    → p.config ≡ q.config
    → p.to_json ≡ q.to_json
    → (x : Payload) → record_of p x ≡ record_of q x
record_of-same p q config to_json x =
    λ i. record_of (record p { config = config i; to_json = to_json i }) x

module _ {J : Type 0} (start : Notifier J) (Q : ArchiveSendMsg J → Type 1)
    (M : BlockNumber → Bytes → Type 0) where
  -- A record of a block that `Q` holds of, which is in the database, or of metadata that `M` holds of with
  -- the number of such a block.
  pub data IsJustified (s : Notifier J) (r : KafkaRecord) : Type 1 where
    of_block :
        (msg : ArchiveSendMsg J)
        → Q msg
        → r ≡ record_of start.producer (block msg.1)
        → contains_key (start.db.bind msg.0.block_num) s.db.tables.blocks ≡ true
        → IsJustified s r
    of_metadata :
        (msg : ArchiveSendMsg J) (meta : Bytes)
        → Q msg
        → M msg.0.block_num meta
        → r ≡ record_of start.producer (metadata (metadata_payload msg.0 msg.1 meta))
        → IsJustified s r

  record IsLogged (queue : List (ArchiveSendMsg J)) (s : Notifier J) : Type 1 where
    bound : s.db.bind ≡ start.db.bind
    config : s.producer.config ≡ start.producer.config
    to_json : s.producer.to_json ≡ start.producer.to_json
    runtime : (n : BlockNumber) (meta : Bytes) → s.metadata_at n ≡ some meta → M n meta
    messages : All Q queue
    added : List KafkaRecord
    log : s.producer.delivered ≡ start.producer.delivered ++ added
    published : All (IsJustified s) added

  module _ (m : BlockModel J) (p : BlockPayload) (rest queue : List (ArchiveSendMsg J))
      (s : Notifier J) (q : queue ≡ (m, p) ∷ rest) (i : IsLogged queue s) where
    messages : All Q ((m, p) ∷ rest)
    messages = rw q at i.messages

    abbrev after : Notifier J
    after = (store m p s).1

    keeps-IsJustified : (r : KafkaRecord) → IsJustified s r → IsJustified after r
    keeps-IsJustified r (of_block msg made same there) =
        of_block msg made same (archive-keeps m p s (start.db.bind msg.0.block_num) there)
    keeps-IsJustified r (of_metadata msg meta made answered same) =
        of_metadata msg meta made answered same

    of_this_block :
        contains_key (s.db.bind m.block_num) after.db.tables.blocks ≡ true
        → IsJustified after (block_record m p s)
    of_this_block there =
        let bind : s.db.bind ≡ start.db.bind = i.bound in
        let number : s.db.bind m.block_num ≡ start.db.bind m.block_num =
          ap (λ (f : ℕ → ℤ). f m.block_num) bind in
        of_block (m, p) messages.0
          (record_of-same s.producer start.producer i.config i.to_json (block p))
          (ap (λ (k : ℤ). contains_key k after.db.tables.blocks) (sym number) ∙ there)

    of_this_metadata :
        (meta : Bytes)
        → s.metadata_at m.block_num ≡ some meta
        → IsJustified after (metadata_record m p s meta)
    of_this_metadata meta answered =
        of_metadata (m, p) meta messages.0 (i.runtime m.block_num meta answered)
          (record_of-same s.producer start.producer i.config i.to_json
            (metadata (metadata_payload m p meta)))

    -- The log with some more records, all of them published.
    logged :
        (more : List KafkaRecord)
        → after.producer.delivered ≡ s.producer.delivered ++ more
        → All (IsJustified after) more
        → IsLogged rest after
    logged more grown new =
        let framed = archive-Framed m p s in
        let log : s.producer.delivered ≡ start.producer.delivered ++ i.added = i.log in
        record {
          bound = framed.bound ∙ i.bound;
          config = framed.config ∙ i.config;
          to_json = framed.to_json ∙ i.to_json;
          runtime = λ n meta e.
              let same : after.metadata_at ≡ s.metadata_at = framed.runtime in
              i.runtime n meta (rw same at e);
          messages = messages.1;
          added = i.added ++ more;
          log =
              grown
              ∙ ap (λ (l : List KafkaRecord). l ++ more) log
              ∙ append_assoc start.producer.delivered i.added more;
          published =
              All-append (IsJustified after) i.added more
                (All-map keeps-IsJustified i.added i.published) new;
        }

    store-IsLogged : IsLogged rest after
    store-IsLogged = elim (archive-Publishes m p s) [
      | nothing same ↦ logged [] (same ∙ sym (append-nil s.producer.delivered)) tt
      | metadata_alone meta answered grown ↦
          logged (metadata_record m p s meta ∷ []) grown (of_this_metadata meta answered, tt)
      | block_alone grown there ↦ logged (block_record m p s ∷ []) grown (of_this_block there, tt)
      | both meta answered grown there ↦
          logged (metadata_record m p s meta ∷ block_record m p s ∷ [])
            (grown
              ∙ append_assoc s.producer.delivered (metadata_record m p s meta ∷ [])
                  (block_record m p s ∷ []))
            (of_this_metadata meta answered, (of_this_block there, tt))
    ]

  begins-IsLogged :
      ((n : BlockNumber) (meta : Bytes) → start.metadata_at n ≡ some meta → M n meta)
      → IsLogged [] start
  begins-IsLogged runtime = record {
    bound = refl;
    config = refl;
    to_json = refl;
    runtime = runtime;
    messages = tt;
    added = [];
    log = sym (append-nil start.producer.delivered);
    published = tt;
  }

  -- A dead archiver has dropped its queue.
  drop-IsLogged :
      (queue : List (ArchiveSendMsg J)) (s : Notifier J) → IsLogged queue s → IsLogged [] s
  drop-IsLogged queue s i = record {
    bound = i.bound;
    config = i.config;
    to_json = i.to_json;
    runtime = i.runtime;
    messages = tt;
    added = i.added;
    log = i.log;
    published = i.published;
  }

  -- The runtime may come to answer otherwise.
  module _ (queue : List (ArchiveSendMsg J)) (s : Notifier J)
      (metadata_at : BlockNumber → Option Bytes)
      (answers : (n : BlockNumber) (meta : Bytes) → metadata_at n ≡ some meta → M n meta) where
    abbrev answering : Notifier J
    answering = record s { metadata_at = metadata_at }

    answers-IsJustified : (r : KafkaRecord) → IsJustified s r → IsJustified answering r
    answers-IsJustified r (of_block msg made same there) = of_block msg made same there
    answers-IsJustified r (of_metadata msg meta made answered same) =
        of_metadata msg meta made answered same

    answers-IsLogged : IsLogged queue s → IsLogged queue answering
    answers-IsLogged i = record {
      bound = i.bound;
      config = i.config;
      to_json = i.to_json;
      runtime = answers;
      messages = i.messages;
      added = i.added;
      log = i.log;
      published = All-map answers-IsJustified i.added i.published;
    }

-- What holds of the messages and of the metadata may be weakened.
module _ {J : Type 0} (start : Notifier J) {P Q : ArchiveSendMsg J → Type 1}
    {M N : BlockNumber → Bytes → Type 0}
    (g : (n : BlockNumber) (meta : Bytes) → M n meta → N n meta)
    (f : (msg : ArchiveSendMsg J) → P msg → Q msg) (s : Notifier J) where
  IsJustified-map : (r : KafkaRecord) → IsJustified start P M s r → IsJustified start Q N s r
  IsJustified-map r (of_block msg made same there) = of_block msg (f msg made) same there
  IsJustified-map r (of_metadata msg meta made answered same) =
      of_metadata msg meta (f msg made) (g msg.0.block_num meta answered) same

  IsLogged-map :
      (queue : List (ArchiveSendMsg J)) → IsLogged start P M queue s → IsLogged start Q N queue s
  IsLogged-map queue i = record {
    bound = i.bound;
    config = i.config;
    to_json = i.to_json;
    runtime = λ n meta e. g n meta (i.runtime n meta e);
    messages = All-map f queue i.messages;
    added = i.added;
    log = i.log;
    published = All-map IsJustified-map i.added i.published;
  }

-- In some state of the run, the runtime answers with the metadata for the block.
abbrev pub HasAnswered :
    {J : Type 0} {begun t : System J} → Reach begun t → BlockNumber → Bytes → Type 0
HasAnswered run n meta = Ever (λ u. u.notifier.metadata_at n ≡ some meta) run

module _ {J : Type 0} (start : Notifier J) where
  module _ {begun t : System J} (run : Reach begun t) where
    answers_now :
        (n : BlockNumber) (meta : Bytes)
        → t.notifier.metadata_at n ≡ some meta
        → HasAnswered run n meta
    answers_now n meta e = Ever-now (λ u. u.notifier.metadata_at n ≡ some meta) run e

    abbrev Logged : {u : System J} → Step t u → System J → Type 1
    Logged st v =
        IsLogged start (IsExecuted (next run st)) (HasAnswered (next run st)) v.archiver_queue
          v.notifier

    Step-IsLogged : {u : System J} (st : Step t u) → Logged st t → Logged st u
    Step-IsLogged (import best metadata_at) i =
        answers-IsLogged start _ _ t.archiver_queue t.notifier metadata_at (λ n meta e. inr e) i
    Step-IsLogged (execute S x n rest a alive q e) i = record {
      bound = i.bound;
      config = i.config;
      to_json = i.to_json;
      runtime = i.runtime;
      messages =
          All-heard _ t.archiver_alive t.archiver_queue a.to_archiver i.messages
            (archive-IsExecuted x n t.versions a e _ (newest run rest a alive q e));
      added = i.added;
      log = i.log;
      published = i.published;
    }
    Step-IsLogged (execute_panic S x n rest a alive q e) i = i
    Step-IsLogged (compare_next n rest q) i = i
    Step-IsLogged (stored m p rest alive q e) i =
        store-IsLogged start _ _ m p rest t.archiver_queue t.notifier q i
    Step-IsLogged (failed m p rest e alive q r) i =
        store-IsLogged start _ _ m p rest t.archiver_queue t.notifier q i
    Step-IsLogged (store_panic m p rest alive q e) i =
        drop-IsLogged start _ _ rest _
          (store-IsLogged start _ _ m p rest t.archiver_queue t.notifier q i)

  Reach-IsLogged :
      {first best : BlockNumber} {t : System J} (run : Reach (init first best start) t)
      → IsLogged start (IsExecuted run) (HasAnswered run) t.archiver_queue t.notifier
  Reach-IsLogged here = begins-IsLogged start _ _ (λ n meta e. e)
  Reach-IsLogged (next {t} run st) = Step-IsLogged run st (
      IsLogged-map start (λ n meta e. inl e) (IsExecuted-earlier run st) t.notifier t.archiver_queue
        (Reach-IsLogged run))

  -- In every reachable state, what was added to the queue's log is, record by record, a block that a turn
  -- of the executor sent and that the database has, or the metadata that the runtime answered for
  -- such a block in some state of the run; and what was there stays.
  pub published_records_origin :
      {first best : BlockNumber} {t : System J} (run : Reach (init first best start) t)
      → (added : List KafkaRecord) × (t.notifier.producer.delivered
          ≡ start.producer.delivered ++ added)
        × All (IsJustified start (IsExecuted run) (HasAnswered run) t.notifier) added
  published_records_origin run = let i = Reach-IsLogged run in (i.added, i.log, i.published)
