-- ===== src/Notifier/Task.antt =====
-- The state of the archiver task, and actions on it that may fail or panic. What an action has done
-- before it fails or panics stays done.
use sub_archive.Prelude.{Option, Result, ok, err, Outcome, returned, panicked}
use sub_archive.Chain.{Bytes, Hash, BlockNumber, ChainError}
use sub_archive.Postgres.Database.{PostgresDb, Db}
use sub_archive.Kafka.Producer.{KafkaError, KafkaProducer}

pub record Notifier (J : Type 0) : Type 0 where
  pub db : PostgresDb J
  pub producer : KafkaProducer
  -- `client.runtime_api().metadata(&BlockId::Number(n))`; `none` is its error
  pub metadata_at : BlockNumber → Option Bytes
  -- `hash.as_ref().to_vec()`
  pub hash_bytes : Hash → Bytes

abbrev pub Task : Type 0 → Type 0 → Type 0
Task J A = Notifier J → Outcome (Result ChainError A) × Notifier J

module _ {J A B : Type 0} where
  abbrev continue : Outcome (Result ChainError A) → (A → Task J B) → Task J B
  continue (returned (ok a)) f s = f a s
  continue (returned (err e)) f s = (returned (err e), s)
  continue panicked f s = (panicked, s)

  infixl 5 ◌>>=◌
  abbrev pub ◌>>=◌ : Task J A → (A → Task J B) → Task J B
  ◌>>=◌ m f s = let (r, s') = m s in continue r f s'

abbrev pub returned_or : {E A : Type 0} → ChainError → Result E A → Outcome (Result ChainError A)
returned_or e (ok a) = returned (ok a)
returned_or e (err _) = returned (err e)

module _ {J A : Type 0} where
  -- `.await.map_err(|_| e)?` on a call of the database
  abbrev pub on_db : ChainError → Db J A → Task J A
  on_db e call s = let (r, db') = call s.db in (returned_or e r, record s { db = db' })

  -- `.await.map_err(|_| e)?` on a call of the producer
  abbrev pub on_kafka :
      ChainError → (KafkaProducer → Result KafkaError A × KafkaProducer) → Task J A
  on_kafka e call s = let (r, p') = call s.producer in (returned_or e r, record s { producer = p' })
