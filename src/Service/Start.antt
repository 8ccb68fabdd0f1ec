-- ===== src/Service/Start.antt =====
-- `new_full_base` of cli/src/service.rs: the tasks that the service starts, and what they are given.
use sub_archive.Prelude.{
  List, [], ◌∷◌, ◌++◌, Option, none, some, Bool, true, false, not, Result, ok, err, returned,
  if◌then◌else◌,
}
use sub_archive.Chain.{BlockNumber, ChainError}
use sub_archive.Kafka.Payload.{KafkaConfig}
use sub_archive.Service.Base.{ServiceError, Fallible, ◌>>=◌, pure, unwrap, unwrap_ok}
use sub_archive.Service.Config.{ArchiveConfig, CliConfig}

-- A task, with the backend that it reads, where it reads one. `D` is the database of the archiver.
pub data Task (B D : Type 0) : Type 0 where
  archiver : D → Task B D
  initializer : D → Task B D
  executor : B → Task B D
  comparer : D → B → Task B D
  telemetry_worker : Task B D
  network_worker : Task B D
  grandpa_voter : Task B D

-- What has been started: the tasks, in order, and the numbers sent to the executor.
pub record Started (B D : Type 0) : Type 0 where
  pub tasks : List (Task B D)
  pub to_executor : List BlockNumber

-- The configuration of the node that the service itself reads.
pub record Configuration (C : Type 0) : Type 0 where
  pub telemetry_endpoints : Option (List C)
  pub disable_grandpa : Bool

-- What is not of this file: the worker of the telemetry, the client of a backend, the producer and the
-- database of the archiver, and the calls of the consensus and the network, with the client.
pub record Parts (B C P D Client : Type 0) : Type 0 where
  pub telemetry : List C → Result ServiceError (Unit {0})
  pub new_full_parts : B → Fallible ServiceError Client
  pub kafka_producer : KafkaConfig → Fallible ChainError (Unit {0})
  pub postgres_db : P → Result ChainError D
  pub grandpa_block_import : Client → Result ServiceError (Unit {0})
  pub babe_block_import : Client → Result ServiceError (Unit {0})
  pub import_queue : Client → Result ServiceError (Unit {0})
  pub build_network : Client → Result ServiceError (Unit {0})
  pub run_grandpa_voter : Client → Result ServiceError (Unit {0})

-- The endpoints of the telemetry, if there are some: `filter(|x| !x.is_empty())`.
abbrev pub endpoints : {C : Type 0} → Option (List C) → Option (List C)
endpoints none = none
endpoints (some []) = none
endpoints (some (e ∷ rest)) = some (e ∷ rest)

module _ {B D : Type 0} where
  abbrev pub spawn : List (Task B D) → Started B D → Started B D
  spawn tasks s = record s { tasks = s.tasks ++ tasks }

  abbrev pub nothing_started : Started B D
  nothing_started = record { tasks = []; to_executor = [] }

  abbrev pub when_worker : Bool → Started B D → Started B D
  when_worker true s = spawn (telemetry_worker ∷ []) s
  when_worker false s = s

  -- The number from the configuration, or the task that looks for one in the database.
  abbrev pub first_number : CliConfig → D → Started B D → Started B D
  first_number cli db s =
      if cli.reset_force
      then record s { to_executor = s.to_executor ++ cli.block_num ∷ [] }
      else spawn (initializer db ∷ []) s

module _ {B C P D Client : Type 0} (parts : Parts B C P D Client) where
  -- `Notifier::new`: the producer first, then the database.
  unfoldable pub new_notifier : P → KafkaConfig → Fallible ChainError D
  new_notifier postgres kafka = do
    producer ← parts.kafka_producer kafka
    returned (parts.postgres_db postgres)

  -- `.map(..).transpose()?`; the answer is whether there is a worker.
  abbrev pub new_telemetry : Option (List C) → Result ServiceError Bool
  new_telemetry none = ok false
  new_telemetry (some es) = elim (parts.telemetry es) [ ok _ ↦ ok true | err e ↦ err e ]

  abbrev pub voter : Bool → Client → Started B D → Fallible ServiceError (Started B D)
  voter false client s = pure s
  voter true client s = do
    _ ← returned (parts.run_grandpa_voter client)
    pure (spawn (grandpa_voter ∷ []) s)

  module _ {R : Type 0} where
    -- The archive's tasks, where its channels are started.
    unfoldable pub start : ArchiveConfig P R → B → B → Fallible ServiceError (Started B D)
    start config backend readonly_backend = do
      kafka ← unwrap config.kafka
      db ← unwrap_ok (new_notifier config.postgres kafka)
      pure (
          spawn (executor readonly_backend ∷ comparer db backend ∷ [])
            (first_number config.cli db (record { tasks = archiver db ∷ []; to_executor = [] })))

    unfoldable pub new_full_base :
        Configuration C → ArchiveConfig P R → B → B → Bool → Fallible ServiceError (Started B D)
    new_full_base config archive_config backend readonly_backend start_channels = do
      worker ← returned (new_telemetry (endpoints config.telemetry_endpoints))
      client ← parts.new_full_parts backend
      channels ←
          if start_channels
          then start archive_config backend readonly_backend
          else pure nothing_started
      _ ← returned (parts.grandpa_block_import client)
      _ ← returned (parts.babe_block_import client)
      _ ← returned (parts.import_queue client)
      _ ← returned (parts.build_network client)
      voter (not config.disable_grandpa) client
          (spawn (network_worker ∷ []) (when_worker worker channels))
