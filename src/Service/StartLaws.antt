-- ===== src/Service/StartLaws.antt =====
-- What a start of the node starts of the archive.
use sub_archive.Prelude.{
  List, [], ◌∷◌, ◌++◌, none, Bool, true, false, not, ok, returned, if◌then◌else◌, ◌≡◌, ◌≢◌, refl,
  ◌∙◌, arith,
}
use std.Path.{subst}
use mathlib.Core.List.{append-nil}
use sub_archive.Service.Base.{bind-ok, unwrap, unwrap_ok, unwrap-ok}
use sub_archive.Service.Config.{ArchiveConfig, CliConfig}
use sub_archive.Service.Start.{
  Task, archiver, initializer, executor, comparer, telemetry_worker, network_worker, grandpa_voter,
  Started, Configuration, Parts, new_full_base, new_notifier, start, spawn, when_worker,
  first_number, voter, new_telemetry, endpoints, nothing_started,
}

module _ {B D : Type 0} where
  -- The tasks of the archive among those that run.
  unfoldable pub archive_tasks : List (Task B D) → List (Task B D)
  archive_tasks [] = []
  archive_tasks (archiver db ∷ rest) = archiver db ∷ archive_tasks rest
  archive_tasks (initializer db ∷ rest) = initializer db ∷ archive_tasks rest
  archive_tasks (executor b ∷ rest) = executor b ∷ archive_tasks rest
  archive_tasks (comparer db b ∷ rest) = comparer db b ∷ archive_tasks rest
  archive_tasks (telemetry_worker ∷ rest) = archive_tasks rest
  archive_tasks (network_worker ∷ rest) = archive_tasks rest
  archive_tasks (grandpa_voter ∷ rest) = archive_tasks rest

  archive_tasks-append :
      (xs ys : List (Task B D)) → archive_tasks (xs ++ ys) ≡ archive_tasks xs ++ archive_tasks ys
  unfolding archive_tasks
  archive_tasks-append [] ys = refl
  archive_tasks-append (archiver db ∷ xs) ys = rw (archive_tasks-append xs ys) refl
  archive_tasks-append (initializer db ∷ xs) ys = rw (archive_tasks-append xs ys) refl
  archive_tasks-append (executor b ∷ xs) ys = rw (archive_tasks-append xs ys) refl
  archive_tasks-append (comparer db b ∷ xs) ys = rw (archive_tasks-append xs ys) refl
  archive_tasks-append (telemetry_worker ∷ xs) ys = archive_tasks-append xs ys
  archive_tasks-append (network_worker ∷ xs) ys = archive_tasks-append xs ys
  archive_tasks-append (grandpa_voter ∷ xs) ys = archive_tasks-append xs ys

  -- The archive's tasks on the database `db`, the executor reading one backend and the comparer the
  -- other.
  abbrev pub IsArchiveOn : CliConfig → D → B → B → Started B D → Type 0
  IsArchiveOn cli db reading own s =
      (archive_tasks s.tasks
        ≡ archiver db ∷ (if cli.reset_force then [] else initializer db ∷ [])
          ++ executor reading ∷ comparer db own ∷ [])
      × (s.to_executor ≡ (if cli.reset_force then cli.block_num ∷ [] else []))

  begun-IsArchiveOn :
      (cli : CliConfig) (db : D) (reading own : B)
      → IsArchiveOn cli db reading own (
          spawn
            (executor reading ∷ comparer db own ∷ [])
            (first_number cli db (record { tasks = archiver db ∷ []; to_executor = [] })))
  unfolding archive_tasks
  begun-IsArchiveOn cli db reading own = ground arith

  pub more_tasks-IsArchiveOn :
      (cli : CliConfig) (db : D) (reading own : B) (s s' : Started B D)
      → archive_tasks s'.tasks ≡ archive_tasks s.tasks
      → s'.to_executor ≡ s.to_executor
      → IsArchiveOn cli db reading own s
      → IsArchiveOn cli db reading own s'
  more_tasks-IsArchiveOn cli db reading own s s' e e' h = (e ∙ h.0, e' ∙ h.1)

  worker-archives :
      (worker : Bool) (s : Started B D)
      → archive_tasks (spawn (network_worker ∷ []) (when_worker worker s)).tasks
        ≡ archive_tasks s.tasks
  unfolding archive_tasks
  worker-archives true s = ground (
    arith,
    archive_tasks-append (s.tasks ++ telemetry_worker ∷ []) (network_worker ∷ []),
    archive_tasks-append s.tasks (telemetry_worker ∷ []),
    append-nil (archive_tasks s.tasks),
  )
  worker-archives false s = ground (
    arith,
    archive_tasks-append s.tasks (network_worker ∷ []),
    append-nil (archive_tasks s.tasks),
  )

module _ {B C P D Client : Type 0} (parts : Parts B C P D Client) where
  voter-archives :
      (enabled : Bool) (client : Client) (s s' : Started B D)
      → voter parts enabled client s ≡ returned (ok s')
      → (archive_tasks s'.tasks ≡ archive_tasks s.tasks) × (s'.to_executor ≡ s.to_executor)
  unfolding archive_tasks
  voter-archives true client s s' e =
      let (_, (_, e')) = bind-ok (returned (parts.run_grandpa_voter client)) _ s' e in
      ground (
        arith,
        e',
        archive_tasks-append s.tasks (grandpa_voter ∷ []),
        append-nil (archive_tasks s.tasks),
      )
  voter-archives false client s s' e = ground (arith, e)

  module _ {R : Type 0} where
    pub start-IsArchiveOn :
        (config : ArchiveConfig P R) (own reading : B) (s : Started B D)
        → start parts config own reading ≡ returned (ok s)
        → (db : D) × ((config.kafka ≢ none) × IsArchiveOn config.cli db reading own s)
    unfolding start
    start-IsArchiveOn config own reading s e =
        let (kafka, (found, e')) = bind-ok (unwrap config.kafka) _ s e in
        let (db, (made, e'')) =
          bind-ok (unwrap_ok (new_notifier parts config.postgres kafka)) _ s e' in
        let same : spawn (executor reading ∷ comparer db own ∷ [])
              (first_number config.cli db (record { tasks = archiver db ∷ []; to_executor = [] }))
            ≡ s =
          ground (arith, e'') in
        (
          db,
          (
            λ missing. ground (arith, missing, unwrap-ok config.kafka kafka found),
            subst (IsArchiveOn config.cli db reading own) same
                (begun-IsArchiveOn config.cli db reading own),
          ),
        )

    -- The service adds tasks that are not the archive's to what its channels started.
    pub new_full_base-archives :
        (node : Configuration C) (config : ArchiveConfig P R) (own reading : B) (channels : Bool)
        (s : Started B D)
        → new_full_base parts node config own reading channels ≡ returned (ok s)
        → (before : Started B D) × (((if channels
                then start parts config own reading
                else returned (ok nothing_started))
              ≡ returned (ok before))
            × ((archive_tasks s.tasks ≡ archive_tasks before.tasks)
                × (s.to_executor ≡ before.to_executor)))
    unfolding new_full_base
    new_full_base-archives node config own reading channels s e =
        let (worker, (_, e1)) =
          bind-ok (returned (new_telemetry parts (endpoints node.telemetry_endpoints))) _ s e in
        let (client, (_, e2)) = bind-ok (parts.new_full_parts own) _ s e1 in
        let (before, (made, e3)) =
          bind-ok
            (if channels then start parts config own reading else returned (ok nothing_started)) _ s
            e2 in
        let (_, (_, e4)) = bind-ok (returned (parts.grandpa_block_import client)) _ s e3 in
        let (_, (_, e5)) = bind-ok (returned (parts.babe_block_import client)) _ s e4 in
        let (_, (_, e6)) = bind-ok (returned (parts.import_queue client)) _ s e5 in
        let (_, (_, e7)) = bind-ok (returned (parts.build_network client)) _ s e6 in
        let last = voter-archives (not node.disable_grandpa) client _ s e7 in
        (before, (made, (last.0 ∙ worker-archives worker before, ground (arith, last.1))))
