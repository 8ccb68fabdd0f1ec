-- ===== src/Service/CommandLaws.antt =====
-- Which backends a start opens, and which of them the archive's tasks read.
use sub_archive.Prelude.{
  [], none, Bool, true, false, ok, returned, ◌≡◌, ◌≢◌, ◌⊎◌, inl, inr, refl, ap, ◌∙◌, arith,
  Result-cases,
}
use sub_archive.Service.Base.{bind-ok}
use sub_archive.Service.Config.{
  Strategy, local_backend, readonly_backend, remote_db, rpc, ArchiveConfig,
}
use sub_archive.Service.Start.{Started, nothing_started}
use sub_archive.Service.StartLaws.{
  archive_tasks, IsArchiveOn, more_tasks-IsArchiveOn, start-IsArchiveOn, new_full_base-archives,
}
use sub_archive.Service.Command.{
  World, NodeConfig, main, secondary, settings, archive_setup, canonicalization_delay, by_strategy,
  do_work, gen_genesis_storages,
}

still_nothing :
    {B D : Type 0} (before s : Started B D)
    → before ≡ nothing_started
    → archive_tasks s.tasks ≡ archive_tasks before.tasks
    → s.to_executor ≡ before.to_executor
    → (archive_tasks s.tasks ≡ []) × (s.to_executor ≡ [])
unfolding archive_tasks
still_nothing {B} {D} before s idle tasks sent = (
  tasks ∙ ap (λ (t : Started B D). archive_tasks t.tasks) idle,
  sent ∙ ap (λ (t : Started B D). t.to_executor) idle,
)

module _ {B C M S R P D Spec Storage Client : Type 0}
    (w : World B C M S R P D Spec Storage Client) where
  -- The backend that the executor reads: the node's own one, or, for the strategy that says so, one on a
  -- RocksDB that is opened as a secondary.
  pub data IsReading (config : NodeConfig C M) (rocksdb : R) (own : B) (strategy : Strategy)
      (reading : B) : Type 0 where
    own_backend :
        strategy ≢ readonly_backend → reading ≡ own → IsReading config rocksdb own strategy reading
    secondary_backend :
        (db : S)
        → strategy ≡ readonly_backend
        → w.open_secondary rocksdb ≡ ok db
        → w.new_backend (settings config (secondary db)) canonicalization_delay ≡ ok reading
        → IsReading config rocksdb own strategy reading

  by_strategy-cases :
      (strategy : Strategy) (config : NodeConfig C M) (rocksdb : R) (own reading : B)
      (channels : Bool)
      → by_strategy w strategy config rocksdb own ≡ ok (reading, channels)
      → ((strategy ≡ Strategy.none) × (channels ≡ false))
        ⊎ ((channels ≡ true) × IsReading config rocksdb own strategy reading)
  unfolding by_strategy
  by_strategy-cases readonly_backend config rocksdb own reading channels e =
      elim (Result-cases (w.open_secondary rocksdb)) [
        | inr (x, q) ↦ absurd (ground (arith, q, e))
        | inl (db, q) ↦
            elim (Result-cases
              (w.new_backend (settings config (secondary db)) canonicalization_delay)) [
                | inr (x, q') ↦ absurd (ground (arith, q, q', e))
                | inl (b, q') ↦ inr (
                  ground (arith, q, q', e),
                  secondary_backend db refl q (ground (arith, q, q', e)),
                )
              ]
      ]
  by_strategy-cases Strategy.none config rocksdb own reading channels e =
      inl (refl, ground (arith, e))
  by_strategy-cases local_backend config rocksdb own reading channels e =
      inr (ground (arith, e), own_backend (λ x. ground (arith, x)) (ground (arith, e)))
  by_strategy-cases remote_db config rocksdb own reading channels e =
      inr (ground (arith, e), own_backend (λ x. ground (arith, x)) (ground (arith, e)))
  by_strategy-cases rpc config rocksdb own reading channels e =
      inr (ground (arith, e), own_backend (λ x. ground (arith, x)) (ground (arith, e)))

  -- A start that succeeds without syncing, the strategy `None`, starts no task of the archive and sends
  -- the executor no number. Any other start that succeeds was given a configuration of the queue; it has
  -- started the archiver, the executor, the comparer, and the initializer unless a first number is
  -- forced, which is then sent to the executor. The comparer reads the node's own backend, which
  -- keeps every state; so does the executor, unless the strategy is `ReadonlyBackend`: then it reads one
  -- on the RocksDB opened as a secondary.
  pub do_work-starts :
      (node : NodeConfig C M) (config : ArchiveConfig P R) (s : Started B D)
      → do_work w node config ≡ returned (ok s)
      → ((config.cli.strategy ≡ Strategy.none)
          × (archive_tasks s.tasks ≡ [])
          × (s.to_executor ≡ []))
        ⊎ ((config.kafka ≢ none)
            × ((own : B) × ((reading : B) × ((db : D) × ((w.new_backend
                          (settings (archive_setup node) (main node.database))
                          canonicalization_delay
                        ≡ ok own)
                      × IsReading
                          (archive_setup node)
                          config.rocksdb
                          own
                          config.cli.strategy
                          reading
                      × IsArchiveOn config.cli db reading own s)))))
  unfolding do_work archive_tasks
  do_work-starts node config s e =
      let set_up = archive_setup node in
      let (genesis, (_, e1)) = bind-ok (gen_genesis_storages w) _ s e in
      let (own, (opened, e2)) =
        bind-ok
          (returned (w.new_backend (settings set_up (main node.database)) canonicalization_delay)) _
          s e1 in
      let ((reading, channels), (chosen, e3)) =
        bind-ok (returned (by_strategy w config.cli.strategy set_up config.rocksdb own)) _ s e2 in
      let (before, (made, (tasks, sent))) =
        new_full_base-archives (w.parts config.cli.runtime set_up genesis) set_up.service config own
          reading channels s e3 in
      elim (by_strategy-cases config.cli.strategy set_up config.rocksdb own reading channels
        (ground (arith, chosen))) [
          | inl (quiet, off) ↦
              let idle : before ≡ nothing_started = ground (arith, made, off) in
              let (none_started, none_sent) = still_nothing before s idle tasks sent in
              inl (quiet, none_started, none_sent)
          | inr (on, reads) ↦
              let (db, (kafka, h)) =
                start-IsArchiveOn (w.parts config.cli.runtime set_up genesis) config own reading
                  before (ground (arith, made, on)) in
              inr (
                kafka,
                (
                  own,
                  (
                    reading,
                    (
                      db,
                      (
                        ground (arith, opened),
                        reads,
                        more_tasks-IsArchiveOn config.cli db reading own before s tasks sent h,
                      ),
                    ),
                  ),
                ),
              )
        ]
