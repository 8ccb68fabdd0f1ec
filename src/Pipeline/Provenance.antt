-- ===== src/Pipeline/Provenance.antt =====
-- Where the rows of the database come from.
use sub_archive.Prelude.{some, returned, ◌≡◌, ◌⊎◌, inl, inr, refl, All}
use sub_archive.Prelude.Int.{ℤ, int_eq}
use sub_archive.Prelude.Assoc.{lookup}
use sub_archive.Chain.{BlockNumber, SignedBlock}
use sub_archive.Postgres.Tables.{BlockRow}
use sub_archive.Postgres.Statements.{block_row}
use sub_archive.Notifier.Task.{Notifier}
use sub_archive.Notifier.Archive.{ArchiveSendMsg}
use sub_archive.Executor.Block.{BlockExecutor, StorageChanges}
use sub_archive.Executor.VersionCache.{Versions}
use sub_archive.Executor.Archive.{Sent, archive}
use sub_archive.Executor.Changes.{Carries, storages_map-Carries}
use sub_archive.Executor.Execution.{IsExecution, executes-IsExecution}
use sub_archive.Executor.Sends.{IsAbout}
use sub_archive.Pipeline.System.{
  System, Step, import, execute, execute_panic, compare_next, stored, failed, store_panic, init,
  Reach, here, next,
}
use sub_archive.Executor.Sends.{archive-cases}
use sub_archive.Pipeline.Turns.{All-heard, IsTurn, newest, earlier}
use sub_archive.Pipeline.Traces.{
  IsTraced-map, IsTraced, store-IsTraced, begins-IsTraced, drop-IsTraced, answers-IsTraced,
}

module _ {J : Type 0} where
  -- A message that a turn of the executor in the run has sent: about the block that its backend had under
  -- the number of the message, with the last changes of the keys in the block's execution, or with the
  -- genesis storage, where that is block 0.
  pub record IsExecuted {begun t : System J} (run : Reach begun t) (msg : ArchiveSendMsg J)
      : Type 1 where
    pub State : Type 0
    pub x : BlockExecutor State J
    pub n : BlockNumber
    pub turn : IsTurn State x n run
    pub sb : SignedBlock
    pub main_sc : StorageChanges
    pub executed : IsExecution x n sb main_sc
    pub about : IsAbout x sb msg
    pub own_number : msg.0.block_num ≡ n
    pub changes : Carries x n main_sc msg.1.main_changes

  pub IsExecuted-earlier :
      {begun t u : System J} (run : Reach begun t) (st : Step t u) (msg : ArchiveSendMsg J)
      → IsExecuted run msg
      → IsExecuted (next run st) msg
  IsExecuted-earlier run st msg i = record {
    State = i.State;
    x = i.x;
    n = i.n;
    turn = earlier run st i.turn;
    sb = i.sb;
    main_sc = i.main_sc;
    executed = i.executed;
    about = i.about;
    own_number = i.own_number;
    changes = i.changes;
  }

  module _ {S : Type 0} (x : BlockExecutor S J) (n : BlockNumber) (versions : Versions) (a : Sent J)
      (e : archive x n versions ≡ (returned tt, a)) {begun t : System J} (run : Reach begun t)
      (turn : IsTurn S x n run) where
    pub archive-IsExecuted : All (IsExecuted run) a.to_archiver
    archive-IsExecuted = elim (archive-cases x n versions a e) [
      | inl none_sent ↦ rw none_sent tt
      | inr h ↦ rw h.sent (
        record {
          State = S;
          x = x;
          n = n;
          turn = turn;
          sb = h.sb;
          main_sc = h.main_sc;
          executed = executes-IsExecution x n h.main_sc h.sb h.executed;
          about = record {
            versions = refl;
            hashes = refl;
            parents = refl;
            states = refl;
            roots = refl;
            digests = refl;
            extrinsics = refl;
            changes = refl;
            own_hash = refl;
            own_number = refl;
            own_digest = refl;
            own_extrinsics = refl;
            own_justifications = refl;
          };
          own_number = refl;
          changes = storages_map-Carries x n h.main_sc;
        },
        tt,
      )
    ]

  module _ (start : Notifier J) where
    module _ {begun t : System J} (run : Reach begun t) where
      abbrev Traced : {u : System J} → Step t u → System J → Type 1
      Traced st v = IsTraced start (IsExecuted (next run st)) v.archiver_queue v.notifier

      Step-IsTraced : {u : System J} (st : Step t u) → Traced st t → Traced st u
      Step-IsTraced (import best metadata_at) i =
          answers-IsTraced start _ t.archiver_queue t.notifier metadata_at i
      Step-IsTraced (execute S x n rest a alive q e) i = record {
        bound = i.bound;
        messages =
            All-heard _ t.archiver_alive t.archiver_queue a.to_archiver i.messages
              (archive-IsExecuted x n t.versions a e _ (newest run rest a alive q e));
        rows = i.rows;
      }
      Step-IsTraced (execute_panic S x n rest a alive q e) i = i
      Step-IsTraced (compare_next n rest q) i = i
      Step-IsTraced (stored m p rest alive q e) i =
          store-IsTraced start _ m p rest t.archiver_queue t.notifier q i
      Step-IsTraced (failed m p rest e alive q r) i =
          store-IsTraced start _ m p rest t.archiver_queue t.notifier q i
      Step-IsTraced (store_panic m p rest alive q e) i =
          drop-IsTraced start _ rest _
            (store-IsTraced start _ m p rest t.archiver_queue t.notifier q i)

    Reach-IsTraced :
        {first best : BlockNumber} {t : System J} (run : Reach (init first best start) t)
        → IsTraced start (IsExecuted run) t.archiver_queue t.notifier
    Reach-IsTraced here = begins-IsTraced start _
    Reach-IsTraced (next {t} run st) = Step-IsTraced run st (
        IsTraced-map start (IsExecuted-earlier run st) t.archiver_queue t.notifier
          (Reach-IsTraced run))

    -- In every reachable state, each row of a block in the database was there at the start, or is the row
    -- of a message that a turn of the executor in its run sent: under the number of the turn, about the block that the
    -- backend had under it, with the changes that its execution made.
    pub stored_rows_origin :
        {first best : BlockNumber} {t : System J} (k : ℤ) (row : BlockRow J)
        (run : Reach (init first best start) t)
        → lookup k t.notifier.db.tables.blocks ≡ some row
        → (lookup k start.db.tables.blocks ≡ some row)
          ⊎ ((msg : ArchiveSendMsg J) × IsExecuted run msg
              × (k ≡ start.db.bind msg.0.block_num)
              × (row ≡ block_row start.db.bind msg.0))
    stored_rows_origin k row run h = (Reach-IsTraced run).rows k row h
