-- ===== src/Pipeline/System.antt =====
-- The tasks of cli/src/service.rs and their channels, interleaved in any order.
use sub_archive.Prelude.{
  Option, List, [], ◌∷◌, ◌++◌, Bool, true, false, ok, err, returned, panicked, ◌≡◌,
}
use sub_archive.Chain.{Bytes, BlockNumber, ChainError}
use sub_archive.Postgres.Model.{BlockModel}
use sub_archive.Kafka.Payload.{BlockPayload}
use sub_archive.Notifier.Task.{Notifier}
use sub_archive.Notifier.Archive.{ArchiveSendMsg, archive as store}
use sub_archive.Executor.VersionCache.{Versions}
use sub_archive.Executor.Block.{BlockExecutor}
use sub_archive.Executor.Archive.{Sent, archive}
use sub_archive.Executor.Sends.{numbers}
use sub_archive.Pipeline.Comparer.{compare}

pub record System (J : Type 0) : Type 0 where
  -- the channels "executor", "comparer" and "archiver"
  pub executor_queue : List BlockNumber
  pub comparer_queue : List BlockNumber
  pub archiver_queue : List (ArchiveSendMsg J)
  -- the backend's best number
  pub best : BlockNumber
  -- the state of the executor, and of the archiver
  pub versions : Versions
  pub notifier : Notifier J
  pub executor_alive : Bool
  pub archiver_alive : Bool
  -- For the statements only: the numbers that the executor has been through, the newest first, and
  -- those whose message the archiver took and failed to store, or never took, as it was dead.
  pub done : List BlockNumber
  pub lost : List BlockNumber

-- What a channel holds after a task has sent to it: the receiver is dropped with the task that has it, and
-- the sender ignores the error.
abbrev pub heard {ℓ} : {A : Type ℓ} → Bool → List A → List A → List A
heard true queue msgs = queue ++ msgs
heard false queue msgs = queue

abbrev pub unheard : Bool → List BlockNumber → List BlockNumber → List BlockNumber
unheard true sent lost = lost
unheard false sent lost = sent ++ lost

-- One turn of one task, or of the node, which imports a block or reverts some: the best number and what the
-- runtime answers may become anything. What the backends answer may change from turn to turn, so each
-- turn of the executor has its own `BlockExecutor`.
pub data Step {J : Type 0} (s : System J) : System J → Type 1 where
  import :
      (best : BlockNumber) (metadata_at : BlockNumber → Option Bytes)
      → Step s
          (record s { best = best; notifier = record s.notifier { metadata_at = metadata_at } })
  execute :
      (S : Type 0) (x : BlockExecutor S J) (n : BlockNumber) (rest : List BlockNumber) (a : Sent J)
      → s.executor_alive ≡ true
      → s.executor_queue ≡ n ∷ rest
      → archive x n s.versions ≡ (returned tt, a)
      → Step s (record s {
        executor_queue = rest;
        comparer_queue = s.comparer_queue ++ a.to_comparer;
        archiver_queue = heard s.archiver_alive s.archiver_queue a.to_archiver;
        versions = a.versions;
        lost = unheard s.archiver_alive (numbers a.to_archiver) s.lost;
        done = n ∷ s.done;
      })
  execute_panic :
      (S : Type 0) (x : BlockExecutor S J) (n : BlockNumber) (rest : List BlockNumber) (a : Sent J)
      → s.executor_alive ≡ true
      → s.executor_queue ≡ n ∷ rest
      → archive x n s.versions ≡ (panicked, a)
      → Step s (record s { executor_queue = []; versions = a.versions; executor_alive = false })
  compare_next :
      (n : BlockNumber) (rest : List BlockNumber)
      → s.comparer_queue ≡ n ∷ rest
      → Step s (record s {
        comparer_queue = rest;
        executor_queue = heard s.executor_alive s.executor_queue (compare n s.best ∷ []);
      })
  stored :
      (m : BlockModel J) (p : BlockPayload) (rest : List (ArchiveSendMsg J))
      → s.archiver_alive ≡ true
      → s.archiver_queue ≡ (m, p) ∷ rest
      → (store m p s.notifier).0 ≡ returned (ok tt)
      → Step s (record s { archiver_queue = rest; notifier = (store m p s.notifier).1 })
  failed :
      (m : BlockModel J) (p : BlockPayload) (rest : List (ArchiveSendMsg J)) (e : ChainError)
      → s.archiver_alive ≡ true
      → s.archiver_queue ≡ (m, p) ∷ rest
      → (store m p s.notifier).0 ≡ returned (err e)
      → Step s (record s {
        archiver_queue = rest;
        notifier = (store m p s.notifier).1;
        lost = m.block_num ∷ s.lost;
      })
  store_panic :
      (m : BlockModel J) (p : BlockPayload) (rest : List (ArchiveSendMsg J))
      → s.archiver_alive ≡ true
      → s.archiver_queue ≡ (m, p) ∷ rest
      → (store m p s.notifier).0 ≡ panicked
      → Step s (record s {
        archiver_queue = [];
        notifier = (store m p s.notifier).1;
        archiver_alive = false;
        lost = m.block_num ∷ numbers rest ++ s.lost;
      })

-- The service at its start: the first number is on its way to the executor.
abbrev pub init : {J : Type 0} → BlockNumber → BlockNumber → Notifier J → System J
init start best notifier = record {
  executor_queue = start ∷ [];
  comparer_queue = [];
  archiver_queue = [];
  best = best;
  versions = [];
  notifier = notifier;
  executor_alive = true;
  archiver_alive = true;
  done = [];
  lost = [];
}

pub data Reach {J : Type 0} (s : System J) : System J → Type 1 where
  here : Reach s s
  next : {t u : System J} → Reach s t → Step t u → Reach s u
