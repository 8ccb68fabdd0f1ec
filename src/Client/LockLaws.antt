-- ===== src/Client/LockLaws.antt =====
-- What holds of `lock_import_and_run` however the operation, the backend and the listeners behave.
use sub_archive.Prelude.{[], ◌≡◌, ◌⊎◌, none, ok, panicked, arith}
use sub_archive.Client.Operation.{Task, Importing}
use sub_archive.Client.Lock.{Backend, Node, lock_import_and_run}

module _ {S : Type 0} where
  -- The operation that a call begins with, and the one that `f` makes of it.
  abbrev pub started : Node S → Importing
  started n = record {
    op = [];
    notify_imported = none;
    notify_finalized = [];
    importing_block = n.importing_block;
  }

  abbrev pub prepared : {R : Type 0} → Task R → Node S → Importing
  prepared f n = (f (started n)).1

module _ {S R : Type 0} (b : Backend S) where
  -- Unless the call panics, no block counts as being imported after it.
  pub lock_import_and_run-resets :
      (f : Task R) (n : Node S)
      → ((lock_import_and_run b f n).1.importing_block ≡ none)
        ⊎ ((lock_import_and_run b f n).0 ≡ panicked)
  unfolding lock_import_and_run
  lock_import_and_run-resets f n = ground arith

  -- Unless the backend has committed what the operation prepared, the listeners are told nothing.
  pub lock_import_and_run-silent :
      (f : Task R) (n : Node S)
      → ((lock_import_and_run b f n).1.notifies ≡ n.notifies)
        ⊎ (((b.commit_operation (prepared f n).op n.backend).0 ≡ ok tt)
            × ((lock_import_and_run b f n).1.backend
                ≡ (b.commit_operation (prepared f n).op n.backend).1))
  unfolding lock_import_and_run
  lock_import_and_run-silent f n = ground arith
