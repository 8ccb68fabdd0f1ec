-- ===== src/Client/Lock.antt =====
-- `lock_import_and_run` of client/service/src/client/client.rs, and its users `import_block` and
-- `finalize_block`.
use sub_archive.Prelude.{
  map_err, List, [], Option, none, some, Bool, Result, ok, err, Outcome, returned, panicked,
}
use sub_archive.Chain.{Bytes, Hash, Header, BlockId, Justification, ChainError}
use sub_archive.Client.Backend.{Blockchain, Op, ImportResult, BlockImportParams}
use sub_archive.Client.Rules.{BlockRules}
use sub_archive.Client.Check.{ConsensusError, client_import}
use sub_archive.Client.Operation.{Task, Importing}
use sub_archive.Client.Finality.{apply_finality}
use sub_archive.Client.Import.{apply_block}
use sub_archive.Client.Prepare.{Runtime, prepare_block_storage_changes}
use sub_archive.Client.Notifies.{ClientNotifies, notify_finalized, notify_imported}

-- The backend with a state `S`: what can be read from it, and its operations.
pub record Backend (S : Type 0) : Type 0 where
  pub blockchain : S → Blockchain
  pub begin_operation : S → Result ChainError (Unit {0})
  pub accepts : S → List Op → Op → Result ChainError (Unit {0})
  pub commit_operation : List Op → S → Result ChainError (Unit {0}) × S

-- What an import changes: the backend's state, the block under import, and the listeners.
pub record Node (S : Type 0) : Type 0 where
  pub backend : S
  pub importing_block : Option Hash
  pub notifies : ClientNotifies

module _ {S : Type 0} (b : Backend S) where
  module _ {R : Type 0} where
    abbrev told :
        R
        → Importing
        → Node S
        → Outcome (Result ChainError (Unit {0}))
        → Outcome (Result ChainError R) × Node S
    told r s n (returned (ok tt)) =
        (returned (ok r), record n { notifies = notify_imported s.notify_imported n.notifies })
    told r s n (returned (err e)) = (returned (err e), n)
    told r s n panicked = (panicked, n)

    abbrev notified : R → Importing → Node S → Outcome (Result ChainError R) × Node S
    notified r s n =
        let (o, sinks) =
          notify_finalized (b.blockchain n.backend) s.notify_finalized
            n.notifies.finality_notification_sinks in
        told r s (record n { notifies = record n.notifies { finality_notification_sinks = sinks } })
          o

    abbrev committed :
        R
        → Importing
        → Node S
        → Result ChainError (Unit {0})
        → Outcome (Result ChainError R) × Node S
    committed r s n (ok tt) = notified r s n
    committed r s n (err e) = (returned (err e), n)

    abbrev commit : R → Importing → Node S → Outcome (Result ChainError R) × Node S
    commit r s n =
        let (c, chain) = b.commit_operation s.op n.backend in
        committed r s (record n { backend = chain; importing_block = s.importing_block }) c

    abbrev ran :
        Outcome (Result ChainError R) → Importing → Node S → Outcome (Result ChainError R) × Node S
    ran (returned (ok r)) s n = commit r s n
    ran (returned (err e)) s n =
        (returned (err e), record n { importing_block = s.importing_block })
    ran panicked s n = (panicked, record n { importing_block = s.importing_block })

    abbrev begun :
        Task R → Node S → Result ChainError (Unit {0}) → Outcome (Result ChainError R) × Node S
    begun f n (err e) = (returned (err e), n)
    begun f n (ok tt) =
        let (o, s) = f (record {
          op = [];
          notify_imported = none;
          notify_finalized = [];
          importing_block = n.importing_block;
        }) in
        ran o s n

    -- `*self.importing_block.write() = None`, which a panic does not reach.
    abbrev reset : Outcome (Result ChainError R) → Node S → Outcome (Result ChainError R) × Node S
    reset (returned r) n = (returned r, record n { importing_block = none })
    reset panicked n = (panicked, n)

    unfoldable pub lock_import_and_run : Task R → Node S → Outcome (Result ChainError R) × Node S
    lock_import_and_run f n = let (o, n') = begun f n (b.begin_operation n.backend) in reset o n'

  module _ (api : Runtime) (header_hash : Header → Hash) (rules : BlockRules)
      (offchain : Bool) where
    -- `.map_err(|e| ConsensusError::ClientImport(e.to_string()))`
    abbrev as_consensus :
        Outcome (Result ChainError ImportResult) × Node S
        → Outcome (Result ConsensusError ImportResult) × Node S
    as_consensus (returned r, n) = (returned (map_err client_import r), n)
    as_consensus (panicked, n) = (panicked, n)

    abbrev imported_or :
        Bytes
        → Node S
        → Result ChainError (Option ImportResult × BlockImportParams)
        → Outcome (Result ConsensusError ImportResult) × Node S
    imported_or new_cache n (err e) = (returned (err (client_import e)), n)
    imported_or new_cache n (ok (some r, _)) = (returned (ok r), n)
    imported_or new_cache n (ok (none, block)) = as_consensus (
        lock_import_and_run
          (apply_block (b.blockchain n.backend) (b.accepts n.backend) offchain header_hash block
            new_cache)
          n)

    unfoldable pub import_block :
        BlockImportParams → Bytes → Node S → Outcome (Result ConsensusError ImportResult) × Node S
    import_block block new_cache n = imported_or new_cache n (
        prepare_block_storage_changes api
          (record {
            blockchain = b.blockchain n.backend;
            importing_block = n.importing_block;
            block_rules = rules;
          })
          block)

  unfoldable pub finalize_block :
      BlockId
      → Option Justification
      → Bool
      → Node S
      → Outcome (Result ChainError (Unit {0})) × Node S
  finalize_block id justification notify n =
      lock_import_and_run
        (apply_finality (b.blockchain n.backend) (b.accepts n.backend) id justification notify) n
