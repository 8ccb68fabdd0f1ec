-- ===== src/Service/LoadSpec.antt =====
-- `load_spec` and `run` of cli/src/command.rs: the chain's specification that the command names.
use Prim.Native.String.{String}
use sub_archive.Prelude.{
  Option, none, some, Result, ok, err, Outcome, returned, panicked, ◌==◌, string_eq, if◌then◌else◌,
  ◌≡◌, ◌≢◌, arith,
}
use sub_archive.Service.Base.{ServiceError, Fallible}
use sub_archive.Service.Config.{ArchiveConfig}
use sub_archive.Service.Start.{Started}
use sub_archive.Service.Command.{World, NodeConfig, gen_genesis_storages, do_work}

-- Given the variable ARCHIVE_JSON, the reading of a file, and the built-in development chain.
unfoldable pub load_spec :
    {E Spec : Type 0}
    → Option String
    → (String → Result E Spec)
    → Result E Spec
    → String
    → Result E Spec
load_spec (some path) from_json_file development_config id = from_json_file path
load_spec none from_json_file development_config id =
    if id == "dev" then development_config else from_json_file id

-- The errors of `sc_cli`, and those of the service within them.
pub data RunError (E : Type 0) : Type 0 where
  cli : E → RunError E
  service : ServiceError → RunError E

-- `run`, given the archive's configuration as `init` yields it and the runner's configuration of the node.
abbrev pub as_run : {E A : Type 0} → Fallible ServiceError A → Outcome (Result (RunError E) A)
as_run panicked = panicked
as_run (returned (err e)) = returned (err (service e))
as_run (returned (ok a)) = returned (ok a)

module _ {B C M S R P D Spec Storage Client E : Type 0}
    (w : World B C M S R P D Spec Storage Client) where
  unfoldable pub run :
      Result E (ArchiveConfig P R)
      → Result E (NodeConfig C M)
      → Outcome (Result (RunError E) (Started B D))
  run (err e) runner = returned (err (cli e))
  run (ok archive_config) (err e) = returned (err (cli e))
  run (ok archive_config) (ok config) = as_run (do_work w config archive_config)

  -- Without the variable ARCHIVE_JSON no run starts anything.
  pub run-needs_json :
      (archive_config : Result E (ArchiveConfig P R)) (runner : Result E (NodeConfig C M))
      (s : Started B D)
      → w.archive_json ≡ none
      → run archive_config runner ≢ returned (ok s)
  unfolding run do_work gen_genesis_storages
  run-needs_json (err e) runner s missing started = absurd (ground (arith, started))
  run-needs_json (ok a) (err e) s missing started = absurd (ground (arith, started))
  run-needs_json (ok a) (ok c) s missing started = absurd (ground (arith, missing, started))
