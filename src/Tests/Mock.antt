-- ===== src/Tests/Mock.antt =====
-- Calls of the runtime api, and blocks that the executor executes by it.
use sub_archive.Prelude.{ℕ, [], ◌∷◌, none, some, false, Result, ok, returned, ◌≡◌, refl, arith}
use sub_archive.Prelude.Assoc.{lookup, insert}
use sub_archive.Chain.{hash, number}
use sub_archive.Executor.VersionCache.{Externals, get_by_id, executed_version}
use sub_archive.Executor.Block.{BlockExecutor, block_model, block_payload}
use sub_archive.Executor.Archive.{archive}
use sub_archive.Client.CallExecutor.{Run, contextual_call, state_machine, runtime_version}
use sub_archive.Client.Overrides.{check_override}
use sub_archive.Client.Api.{call_api_at, prepare_environment_block}
use sub_archive.Prelude.Text.{codes}
use sub_archive.Mock.State.{ApiError, application, encoded, construct_runtime_api}
use sub_archive.Mock.Call
use sub_archive.Mock.Call.{
  started, call_params, decoded, commit_or_rollback, call_api_at_native_code,
}
use sub_archive.Mock.Apis.{metadata, initialize_block}
use sub_archive.Mock.Object.{runtime_api, client_api}
use sub_archive.Mock.Executes.{execution, failed_execution-archived}
use sub_archive.Mock.Executes
use sub_archive.Mock.Runs.{Balances, client, Executed, execution-runs}
use sub_archive.Mock.Knot.{Machines, initialized_by}
use sub_archive.Mock.Metadata.{tied, Answered, metadata-Answered}
use sub_archive.Tests.Data.{version, signed_block}
use sub_archive.Tests.Overrides.{make_hash, spec_version}
use sub_archive.Tests.Tries.{chain}
use sub_archive.Tests.MockData.{
  overlay, overlay-IsTransactional, State, scale, answering, failing, failing-IsBalanced, machines,
  idle_api, version_at, has_api_with,
}

abbrev new : State
new = construct_runtime_api overlay

abbrev externals : Externals ℕ
externals = record {
  state_at = λ id. ok 3;
  code_at = λ s. some (some (1 ∷ []));
  make_hash = λ code. 5;
  runtime_version = λ code. some code;
  decode_old = λ bytes. some version;
  decode_new = λ bytes. some version;
  has_api_with = λ v id p. false;
  core_api_id = 0;
}

abbrev executor : BlockExecutor ℕ ℕ
executor = record {
  client = runtime_api overlay answering scale;
  externals = externals;
  get_block = λ n. returned (some (signed_block n));
  get_state = λ id. ok 3;
  genesis_top = [];
  header_hash = λ h. h.number;
  hash_bytes = λ h. h ∷ [];
  encode_digest = λ d. [];
  encode_extrinsic = λ e. e;
  encode_justification = λ j. [];
  to_json = λ m. 0;
  json_null = 0;
}

version_is_known : (get_by_id externals (number 1) []).0 ≡ returned (ok (some version))
unfolding get_by_id executed_version lookup insert
version_is_known = refl

failed_execution-archived_example :
    ((archive (Executes.executor overlay failing scale executor) 1 []).0 ≡ returned tt)
    × ((archive (Executes.executor overlay failing scale executor) 1 []).1.to_archiver
        ≡ (
          block_model (Executes.executor overlay failing scale executor) 7 1 [] (signed_block 1),
          block_payload (Executes.executor overlay failing scale executor) 7 [] (signed_block 1),
        )
          ∷ [])
    × ((archive (Executes.executor overlay failing scale executor) 1 []).1.to_comparer ≡ 1 ∷ [])
failed_execution-archived_example =
    failed_execution-archived overlay failing scale executor overlay-IsTransactional
      failing-IsBalanced 1 (signed_block 1) 3 refl refl [] version application (omega arith)
      version_is_known refl (λ k. refl)

balances :
    Balances overlay machines make_hash spec_version none chain version_at has_api_with 0 idle_api
balances = record { machines = λ T run s. refl; initializes = λ at header s. refl }

execution_succeeds :
    ((client overlay machines make_hash spec_version none chain version_at has_api_with 0
        idle_api).call_api_at
      (Unit {0})
      (execution overlay
        (client overlay machines make_hash spec_version none chain version_at has_api_with 0
          idle_api)
        scale
        executor
        (signed_block 1))
      (started overlay new)).0
    ≡ ok (encoded (1 ∷ []))
unfolding client_api call_api_at contextual_call state_machine check_override runtime_version
execution_succeeds = refl

execution-runs_example :
    (run : Run ℕ ℕ ℕ ℕ (Result ApiError (Unit {0}))) × Executed overlay machines make_hash
      spec_version none chain version_at has_api_with 0 idle_api balances overlay-IsTransactional
      scale executor 1
      (signed_block 1)
      3
      refl
      refl
      (encoded (1 ∷ []))
      run
execution-runs_example =
    execution-runs overlay machines make_hash spec_version none chain version_at has_api_with 0
      idle_api balances overlay-IsTransactional scale executor 1 (signed_block 1) 3 refl refl
      (encoded (1 ∷ [])) execution_succeeds

machines_balance : Machines overlay machines
machines_balance = record { level = λ T run s. refl; same_block = λ T run s. refl }

-- The block after block 1 is initialized, and then the metadata is read.
abbrev told_metadata : State
told_metadata = record {
  initialized_block = some (hash 1);
  changes = record {
    now = (codes "Metadata_metadata", none) ∷ (codes "Core_initialize_block", none) ∷ [];
    saved = [];
  };
  storage = 0;
}

metadata_is_read :
    metadata overlay
      (tied overlay machines make_hash spec_version none chain version_at has_api_with 0 scale
        idle_api)
      scale
      (hash 1)
      new
    ≡ (returned (ok []), told_metadata)
unfolding metadata initialized_by initialize_block client_api Call.call_api_at call_api_at
    contextual_call state_machine check_override runtime_version prepare_environment_block
    commit_or_rollback call_api_at_native_code
metadata_is_read = refl

metadata-Answered_example :
    Answered overlay machines make_hash spec_version none chain version_at has_api_with 0 scale
      idle_api overlay-IsTransactional machines_balance
      (hash 1)
      new
      told_metadata
      []
metadata-Answered_example =
    metadata-Answered overlay machines make_hash spec_version none chain version_at has_api_with 0
      scale idle_api overlay-IsTransactional machines_balance (hash 1) new told_metadata [] refl
      metadata_is_read
