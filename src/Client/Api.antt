-- ===== src/Client/Api.antt =====
-- `call_api_at` of client/service/src/client/client.rs, by which the runtime api calls the runtime, with
-- the header that a block is initialized with; and the proof of a call.
use sub_archive.Prelude.{ℕ, ◌+◌, [], Option, none, some, Bool, true, Result, ok, err, ◌>>=◌}
use sub_archive.Chain.{Bytes, BlockId, Header, ChainError, runtime_api_error}
use sub_archive.Client.Backend.{Blockchain}
use sub_archive.Client.ChangesTrie.{expect_block_number_from_id, expect_block_hash_from_id}
use sub_archive.Client.Overrides.{RuntimeCode, Overrides}
use sub_archive.Client.CallExecutor.{
  Request, Run, Machine, InitializeBlock, Context, contextual_call,
}

-- `CallApiAtParams`, without what is shared with the caller. `E` is the context of the execution.
pub record CallApiAtParams (E N : Type 0) : Type 0 where
  pub at : BlockId
  pub function : Bytes
  pub arguments : Bytes
  pub initialize_block : InitializeBlock
  pub native_call : Option N
  pub context : E
  pub recorder : Bool

-- What a call is given: `manager_and_extensions`, and the runtime's `initialize_block` on the changes.
pub record Api (E X M W : Type 0) : Type 0 where
  pub manager_and_extensions : BlockId → E → M × X
  pub initialize_block : BlockId → Header → W → Option (Unit {0}) × W

-- Prepare in-memory header that is used in execution environment.
unfoldable pub prepare_environment_block : Blockchain → BlockId → Result ChainError Header
prepare_environment_block chain parent = do
  parent_hash ← expect_block_hash_from_id chain parent
  number ← expect_block_number_from_id chain parent
  ok (record {
    parent_hash = parent_hash;
    number = number + 1;
    state_root = 0;
    extrinsics_root = 0;
    digest = [];
  })

abbrev pub as_chain_error : {W : Type 0} → Option (Unit {0}) × W → Result ChainError (Unit {0}) × W
as_chain_error (some done, w) = (ok done, w)
as_chain_error (none, w) = (err runtime_api_error, w)

module _ {E X M W : Type 0} (api : Api E X M W) where
  -- The closure that initializes the block.
  abbrev pub initialize_block_fn : Blockchain → BlockId → W → Result ChainError (Unit {0}) × W
  initialize_block_fn chain at w = elim (prepare_environment_block chain at) [
    | err e ↦ (err e, w)
    | ok header ↦ as_chain_error (api.initialize_block at header w)
  ]

  module _ {N : Type 0} where
    abbrev pub request_of : CallApiAtParams E N → Request X M N
    request_of params =
        let (manager, extensions) = api.manager_and_extensions params.at params.context in
        record {
          method = params.function;
          call_data = params.arguments;
          extensions = some extensions;
          manager = manager;
          native_call = params.native_call;
        }

    module _ {S C A : Type 0} (m : Machine S C X M N W A) (make_hash : Bytes → Bytes)
        (spec_version : RuntimeCode → Option ℕ) (wasm_override : Option Overrides) where
      unfoldable pub call_api_at :
          Blockchain
          → CallApiAtParams E N
          → Context (Run S C X M N) W
          → Result ChainError A × Context (Run S C X M N) W
      call_api_at chain params c =
          contextual_call m make_hash spec_version wasm_override
            (initialize_block_fn chain params.at) params.at (request_of params) true
            params.initialize_block params.recorder c
