-- ===== src/Mock/Object.antt =====
-- The runtime api as its callers have it: the object that the block executor makes for each block, and the
-- client of client/service/src/client/client.rs behind it.
use sub_archive.Prelude.{ℕ, [], Option, none, Bool, Result, map_err, Outcome, returned, panicked}
use sub_archive.Chain.{Bytes, BlockId, ChainError}
use sub_archive.Executor.VersionCache.{RuntimeVersion}
use sub_archive.Executor.Block.{RuntimeApi}
use sub_archive.Client.Backend.{Blockchain}
use sub_archive.Client.Overrides.{RuntimeCode, Overrides}
use sub_archive.Client.CallExecutor.{Machine, Context}
use sub_archive.Client.Api
use sub_archive.Client.Api.{Api}
use sub_archive.Mock.State.{
  ApiError, application, NativeOrEncoded, MockRuntimeApi, OverlayedChanges, CallApiAt, Scale,
  construct_runtime_api,
}
use sub_archive.Mock.Call.{into_storage_changes}
use sub_archive.Mock.Apis.{execute_block}

-- What the object has recorded, whatever the call answers.
abbrev pub recorded : {A W : Type 0} → Outcome A × W → Outcome W
recorded (returned _, w) = returned w
recorded (panicked, w) = panicked

module _ {O K S C E I R G : Type 0} (v : OverlayedChanges O K S C)
    (c : CallApiAt E (MockRuntimeApi O K)) (scale : Scale I R G) where
  unfoldable pub runtime_api : RuntimeApi S
  unfolding execute_block into_storage_changes
  runtime_api = record {
    Recorded = MockRuntimeApi O K;
    execute_block =
        λ at block. recorded (execute_block v c scale at block (construct_runtime_api v));
    into_storage_changes =
        λ s backend parent_hash. (into_storage_changes v backend none parent_hash s).0;
  }

abbrev pub context_of : {Q W : Type 0} → W → Context Q W
context_of s = record { changes = s; runs = [] }

abbrev pub as_api_error :
    {Q W A : Type 0} → Result ChainError A × Context Q W → Result ApiError A × W
as_api_error (r, context) = (map_err (λ e. application) r, context.changes)

-- The client's `CallApiAt`, for a runtime api that initializes blocks as `api` says.
module _ {S C X M E O K : Type 0}
    (m : (T : Type 0)
      → Machine S C X M (Result ApiError T) (MockRuntimeApi O K) (NativeOrEncoded T))
    (make_hash : Bytes → Bytes) (spec_version : RuntimeCode → Option ℕ)
    (wasm_override : Option Overrides) (chain : Blockchain)
    (version_at : BlockId → Result ApiError RuntimeVersion)
    (has_api_with : RuntimeVersion → ℕ → (ℕ → Bool) → Bool) (offchain_call : E)
    (api : Api E X M (MockRuntimeApi O K)) where
  unfoldable pub client_api : CallApiAt E (MockRuntimeApi O K)
  unfolding Api.call_api_at
  client_api = record {
    call_api_at = λ T params s. as_api_error (
        Api.call_api_at api (m T) make_hash spec_version wasm_override chain params (context_of s));
    runtime_version_at = version_at;
    has_api_with = has_api_with;
    offchain_call = offchain_call;
  }
