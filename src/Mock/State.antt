-- ===== src/Mock/State.antt =====
-- `MockRuntimeApiImpl` of archive/runtime/src/mock.rs, and what it is given: the overlay of changes, the
-- client, and SCALE.
use sub_archive.Prelude.{ℕ, Option, none, Bool, Result}
use sub_archive.Chain.{Bytes, BlockId, Block, Header, Hash}
use sub_archive.Executor.VersionCache.{RuntimeVersion}
use sub_archive.Executor.Block.{StorageChanges}
use sub_archive.Client.Api.{CallApiAtParams}

-- The errors of `sp_api::ApiError` that are made: of decoding an answer of a method, and of the client.
pub data ApiError : Type 0 where
  failed_to_decode_return_value : Bytes → ApiError
  application : ApiError

pub data NativeOrEncoded (T : Type 0) : Type 0 where
  native : T → NativeOrEncoded T
  encoded : Bytes → NativeOrEncoded T

-- The fields: the overlay `O`, and the cache of storage transactions `K`. The client is apart.
pub record MockRuntimeApi (O K : Type 0) : Type 0 where
  pub initialized_block : Option BlockId
  pub changes : O
  pub storage : K

-- `OverlayedChanges`, with the nested transactions of its changes; `none` is that none is open. What it
-- makes of its changes on a state `S`, with the state of a changes trie `C`, may fail.
pub record OverlayedChanges (O K S C : Type 0) : Type 0 where
  pub default : O
  pub no_transaction : K
  pub start_transaction : O → O
  pub commit_transaction : O → Option O
  pub rollback_transaction : O → Option O
  pub into_storage_changes : O → S → Option C → Hash → K → Option StorageChanges

-- `CallApiAt`, as the client has it once it is given the api itself; a call is given the api's state,
-- and may call its `initialize_block`. `E` is the context of an execution.
pub record CallApiAt (E W : Type 0) : Type 1 where
  pub call_api_at :
      (T : Type 0)
      → CallApiAtParams E (Result ApiError T)
      → W
      → Result ApiError (NativeOrEncoded T) × W
  pub runtime_version_at : BlockId → Result ApiError RuntimeVersion
  pub has_api_with : RuntimeVersion → ℕ → (ℕ → Bool) → Bool
  -- `ExecutionContext::OffchainCall(None)`
  pub offchain_call : E

-- SCALE, for the arguments and the answers: the metadata is bytes, `I` the inherent data, `R` what their
-- check answers, and `G` the configuration of BABE.
pub record Scale (I R G : Type 0) : Type 0 where
  pub encode_unit : Bytes
  pub encode_block : Block → Bytes
  pub encode_header : Header → Bytes
  pub encode_inherents : Block → I → Bytes
  pub encode_seed : Option Bytes → Bytes
  pub decode_unit : Bytes → Option (Unit {0})
  pub decode_version : Bytes → Option RuntimeVersion
  pub decode_bytes : Bytes → Option Bytes
  pub decode_check : Bytes → Option R
  pub decode_configuration : Bytes → Option G

-- `ConstructRuntimeApi::construct_runtime_api`
abbrev pub construct_runtime_api :
    {O K S C : Type 0} → OverlayedChanges O K S C → MockRuntimeApi O K
construct_runtime_api v = record {
  initialized_block = none;
  changes = v.default;
  storage = v.no_transaction;
}
