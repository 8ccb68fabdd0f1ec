-- ===== src/Mock/Apis.antt =====
-- The runtime apis of archive/runtime/src/mock.rs: `Core`, `Metadata`, and, of the others, the calls that
-- are implemented. The `_runtime_api_impl` of a call is its call with a given context.
use sub_archive.Prelude.{
  ℕ, List, [], ◌∷◌, Option, none, some, Bool, true, false, Result, ok, err, Outcome, returned,
  panicked, nat_beq, ltb, ◌&&◌, ◌||◌, if◌then◌else◌, ◌+◌, ◌*◌,
}
use sub_archive.Chain.{Bytes, BlockId, Block, Header}
use sub_archive.Executor.VersionCache.{RuntimeVersion}
use sub_archive.Prelude.Text.{codes}
use sub_archive.Mock.State.{
  ApiError, NativeOrEncoded, MockRuntimeApi, OverlayedChanges, CallApiAt, Scale,
}
use sub_archive.Mock.Call.{call_api_at, call_api_at_native_code}

-- Eight bytes as a number, the lowest first: the id of an api.
abbrev pub from_le_bytes : Bytes → ℕ
from_le_bytes [] = 0
from_le_bytes (b ∷ bs) = b + 256 * from_le_bytes bs

-- `ID`
abbrev pub core_id : ℕ
core_id = from_le_bytes (223 ∷ 106 ∷ 203 ∷ 104 ∷ 153 ∷ 7 ∷ 96 ∷ 155 ∷ [])

-- Whether the runtime has the first version of `Core`.
abbrev pub is_first_core : List (ℕ × ℕ) → Bool
is_first_core [] = false
is_first_core ((s, v) ∷ rest) = nat_beq s core_id && ltb v 2 || is_first_core rest

abbrev pub initialize_method : RuntimeVersion → Bytes
initialize_method version =
    if is_first_core version.apis
    then codes "Core_initialise_block"
    else codes "Core_initialize_block"

module _ {O K S C E I R G : Type 0} (v : OverlayedChanges O K S C)
    (c : CallApiAt E (MockRuntimeApi O K)) (scale : Scale I R G) where
  unfoldable pub version :
      BlockId → MockRuntimeApi O K → Outcome (Result ApiError RuntimeVersion) × MockRuntimeApi O K
  unfolding call_api_at
  version at =
      call_api_at v c scale.decode_version (codes "Core_version") none true at scale.encode_unit

  unfoldable pub execute_block :
      BlockId
      → Block
      → MockRuntimeApi O K
      → Outcome (Result ApiError (Unit {0})) × MockRuntimeApi O K
  unfolding call_api_at
  execute_block at block =
      call_api_at v c scale.decode_unit (codes "Core_execute_block") none false at
        (scale.encode_block block)

  -- The block counts as initialized whatever the call answers.
  abbrev update_initialized_block :
      BlockId
      → Outcome (Result ApiError (Unit {0})) × MockRuntimeApi O K
      → Outcome (Result ApiError (Unit {0})) × MockRuntimeApi O K
  update_initialized_block at (panicked, s) = (panicked, s)
  update_initialized_block at (returned res, s) =
      (returned res, record s { initialized_block = some at })

  abbrev initialize_with :
      BlockId
      → Header
      → Result ApiError RuntimeVersion
      → MockRuntimeApi O K
      → Outcome (Result ApiError (Unit {0})) × MockRuntimeApi O K
  initialize_with at header (err e) s = (returned (err e), s)
  initialize_with at header (ok version) s = update_initialized_block at (
      call_api_at v c scale.decode_unit (initialize_method version) none false at
        (scale.encode_header header) s)

  unfoldable pub initialize_block :
      BlockId
      → Header
      → MockRuntimeApi O K
      → Outcome (Result ApiError (Unit {0})) × MockRuntimeApi O K
  unfolding call_api_at
  initialize_block at header = initialize_with at header (c.runtime_version_at at)

  abbrev execute_given :
      BlockId
      → E
      → Option Block
      → MockRuntimeApi O K
      → Outcome (Result ApiError (NativeOrEncoded (Unit {0}))) × MockRuntimeApi O K
  execute_given at context none s = (panicked, s)
  execute_given at context (some block) s =
      call_api_at_native_code v c (Unit {0}) (codes "Core_execute_block") (some context) false at
        (scale.encode_block block) s

  unfoldable pub core_execute_block_runtime_api_impl :
      BlockId
      → E
      → Option Block
      → MockRuntimeApi O K
      → Outcome (Result ApiError (NativeOrEncoded (Unit {0}))) × MockRuntimeApi O K
  unfolding call_api_at_native_code
  core_execute_block_runtime_api_impl at context params = execute_given at context params

  unfoldable pub metadata :
      BlockId → MockRuntimeApi O K → Outcome (Result ApiError Bytes) × MockRuntimeApi O K
  unfolding call_api_at
  metadata at =
      call_api_at v c scale.decode_bytes (codes "Metadata_metadata") none true at scale.encode_unit

  unfoldable pub metadata_metadata_runtime_api_impl :
      BlockId
      → E
      → MockRuntimeApi O K
      → Outcome (Result ApiError (NativeOrEncoded Bytes)) × MockRuntimeApi O K
  unfolding call_api_at_native_code
  metadata_metadata_runtime_api_impl at context =
      call_api_at_native_code v c Bytes (codes "Metadata_metadata") (some context) true at
        scale.encode_unit

  unfoldable pub check_inherents :
      BlockId → Block → I → MockRuntimeApi O K → Outcome (Result ApiError R) × MockRuntimeApi O K
  unfolding call_api_at
  check_inherents at block inherents =
      call_api_at v c scale.decode_check (codes "BlockBuilder_check_inherents") none false at
        (scale.encode_inherents block inherents)

  unfoldable pub configuration :
      BlockId → MockRuntimeApi O K → Outcome (Result ApiError G) × MockRuntimeApi O K
  unfolding call_api_at
  configuration at =
      call_api_at v c scale.decode_configuration (codes "BabeApi_configuration") none false at
        scale.encode_unit

  unfoldable pub babe_api_configuration_runtime_api_impl :
      BlockId
      → E
      → MockRuntimeApi O K
      → Outcome (Result ApiError (NativeOrEncoded G)) × MockRuntimeApi O K
  unfolding call_api_at_native_code
  babe_api_configuration_runtime_api_impl at context =
      call_api_at_native_code v c G (codes "BabeApi_configuration") (some context) false at
        scale.encode_unit

  unfoldable pub generate_session_keys :
      BlockId
      → Option Bytes
      → MockRuntimeApi O K
      → Outcome (Result ApiError Bytes) × MockRuntimeApi O K
  unfolding call_api_at
  generate_session_keys at seed =
      call_api_at v c scale.decode_bytes (codes "SessionKeys_generate_session_keys") none false at
        (scale.encode_seed seed)
