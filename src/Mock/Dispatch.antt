-- ===== src/Mock/Dispatch.antt =====
-- All calls of the runtime apis of archive/runtime/src/mock.rs, those that are unimplemented included. The
-- arguments of these are ignored, and left out; a name that ends in `_impl` is a `_runtime_api_impl`.
use sub_archive.Prelude.{Option, Bool, true, false, Result, ok, err, Outcome, returned, panicked}
use sub_archive.Chain.{Bytes, BlockId, Block, Header}
use sub_archive.Mock.State.{ApiError, MockRuntimeApi, OverlayedChanges, CallApiAt, Scale}
use sub_archive.Mock.Apis
use sub_archive.Mock.Apis.{
  core_execute_block_runtime_api_impl, metadata_metadata_runtime_api_impl,
  babe_api_configuration_runtime_api_impl,
}

-- `E` is the context of an execution and `I` the inherent data.
pub data CoreCall (E : Type 0) : Type 0 where
  version : CoreCall E
  execute_block : Block → CoreCall E
  initialize_block : Header → CoreCall E
  version_impl : CoreCall E
  execute_block_impl : E → Option Block → CoreCall E
  initialize_block_impl : CoreCall E

pub data MetadataCall (E : Type 0) : Type 0 where
  metadata : MetadataCall E
  metadata_impl : E → MetadataCall E

pub data BlockBuilderCall (I : Type 0) : Type 0 where
  apply_extrinsic : BlockBuilderCall I
  finalize_block : BlockBuilderCall I
  inherent_extrinsics : BlockBuilderCall I
  check_inherents : Block → I → BlockBuilderCall I
  apply_extrinsic_impl : BlockBuilderCall I
  finalize_block_impl : BlockBuilderCall I
  inherent_extrinsics_impl : BlockBuilderCall I
  check_inherents_impl : BlockBuilderCall I

pub data GrandpaCall : Type 0 where
  grandpa_authorities : GrandpaCall
  submit_report_equivocation_unsigned_extrinsic : GrandpaCall
  generate_key_ownership_proof : GrandpaCall
  grandpa_authorities_impl : GrandpaCall
  submit_report_equivocation_unsigned_extrinsic_impl : GrandpaCall
  generate_key_ownership_proof_impl : GrandpaCall

pub data BabeCall (E : Type 0) : Type 0 where
  configuration : BabeCall E
  current_epoch_start : BabeCall E
  current_epoch : BabeCall E
  next_epoch : BabeCall E
  generate_key_ownership_proof : BabeCall E
  submit_report_equivocation_unsigned_extrinsic : BabeCall E
  configuration_impl : E → BabeCall E
  current_epoch_start_impl : BabeCall E
  current_epoch_impl : BabeCall E
  next_epoch_impl : BabeCall E
  generate_key_ownership_proof_impl : BabeCall E
  submit_report_equivocation_unsigned_extrinsic_impl : BabeCall E

pub data SessionKeysCall : Type 0 where
  generate_session_keys : Option Bytes → SessionKeysCall
  decode_session_keys : SessionKeysCall
  generate_session_keys_impl : SessionKeysCall
  decode_session_keys_impl : SessionKeysCall

-- What is told of a call: whether it succeeded, if it returned.
abbrev pub told : {A W : Type 0} → Outcome (Result ApiError A) × W → Outcome Bool × W
told (panicked, w) = (panicked, w)
told (returned (ok a), w) = (returned true, w)
told (returned (err e), w) = (returned false, w)

module _ {O K S C E I R G : Type 0} (v : OverlayedChanges O K S C)
    (c : CallApiAt E (MockRuntimeApi O K)) (scale : Scale I R G) (at : BlockId)
    (s : MockRuntimeApi O K) where
  unfoldable pub core : CoreCall E → Outcome Bool × MockRuntimeApi O K
  core CoreCall.version = told (Apis.version v c scale at s)
  core (CoreCall.execute_block block) = told (Apis.execute_block v c scale at block s)
  core (CoreCall.initialize_block header) = told (Apis.initialize_block v c scale at header s)
  core CoreCall.version_impl = (panicked, s)
  core (CoreCall.execute_block_impl context params) =
      told (core_execute_block_runtime_api_impl v c scale at context params s)
  core CoreCall.initialize_block_impl = (panicked, s)

  unfoldable pub metadata_api : MetadataCall E → Outcome Bool × MockRuntimeApi O K
  metadata_api MetadataCall.metadata = told (Apis.metadata v c scale at s)
  metadata_api (MetadataCall.metadata_impl context) =
      told (metadata_metadata_runtime_api_impl v c scale at context s)

  unfoldable pub block_builder : BlockBuilderCall I → Outcome Bool × MockRuntimeApi O K
  block_builder BlockBuilderCall.apply_extrinsic = (panicked, s)
  block_builder BlockBuilderCall.finalize_block = (panicked, s)
  block_builder BlockBuilderCall.inherent_extrinsics = (panicked, s)
  block_builder (BlockBuilderCall.check_inherents block inherents) =
      told (Apis.check_inherents v c scale at block inherents s)
  block_builder BlockBuilderCall.apply_extrinsic_impl = (panicked, s)
  block_builder BlockBuilderCall.finalize_block_impl = (panicked, s)
  block_builder BlockBuilderCall.inherent_extrinsics_impl = (panicked, s)
  block_builder BlockBuilderCall.check_inherents_impl = (panicked, s)

  unfoldable pub grandpa_api : GrandpaCall → Outcome Bool × MockRuntimeApi O K
  grandpa_api call = (panicked, s)

  unfoldable pub babe_api : BabeCall E → Outcome Bool × MockRuntimeApi O K
  babe_api BabeCall.configuration = told (Apis.configuration v c scale at s)
  babe_api BabeCall.current_epoch_start = (panicked, s)
  babe_api BabeCall.current_epoch = (panicked, s)
  babe_api BabeCall.next_epoch = (panicked, s)
  babe_api BabeCall.generate_key_ownership_proof = (panicked, s)
  babe_api BabeCall.submit_report_equivocation_unsigned_extrinsic = (panicked, s)
  babe_api (BabeCall.configuration_impl context) =
      told (babe_api_configuration_runtime_api_impl v c scale at context s)
  babe_api BabeCall.current_epoch_start_impl = (panicked, s)
  babe_api BabeCall.current_epoch_impl = (panicked, s)
  babe_api BabeCall.next_epoch_impl = (panicked, s)
  babe_api BabeCall.generate_key_ownership_proof_impl = (panicked, s)
  babe_api BabeCall.submit_report_equivocation_unsigned_extrinsic_impl = (panicked, s)

  unfoldable pub session_keys : SessionKeysCall → Outcome Bool × MockRuntimeApi O K
  session_keys (SessionKeysCall.generate_session_keys seed) =
      told (Apis.generate_session_keys v c scale at seed s)
  session_keys SessionKeysCall.decode_session_keys = (panicked, s)
  session_keys SessionKeysCall.generate_session_keys_impl = (panicked, s)
  session_keys SessionKeysCall.decode_session_keys_impl = (panicked, s)

-- `record_proof`, `extract_proof` and `proof_recorder`, of `ApiExt`
abbrev pub proofs : {A : Type 0} → Outcome A
proofs = panicked

-- A call of any of the apis.
pub data ApiCall (E I : Type 0) : Type 0 where
  core_call : CoreCall E → ApiCall E I
  metadata_call : MetadataCall E → ApiCall E I
  block_builder_call : BlockBuilderCall I → ApiCall E I
  grandpa_call : GrandpaCall → ApiCall E I
  babe_call : BabeCall E → ApiCall E I
  session_keys_call : SessionKeysCall → ApiCall E I

module _ {O K S C E I R G : Type 0} (v : OverlayedChanges O K S C)
    (c : CallApiAt E (MockRuntimeApi O K)) (scale : Scale I R G) (at : BlockId)
    (s : MockRuntimeApi O K) where
  unfoldable pub dispatch : ApiCall E I → Outcome Bool × MockRuntimeApi O K
  unfolding core metadata_api block_builder grandpa_api babe_api session_keys
  dispatch (core_call call) = core v c scale at s call
  dispatch (metadata_call call) = metadata_api v c scale at s call
  dispatch (block_builder_call call) = block_builder v c scale at s call
  dispatch (grandpa_call call) = grandpa_api v c scale at s call
  dispatch (babe_call call) = babe_api v c scale at s call
  dispatch (session_keys_call call) = session_keys v c scale at s call
