-- ===== src/Chain.antt =====
-- The chain's types: primitives/src/lib.rs, with the fields of sp_runtime's generic header and block.
-- A 256-bit hash is a number; what the archive only carries (extrinsics, digest items) is bytes.
use sub_archive.Prelude.{ℕ, List, Option}

-- `Vec<u8>`
abbrev pub Bytes : Type 0
Bytes = List ℕ

abbrev pub Hash : Type 0
Hash = ℕ

abbrev pub BlockNumber : Type 0
BlockNumber = ℕ

abbrev pub DigestItem : Type 0
DigestItem = Bytes

-- `OpaqueExtrinsic`
abbrev pub Extrinsic : Type 0
Extrinsic = Bytes

pub record Header : Type 0 where
  pub parent_hash : Hash
  pub number : BlockNumber
  pub state_root : Hash
  pub extrinsics_root : Hash
  pub digest : List DigestItem

-- `(ConsensusEngineId, Vec<u8>)`
abbrev pub Justification : Type 0
Justification = Bytes × Bytes

pub record Block : Type 0 where
  pub header : Header
  pub extrinsics : List Extrinsic

pub record SignedBlock : Type 0 where
  pub block : Block
  pub justifications : Option (List Justification)

-- `BlockId<Block>`
pub data BlockId : Type 0 where
  hash : Hash → BlockId
  number : BlockNumber → BlockId

-- The errors of `sp_blockchain::Error` that the code makes or passes on, without their texts.
pub data ChainError : Type 0 where
  backend : ChainError
  storage : ChainError
  unknown_block : ChainError
  not_in_finalized_chain : ChainError
  incomplete_pipeline : ChainError
  invalid_state_root : ChainError
  changes_tries_not_supported : ChainError
  changes_trie_access_failed : ChainError
  runtime_code : ChainError
  version_invalid : ChainError
  runtime_api_error : ChainError
  application : ChainError
  execution : ChainError
