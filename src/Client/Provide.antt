-- ===== src/Client/Provide.antt =====
-- What the client provides to others: the proofs of reads and of calls, the building of blocks, the keys
-- of the storage and the headers of uncles, of client/service/src/client/client.rs.
use sub_archive.Prelude.{ℕ, List, [], ◌∷◌, Option, none, some, Result, ok, err, ◌>>=◌, ◌≡◌, refl}
use sub_archive.Chain.{Bytes, Hash, BlockNumber, DigestItem, BlockId, hash, Header, ChainError}
use sub_archive.Client.Backend.{Blockchain}
use sub_archive.Client.ChangesTrie.{expect_block_number_from_id, expect_block_hash_from_id}
use sub_archive.Client.Api.{prepare_environment_block}
use sub_archive.Client.Proofs.{Cht, header_proof_with_cht_size}
use sub_archive.Client.Uncles

-- The proofs of the state machine on a state `S`, and the well-known keys; a `StorageProof` is bytes.
pub record Prover (S : Type 0) : Type 0 where
  pub state_at : BlockId → Result ChainError S
  pub prove_read : S → List Bytes → Result ChainError Bytes
  pub prove_child_read : S → Bytes → List Bytes → Result ChainError Bytes
  pub prove_execution : S → Header → Bytes → Bytes → Result ChainError (Bytes × Bytes)
  pub merge : List Bytes → Bytes
  pub code_key : Bytes
  pub heap_pages_key : Bytes

-- `RecordProof`
pub data RecordProof : Type 0 where
  record_proof : RecordProof
  no_record : RecordProof

module _ {S : Type 0} (p : Prover S) where
  unfoldable pub read_proof : BlockId → List Bytes → Result ChainError Bytes
  read_proof id keys = do state ← p.state_at id; p.prove_read state keys

  unfoldable pub read_child_proof : BlockId → Bytes → List Bytes → Result ChainError Bytes
  read_child_proof id child_info keys = do
    state ← p.state_at id
    p.prove_child_read state child_info keys

  -- The proof of a call has the code and the heap pages that it is made with.
  unfoldable pub execution_proof :
      Blockchain → BlockId → Bytes → Bytes → Result ChainError (Bytes × Bytes)
  unfolding read_proof
  execution_proof chain id method call_data = do
    code_proof ← read_proof id (p.code_key ∷ p.heap_pages_key ∷ [])
    state ← p.state_at id
    header ← prepare_environment_block chain id
    proved ← p.prove_execution state header method call_data
    ok (proved.0, p.merge (proved.1 ∷ code_proof ∷ []))

  -- Given `KeyIterator::new`: the iteration starts at the start key, or at the prefix, or at the beginning.
  abbrev pub start_of : Option Bytes → Option Bytes → Bytes
  start_of (some key) key_prefix = key
  start_of none (some key) = key
  start_of none none = []

  unfoldable pub storage_keys_iter :
      {I : Type 0}
      → (S → Option Bytes → Bytes → I)
      → BlockId
      → Option Bytes
      → Option Bytes
      → Result ChainError I
  storage_keys_iter iterator id key_prefix start_key = do
    state ← p.state_at id
    ok (iterator state key_prefix (start_of start_key key_prefix))

abbrev pub header_proof :
    Blockchain → Cht → BlockNumber → BlockId → Result ChainError (Header × Bytes)
header_proof chain cht cht_size id = header_proof_with_cht_size chain cht id cht_size

-- Given `BlockBuilder::new`, which makes a builder `B` on a parent.
module _ {B : Type 0} (chain : Blockchain)
    (builder : Hash → BlockNumber → RecordProof → List DigestItem → Result ChainError B) where
  unfoldable pub new_block_at : BlockId → List DigestItem → RecordProof → Result ChainError B
  new_block_at parent inherent_digests recording = do
    parent_hash ← expect_block_hash_from_id chain parent
    parent_number ← expect_block_number_from_id chain parent
    builder parent_hash parent_number recording inherent_digests

  unfoldable pub new_block : List DigestItem → Result ChainError B
  new_block inherent_digests =
      builder chain.info.best_hash chain.info.best_number no_record inherent_digests

  -- A new block is one at the best block, without a proof, where the chain knows the number of that.
  new_block-best :
      (inherent_digests : List DigestItem)
      → chain.number_of chain.info.best_hash ≡ ok (some chain.info.best_number)
      → new_block inherent_digests
        ≡ new_block_at (hash chain.info.best_hash) inherent_digests no_record
  unfolding new_block new_block_at
  new_block-best inherent_digests known = rw known refl

abbrev with_header : Result ChainError (Option Header) → List Header → List Header
with_header (ok (some header)) headers = header ∷ headers
with_header (ok none) headers = headers
with_header (err e) headers = headers

abbrev headers_of : Blockchain → List Hash → List Header
headers_of chain [] = []
headers_of chain (h ∷ rest) = with_header (chain.header (hash h)) (headers_of chain rest)

-- `ProvideUncles::uncles`: a header that is not there, or cannot be read, is left out.
unfoldable pub uncles : Blockchain → Hash → ℕ → Result ChainError (List Header)
uncles chain target_hash max_generation = do
  hashes ← Uncles.uncles chain target_hash max_generation
  ok (headers_of chain hashes)
