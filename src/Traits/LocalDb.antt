-- ===== src/Traits/LocalDb.antt =====
-- archive/traits/src/local_db.rs: `LocalBackendCore`, which reads a block from the backend.
use sub_archive.Prelude.{Option, none, some, Result, ok, Outcome, returned, List, ◌≡◌, ◌↔◌, arith}
use sub_archive.Prelude.Panic.{◌>>=◌, unwrap}
use sub_archive.Chain.{
  Header, Extrinsic, Justification, SignedBlock, BlockId, number, BlockNumber, ChainError,
}

-- What `get_block` and `get_state` use of sc_client_api's backend; `S` is its state.
pub record LocalBackend (S : Type 0) : Type 0 where
  pub header : BlockId → Result ChainError (Option Header)
  pub body : BlockId → Result ChainError (Option (List Extrinsic))
  pub justifications : BlockId → Result ChainError (Option (List Justification))
  pub state_at : BlockId → Result ChainError S

abbrev assemble :
    Option Header → Option (List Extrinsic) → Option (List Justification) → Option SignedBlock
assemble (some h) (some b) j =
    some (record { block = record { header = h; extrinsics = b }; justifications = j })
assemble _ _ _ = none

module _ {S : Type 0} (b : LocalBackend S) where
  unfoldable pub get_block : BlockNumber → Outcome (Option SignedBlock)
  get_block block_number = do
    let block_num = number block_number
    header ← unwrap (b.header block_num)
    body ← unwrap (b.body block_num)
    justifications ← unwrap (b.justifications block_num)
    returned (assemble header body justifications)

  unfoldable pub get_state : BlockId → Result ChainError S
  get_state block = b.state_at block

  -- A block is found exactly if the backend has its header and its body, and it is then made of
  -- these and of the justifications there.
  pub get_block_some_iff :
      (n : BlockNumber) (sb : SignedBlock)
      → (get_block n ≡ returned (some sb)) ↔ (
          (b.header (number n) ≡ ok (some sb.block.header))
          × (b.body (number n) ≡ ok (some sb.block.extrinsics))
          × (b.justifications (number n) ≡ ok sb.justifications))
  unfolding get_block
  get_block_some_iff n sb = (λ h. ground arith, λ h. ground arith)
