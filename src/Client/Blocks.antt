-- ===== src/Client/Blocks.antt =====
-- `header`, `body` and `block` of client/service/src/client/client.rs, beside `get_block` of
-- archive/traits/src/local_db.rs, which does the same.
use sub_archive.Prelude.{
  List, Option, none, some, Result, ok, err, ◌>>=◌, returned, panicked, ◌≡◌, ◌↔◌, arith,
}
use sub_archive.Chain.{
  Header, Extrinsic, Justification, SignedBlock, BlockId, number, BlockNumber, ChainError,
}
use sub_archive.Traits.LocalDb.{LocalBackend, get_block}

abbrev signed :
    Option Header → Option (List Extrinsic) → Option (List Justification) → Option SignedBlock
signed (some header) (some extrinsics) justifications = some (record {
  block = record { header = header; extrinsics = extrinsics };
  justifications = justifications;
})
signed _ _ _ = none

module _ {S : Type 0} (b : LocalBackend S) where
  -- `BlockBackend::block`
  unfoldable pub block : BlockId → Result ChainError (Option SignedBlock)
  block id = do
    header ← b.header id
    body ← b.body id
    justifications ← b.justifications id
    ok (signed header body justifications)

  -- The archive's `get_block` answers what the client's `block` answers under the number, and panics
  -- where that is an error.
  pub get_block-block :
      (n : BlockNumber)
      → ((o : Option SignedBlock) → (get_block b n ≡ returned o) ↔ (block (number n) ≡ ok o))
        × ((e : ChainError) → block (number n) ≡ err e → get_block b n ≡ panicked)
  unfolding block get_block
  get_block-block n = (λ o. (λ h. ground arith, λ h. ground arith), λ e h. ground arith)
