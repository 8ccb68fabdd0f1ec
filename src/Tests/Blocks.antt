-- ===== src/Tests/Blocks.antt =====
-- A backend that has block 1 with its body.
use sub_archive.Prelude.{[], none, some, ok, returned, ◌≡◌, refl}
use sub_archive.Chain.{SignedBlock}
use sub_archive.Traits.LocalDb.{LocalBackend, get_block}
use sub_archive.Tests.ClientData.{header_at}

abbrev reads : LocalBackend (Unit {0})
reads = record {
  header = λ id. ok (some (header_at 1));
  body = λ id. ok (some []);
  justifications = λ id. ok none;
  state_at = λ id. ok tt;
}

abbrev block_1 : SignedBlock
block_1 = record { block = record { header = header_at 1; extrinsics = [] }; justifications = none }

block_is_there : get_block reads 1 ≡ returned (some block_1)
unfolding get_block
block_is_there = refl
