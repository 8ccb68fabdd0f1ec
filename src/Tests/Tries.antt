-- ===== src/Tests/Tries.antt =====
-- Changes tries of a chain of five blocks, whose hashes are their numbers. The configuration changes with
-- block 3.
use sub_archive.Prelude.{
  ◌≤◌, Option, ℕ, ◌-◌, ◌<◌, List, [], ◌∷◌, none, some, true, Result, ok, err, ◌≡◌, ◌⊎◌, refl, arith,
  leb, if◌then◌else◌,
}
use sub_archive.Chain.{Hash, BlockNumber, BlockId, hash, number, Header, ChainError, unknown_block}
use sub_archive.Client.Backend.{Blockchain, in_chain}
use sub_archive.Client.ChangesTrie.{
  Active, ConfigRange, TrieStorage, descend, require_changes_trie, key_changes, key_changes_each,
  max_key_changes_range, expect_block_number_from_id, expect_block_hash_from_id,
}
use sub_archive.Client.TrieLaws.{GoesBack, IsWalk}
use sub_archive.Client.KeyReturns.{queries-return}
use sub_archive.Client.KeyChanges.{
  Answers, IsQuery, key_changes-reads, max_key_changes_range-agrees,
}

abbrev pub header_of : ℕ → Header
header_of n = record {
  parent_hash = n - 1;
  number = n;
  state_root = 0;
  extrinsics_root = 0;
  digest = [];
}

abbrev pub chain : Blockchain
chain = record {
  status = λ h. ok in_chain;
  info = record {
    best_hash = 4;
    best_number = 4;
    finalized_hash = 4;
    finalized_number = 4;
    genesis_hash = 0;
  };
  last_finalized = ok 4;
  number_of = λ h. ok (some h);
  hash_of = λ n. ok (some n);
  header = λ id. elim id [ hash h ↦ ok (some (header_of h)) | number n ↦ ok (some (header_of n)) ];
  children = λ h. ok [];
  tree_route = λ a b. err unknown_block;
  have_state_at = λ h n. true;
}

abbrev pub range_at : ℕ → Result ChainError ConfigRange
range_at h =
    if leb 3 h
    then ok (record { zero_number = 3; zero_hash = 3; end = none; config = some (2 ∷ []) })
    else if leb 1 h
    then ok (record { zero_number = 1; zero_hash = 1; end = some (2, 2); config = some (1 ∷ []) })
    else err unknown_block

abbrev pub storage : TrieStorage
storage = record {
  configuration_at = λ id. elim id [ hash h ↦ range_at h | number n ↦ range_at n ];
  oldest_pruned_digest_range_end = 0;
  key_changes_in = λ q. some ((q.range_first, 0) ∷ []);
}

abbrev depth : Hash → ℕ
depth h = h

back : GoesBack chain storage depth
back h range header q r = ground arith

changes : key_changes chain (some storage) 5 2 (hash 4) none [] ≡ some (ok ((4, 0) ∷ (2, 0) ∷ []))
unfolding key_changes require_changes_trie descend key_changes_each
changes = refl

enough : (h : Hash) → expect_block_hash_from_id chain (hash 4) ≡ ok h → depth h < 5
enough h q = ground arith

fits : (n : BlockNumber) → expect_block_number_from_id chain (hash 4) ≡ ok n → 2 ≤ n
fits n q = ground arith

queries-return_example :
    ((r : Result ChainError (List (BlockNumber × ℕ))) × (key_changes chain
          (some storage)
          5
          2
          (hash 4)
          none
          []
        ≡ some r))
    × ((r : Result ChainError (Option (BlockNumber × BlockId))) × (max_key_changes_range chain
            (some storage)
            5
            2
            (hash 4)
          ≡ some r))
queries-return_example = queries-return chain storage depth back 5 2 (hash 4) none [] enough

key_changes-reads_example :
    (n : BlockNumber) × ((h : Hash) × ((configs : List Active) × ((expect_block_number_from_id chain
              (hash 4)
            ≡ ok n)
          × (expect_block_hash_from_id chain (hash 4) ≡ ok h)
          × IsWalk chain storage 2 h configs
          × Answers storage (IsQuery chain 2 n h none []) configs ((4, 0) ∷ (2, 0) ∷ []))))
key_changes-reads_example =
    key_changes-reads chain storage depth back 5 2 (hash 4) none [] ((4, 0) ∷ (2, 0) ∷ []) enough
      changes

max_key_changes_range-agrees_example :
    (start : BlockNumber) × ((max_key_changes_range chain (some storage) 5 2 (hash 4)
        ≡ some (ok (some (start, hash 4))))
      × ((start < 2) ⊎ (start ≡ 0)))
max_key_changes_range-agrees_example =
    max_key_changes_range-agrees chain storage depth back 5 2 (hash 4) none []
      ((4, 0) ∷ (2, 0) ∷ []) enough fits changes
