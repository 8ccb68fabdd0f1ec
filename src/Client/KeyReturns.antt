-- ===== src/Client/KeyReturns.antt =====
-- That the queries of the changes tries return, given fuel for the walk through the configurations.
use sub_archive.Prelude.{
  ℕ, ◌<◌, List, [], Option, none, some, true, false, Result, ok, err, ◌>>=◌, ltb, ◌≡◌, inl, inr,
  arith, Result-cases, Bool-cases,
}
use sub_archive.Chain.{Bytes, Hash, BlockNumber, BlockId, ChainError, changes_trie_access_failed}
use sub_archive.Client.Backend.{Blockchain}
use sub_archive.Client.ChangesTrie.{
  TrieStorage, expect_block_number_from_id, expect_block_hash_from_id, require_changes_trie,
  max_key_changes_range, key_changes, key_changes_each, query, last_config, from_first,
}
use sub_archive.Client.TrieLaws.{GoesBack, descend-returns}

module _ (chain : Blockchain) (storage : TrieStorage) where
  module _ (depth : Hash → ℕ) (back : GoesBack chain storage depth) where
    key_changes-returns :
        (fuel : ℕ) (first : BlockNumber) (last : BlockId) (storage_key : Option Bytes) (key : Bytes)
        → ((h : Hash) → expect_block_hash_from_id chain last ≡ ok h → depth h < fuel)
        → (r : Result ChainError (List (BlockNumber × ℕ))) × (key_changes chain
              (some storage)
              fuel
              first
              last
              storage_key
              key
            ≡ some r)
    unfolding key_changes require_changes_trie
    key_changes-returns fuel first last storage_key key enough =
        elim (Result-cases (expect_block_number_from_id chain last)) [
          | inr (x, q) ↦ (err x, ground (arith, q))
          | inl (n, q) ↦ elim (Result-cases (expect_block_hash_from_id chain last)) [
            | inr (x, r) ↦ (err x, ground (arith, q, r))
            | inl (h, r) ↦
                let (walked, d) =
                  descend-returns chain storage first depth true fuel h [] back (enough h r) in
                (
                  walked >>= (λ configs.
                      key_changes_each storage (query chain first n h storage_key key) configs []),
                  ground (arith, q, r, d),
                )
          ]
        ]

    max_key_changes_range-returns :
        (fuel : ℕ) (first : BlockNumber) (last : BlockId)
        → ((h : Hash) → expect_block_hash_from_id chain last ≡ ok h → depth h < fuel)
        → (r : Result ChainError (Option (BlockNumber × BlockId))) × (max_key_changes_range chain
              (some storage)
              fuel
              first
              last
            ≡ some r)
    unfolding max_key_changes_range require_changes_trie
    max_key_changes_range-returns fuel first last enough =
        elim (Result-cases (expect_block_number_from_id chain last)) [
          | inr (x, q) ↦ (err x, ground (arith, q))
          | inl (n, q) ↦ elim (Result-cases (expect_block_hash_from_id chain last)) [
            | inr (x, r) ↦ (err x, ground (arith, q, r))
            | inl (h, r) ↦ elim (Bool-cases (ltb n first)) [
              | inl lt ↦ (err changes_trie_access_failed, ground (arith, q, r, lt))
              | inr ge ↦
                  let (walked, d) =
                    descend-returns chain storage first depth false fuel h [] back (enough h r) in
                  (
                    ok (elim walked [
                      | err x ↦ none
                      | ok configs ↦ from_first storage last (last_config configs)
                    ]),
                    ground (arith, q, r, ge, d),
                  )
            ]
          ]
        ]

    -- With more fuel than the last block is deep, both queries return.
    pub queries-return :
        (fuel : ℕ) (first : BlockNumber) (last : BlockId) (storage_key : Option Bytes) (key : Bytes)
        → ((h : Hash) → expect_block_hash_from_id chain last ≡ ok h → depth h < fuel)
        → ((r : Result ChainError (List (BlockNumber × ℕ))) × (key_changes chain
                (some storage)
                fuel
                first
                last
                storage_key
                key
              ≡ some r))
          × ((r : Result ChainError (Option (BlockNumber × BlockId))) × (max_key_changes_range chain
                  (some storage)
                  fuel
                  first
                  last
                ≡ some r))
    queries-return fuel first last storage_key key enough = (
      key_changes-returns fuel first last storage_key key enough,
      max_key_changes_range-returns fuel first last enough,
    )
