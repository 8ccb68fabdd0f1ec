-- ===== src/Client/ChangesTrie.antt =====
-- `require_changes_trie`, `max_key_changes_range` and `key_changes` of
-- client/service/src/client/client.rs.
use sub_archive.Prelude.{
  ℕ, zero, suc, ◌+◌, List, [], ◌∷◌, ◌++◌, Option, none, some, Bool, true, false, Result, ok, err,
  ◌>>=◌, ltb, leb, if◌then◌else◌,
}
use sub_archive.Chain.{
  Bytes, Hash, BlockNumber, BlockId, hash, number, Header, ChainError, unknown_block,
  changes_tries_not_supported, changes_trie_access_failed,
}
use sub_archive.Client.Backend.{Blockchain}

-- `ChangesTrieConfigurationRange` of the storage: the block where the configuration began, the one
-- where it ended, and the configuration itself, if changes tries were on.
pub record ConfigRange : Type 0 where
  pub zero_number : BlockNumber
  pub zero_hash : Hash
  pub end : Option (BlockNumber × Hash)
  pub config : Option Bytes

-- An active configuration: its first block, where it ended, and what it is.
pub record Active : Type 0 where
  pub zero_number : BlockNumber
  pub end : Option (BlockNumber × Hash)
  pub config : Bytes

-- What `key_changes` of the state machine is asked about one configuration.
pub record Query : Type 0 where
  pub active : Active
  pub range_first : BlockNumber
  pub anchor : BlockNumber × Hash
  pub best_number : BlockNumber
  pub storage_key : Option Bytes
  pub key : Bytes

pub record TrieStorage : Type 0 where
  pub configuration_at : BlockId → Result ChainError ConfigRange
  pub oldest_pruned_digest_range_end : BlockNumber
  pub key_changes_in : Query → Option (List (BlockNumber × ℕ))

abbrev pub max : ℕ → ℕ → ℕ
max a b = if leb a b then b else a

abbrev pub expected : {A : Type 0} → Option A → Result ChainError A
expected none = err unknown_block
expected (some a) = ok a

abbrev pub active : ConfigRange → Bytes → Active
active range config = record { zero_number = range.zero_number; end = range.end; config = config }

abbrev with_storage :
    TrieStorage
    → Option (Result ChainError (List Active))
    → Option (Result ChainError (TrieStorage × List Active))
with_storage storage none = none
with_storage storage (some (err e)) = some (err e)
with_storage storage (some (ok configs)) = some (ok (storage, configs))

abbrev pub last_config : List Active → Option Active
last_config [] = none
last_config (c ∷ []) = some c
last_config (c ∷ d ∷ rest) = last_config (d ∷ rest)

abbrev pub from_first : TrieStorage → BlockId → Option Active → Option (BlockNumber × BlockId)
from_first storage last none = none
from_first storage last (some c) =
    some (max c.zero_number storage.oldest_pruned_digest_range_end, last)

abbrev available :
    BlockId
    → Option (Result ChainError (TrieStorage × List Active))
    → Option (Result ChainError (Option (BlockNumber × BlockId)))
available last none = none
available last (some (err e)) = some (ok none)
available last (some (ok (storage, configs))) =
    some (ok (from_first storage last (last_config configs)))

abbrev anchor_of : BlockNumber → Hash → Option (BlockNumber × Hash) → BlockNumber × Hash
anchor_of last_number last_hash none = (last_number, last_hash)
anchor_of last_number last_hash (some (end_number, end_hash)) =
    if ltb end_number last_number then (end_number, end_hash) else (last_number, last_hash)

abbrev read : Option (List (BlockNumber × ℕ)) → Result ChainError (List (BlockNumber × ℕ))
read none = err changes_trie_access_failed
read (some found) = ok found

unfoldable pub key_changes_each :
    TrieStorage
    → (Active → Query)
    → List Active
    → List (BlockNumber × ℕ)
    → Result ChainError (List (BlockNumber × ℕ))
key_changes_each storage ask [] result = ok result
key_changes_each storage ask (c ∷ configs) result = do
  result_range ← read (storage.key_changes_in (ask c))
  key_changes_each storage ask configs (result ++ result_range)

abbrev each_config :
    (Active → Query)
    → Option (Result ChainError (TrieStorage × List Active))
    → Option (Result ChainError (List (BlockNumber × ℕ)))
each_config ask none = none
each_config ask (some (err e)) = some (err e)
each_config ask (some (ok (storage, configs))) = some (key_changes_each storage ask configs [])

module _ (chain : Blockchain) where
  abbrev pub expect_header : Hash → Result ChainError Header
  expect_header h = do found ← chain.header (hash h); expected found

  abbrev pub expect_block_number_from_id : BlockId → Result ChainError BlockNumber
  expect_block_number_from_id (hash h) = do found ← chain.number_of h; expected found
  expect_block_number_from_id (number n) = ok n

  abbrev pub expect_block_hash_from_id : BlockId → Result ChainError Hash
  expect_block_hash_from_id (hash h) = ok h
  expect_block_hash_from_id (number n) = do found ← chain.hash_of n; expected found

  -- The loop, on fuel: `none` where the fuel has run out.
  unfoldable pub descend :
      TrieStorage
      → BlockNumber
      → Bool
      → ℕ
      → Hash
      → List Active
      → Option (Result ChainError (List Active))
  descend storage first fail_if_disabled zero current configs = none
  descend storage first fail_if_disabled (suc fuel) current configs =
      elim (storage.configuration_at (hash current)) [
        | err e ↦ some (err e)
        | ok range ↦ elim range.config [
          | none ↦ some (if fail_if_disabled then err changes_tries_not_supported else ok configs)
          | some config ↦ elim (ltb range.zero_number first) [
            | true ↦ some (ok (configs ++ active range config ∷ []))
            | false ↦ elim (expect_header range.zero_hash) [
              | err e ↦ some (err e)
              | ok header ↦
                  descend storage first fail_if_disabled fuel header.parent_hash
                    (configs ++ active range config ∷ [])
            ]
          ]
        ]
      ]

  -- The backend's storage of changes tries, where it has one.
  unfoldable pub require_changes_trie :
      Option TrieStorage
      → ℕ
      → BlockNumber
      → Hash
      → Bool
      → Option (Result ChainError (TrieStorage × List Active))
  require_changes_trie none fuel first last fail_if_disabled =
      some (err changes_tries_not_supported)
  require_changes_trie (some storage) fuel first last fail_if_disabled =
      with_storage storage (descend storage first fail_if_disabled fuel last [])

  unfoldable pub max_key_changes_range :
      Option TrieStorage
      → ℕ
      → BlockNumber
      → BlockId
      → Option (Result ChainError (Option (BlockNumber × BlockId)))
  max_key_changes_range trie fuel first last = elim (expect_block_number_from_id last) [
    | err e ↦ some (err e)
    | ok last_number ↦ elim (expect_block_hash_from_id last) [
      | err e ↦ some (err e)
      | ok last_hash ↦
          if ltb last_number first
          then some (err changes_trie_access_failed)
          else available last (require_changes_trie trie fuel first last_hash false)
    ]
  ]

  abbrev pub query : BlockNumber → BlockNumber → Hash → Option Bytes → Bytes → Active → Query
  query first last_number last_hash storage_key key c = record {
    active = c;
    range_first = max first (c.zero_number + 1);
    anchor = anchor_of last_number last_hash c.end;
    best_number = chain.info.best_number;
    storage_key = storage_key;
    key = key;
  }

  unfoldable pub key_changes :
      Option TrieStorage
      → ℕ
      → BlockNumber
      → BlockId
      → Option Bytes
      → Bytes
      → Option (Result ChainError (List (BlockNumber × ℕ)))
  key_changes trie fuel first last storage_key key = elim (expect_block_number_from_id last) [
    | err e ↦ some (err e)
    | ok last_number ↦ elim (expect_block_hash_from_id last) [
      | err e ↦ some (err e)
      | ok last_hash ↦
          each_config (query first last_number last_hash storage_key key)
            (require_changes_trie trie fuel first last_hash true)
    ]
  ]
