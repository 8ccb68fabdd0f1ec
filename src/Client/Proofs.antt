-- ===== src/Client/Proofs.antt =====
-- The proofs of headers and of a key's changes: `header_proof_with_cht_size`,
-- `key_changes_proof_with_cht_size` and the functions under them, of
-- client/service/src/client/client.rs.
use sub_archive.Prelude.{
  ℕ, ◌+◌, List, [], ◌∷◌, ◌++◌, Option, none, some, true, Result, ok, err, ◌>>=◌, ok_or, ltb, leb,
  map, if◌then◌else◌,
}
use sub_archive.Chain.{
  Bytes, Hash, BlockNumber, DigestItem, BlockId, hash, number, Header, ChainError, backend,
  changes_trie_access_failed,
}
use sub_archive.Client.Backend.{Blockchain}
use sub_archive.Client.ChangesTrie.{
  Active, Query, TrieStorage, expected, expect_block_number_from_id, require_changes_trie,
}

-- A computation that asks for the roots of changes tries, at an anchor and a block, and ends in a value
-- or in an error. An answer may be an error, or that there is no root.
pub data Access (A : Type 0) : Type 0 where
  done : Option A → Access A
  ask_root : BlockNumber × Hash → BlockNumber → (Option (Option Hash) → Access A) → Access A

-- The canonical hash tries of sc_client_api; a `StorageProof` is bytes. The headers or roots that a proof
-- is built of are given by their position in the range.
pub record Cht : Type 0 where
  pub block_to_cht_number : BlockNumber → BlockNumber → Option BlockNumber
  pub start_number : BlockNumber → BlockNumber → BlockNumber
  pub build_proof :
      BlockNumber
      → BlockNumber
      → List BlockNumber
      → (ℕ → Result ChainError (Option Hash))
      → Result ChainError Bytes
  pub groups : BlockNumber → List BlockNumber → List (BlockNumber × List BlockNumber)
  pub merge : List Bytes → Bytes

-- `ChangesProof`
pub record ChangesProof : Type 0 where
  pub max_block : BlockNumber
  pub proof : List Bytes
  pub roots : List (BlockNumber × Hash)
  pub roots_proof : Bytes

-- What the proof reads of the storage: `root`, and `key_changes_proof` of the state machine.
pub record ProofStorage : Type 0 where
  pub root : BlockNumber × Hash → BlockNumber → Option (Option Hash)
  pub key_changes_proof_in : Query → Access (List Bytes)

-- `BTreeMap::insert`
unfoldable pub btree_insert : {V : Type 0} → ℕ → V → List (ℕ × V) → List (ℕ × V)
btree_insert k v [] = (k, v) ∷ []
btree_insert k v ((j, w) ∷ rest) =
    let later = btree_insert k v rest in
    if ltb k j then (k, v) ∷ (j, w) ∷ rest else if ltb j k then (j, w) ∷ later else (k, v) ∷ rest

-- `AccessedRootsRecorder::root`: a root below `min` is kept.
abbrev pub recorded :
    BlockNumber
    → BlockNumber
    → Option (Option Hash)
    → List (BlockNumber × Hash)
    → List (BlockNumber × Hash)
recorded min block (some (some root)) roots =
    if ltb block min then btree_insert block root roots else roots
recorded min block (some none) roots = roots
recorded min block none roots = roots

unfoldable pub with_recorder :
    {A : Type 0}
    → (BlockNumber × Hash → BlockNumber → Option (Option Hash))
    → BlockNumber
    → Access A
    → List (BlockNumber × Hash)
    → Option A × List (BlockNumber × Hash)
with_recorder root min (done r) roots = (r, roots)
with_recorder root min (ask_root anchor block continue) roots =
    with_recorder root min (continue (root anchor block))
      (recorded min block (root anchor block) roots)

-- The proofs for the configurations, one after the other.
abbrev pub extended :
    List Bytes
    → Option (List Bytes) × List (BlockNumber × Hash)
    → (List Bytes
        → List (BlockNumber × Hash)
        → Result ChainError (List Bytes × List (BlockNumber × Hash)))
    → Result ChainError (List Bytes × List (BlockNumber × Hash))
extended proof (none, roots) more = err changes_trie_access_failed
extended proof (some proof_range, roots) more = more (proof ++ proof_range) roots

unfoldable pub prove_each :
    ProofStorage
    → BlockNumber
    → (Active → Result ChainError Query)
    → List Active
    → List Bytes
    → List (BlockNumber × Hash)
    → Result ChainError (List Bytes × List (BlockNumber × Hash))
prove_each s min ask [] proof roots = ok (proof, roots)
prove_each s min ask (c ∷ configs) proof roots =
    let more = prove_each s min ask configs in
    elim (ask c) [
      | err e ↦ err e
      | ok query ↦
          extended proof (with_recorder s.root min (s.key_changes_proof_in query) roots) more
    ]

abbrev pub min_of : ℕ → ℕ → ℕ
min_of a b = if leb a b then a else b

module _ (chain : Blockchain) (cht : Cht) where
  unfoldable pub header_proof_with_cht_size :
      BlockId → BlockNumber → Result ChainError (Header × Bytes)
  header_proof_with_cht_size id cht_size = do
    found ← chain.header id
    header ← expected found
    cht_num ← ok_or backend (cht.block_to_cht_number cht_size header.number)
    proof ←
        cht.build_proof cht_size cht_num (header.number ∷ [])
          (λ i. chain.hash_of (cht.start_number cht_size cht_num + i))
    ok (header, proof)

  module _ (as_changes_trie_root : DigestItem → Option Hash) where
    -- `digest().log(..)`: the first item that is a root.
    unfoldable pub log : List DigestItem → Option Hash
    log [] = none
    log (item ∷ items) =
        let later = log items in
        elim (as_changes_trie_root item) [ some root ↦ some root | none ↦ later ]

    abbrev root_in : Option Header → Option Hash
    root_in none = none
    root_in (some header) = log header.digest

    abbrev pub root_at : BlockNumber → Result ChainError (Option Hash)
    root_at num = do found ← chain.header (number num); ok (root_in found)

    unfoldable pub changes_trie_roots_proof_at_cht :
        BlockNumber → BlockNumber → List BlockNumber → Result ChainError Bytes
    changes_trie_roots_proof_at_cht cht_size cht_num blocks =
        cht.build_proof cht_size cht_num blocks
          (λ i. root_at (cht.start_number cht_size cht_num + i))

    unfoldable pub prove_groups :
        BlockNumber
        → List (BlockNumber × List BlockNumber)
        → List Bytes
        → Result ChainError (List Bytes)
    prove_groups cht_size [] proofs = ok proofs
    prove_groups cht_size ((cht_num, cht_blocks) ∷ groups) proofs = do
      cht_proof ← changes_trie_roots_proof_at_cht cht_size cht_num cht_blocks
      prove_groups cht_size groups (proofs ++ cht_proof ∷ [])

    unfoldable pub changes_trie_roots_proof :
        BlockNumber → List BlockNumber → Result ChainError Bytes
    changes_trie_roots_proof cht_size blocks = do
      proofs ← prove_groups cht_size (cht.groups cht_size blocks) []
      ok (cht.merge proofs)

    abbrev pub proof_query :
        BlockNumber → Hash → BlockNumber → Option Bytes → Bytes → Active → Result ChainError Query
    proof_query first_number last max_number storage_key key c = do
      last_number ← expect_block_number_from_id chain (hash last)
      ok (record {
        active = c;
        range_first = first_number;
        anchor = (last_number, last);
        best_number = max_number;
        storage_key = storage_key;
        key = key;
      })

    -- With the configurations that were found.
    unfoldable pub proof_over :
        ProofStorage
        → BlockNumber
        → Hash
        → Hash
        → Hash
        → Option Bytes
        → Bytes
        → BlockNumber
        → List Active
        → Result ChainError ChangesProof
    proof_over s first_number last min max storage_key key cht_size configs = do
      min_number ← expect_block_number_from_id chain (hash min)
      best_of_max ← expect_block_number_from_id chain (hash max)
      found ←
          prove_each s min_number
            (proof_query first_number last (min_of chain.info.best_number best_of_max) storage_key
              key)
            configs [] []
      roots_proof ←
          changes_trie_roots_proof cht_size (map (λ (p : BlockNumber × Hash). p.0) found.1)
      ok (record {
        max_block = min_of chain.info.best_number best_of_max;
        proof = found.0;
        roots = found.1;
        roots_proof = roots_proof;
      })

    abbrev pub proof_with :
        (List Active → Result ChainError ChangesProof)
        → Option (Result ChainError (TrieStorage × List Active))
        → Option (Result ChainError ChangesProof)
    proof_with prove none = none
    proof_with prove (some (err e)) = some (err e)
    proof_with prove (some (ok (storage, configs))) = some (prove configs)

    unfoldable pub key_changes_proof_with_cht_size :
        Option TrieStorage
        → ProofStorage
        → ℕ
        → Hash
        → Hash
        → Hash
        → Hash
        → Option Bytes
        → Bytes
        → BlockNumber
        → Option (Result ChainError ChangesProof)
    key_changes_proof_with_cht_size trie s fuel first last min max storage_key key cht_size =
        elim (expect_block_number_from_id chain (hash first)) [
          | err e ↦ some (err e)
          | ok first_number ↦
              proof_with (proof_over s first_number last min max storage_key key cht_size)
                (require_changes_trie chain trie fuel first_number last true)
        ]
