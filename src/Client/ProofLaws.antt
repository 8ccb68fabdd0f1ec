-- ===== src/Client/ProofLaws.antt =====
-- What a proof of a key's changes carries.
use sub_archive.Prelude.{
  ℕ, List, [], Option, some, true, Result, ok, err, nat_eq, map, ◌≡◌, inl, inr, arith, Result-cases,
  Option-cases,
}
use sub_archive.Chain.{Bytes, Hash, BlockNumber, DigestItem, hash, ChainError}
use sub_archive.Client.Backend.{Blockchain}
use sub_archive.Client.ChangesTrie.{
  Active, Query, TrieStorage, expect_block_number_from_id, require_changes_trie,
}
use sub_archive.Client.Proofs.{
  Cht, ChangesProof, ProofStorage, prove_each, proof_query, proof_over, changes_trie_roots_proof,
  min_of, key_changes_proof_with_cht_size,
}
use sub_archive.Client.RootRecord.{
  values, answered_each, IsRecord, nothing_recorded, prove_each-IsRecord,
}

module _ (chain : Blockchain) (cht : Cht) (as_changes_trie_root : DigestItem → Option Hash)
    (s : ProofStorage) where
  abbrev pub asks :
      BlockNumber → Hash → BlockNumber → Option Bytes → Bytes → Active → Result ChainError Query
  asks = proof_query chain cht as_changes_trie_root

  -- What a proof holds that is made over these configurations.
  pub record IsProof (first_number : BlockNumber) (last min : Hash) (storage_key : Option Bytes)
      (key : Bytes) (cht_size : BlockNumber) (configs : List Active) (p : ChangesProof)
      : Type 0 where
    pub min_number : BlockNumber
    pub known_from : expect_block_number_from_id chain (hash min) ≡ ok min_number
    pub same_proof :
        values s (asks first_number last p.max_block storage_key key) configs ≡ some p.proof
    pub roots_needed :
        IsRecord min_number
          (answered_each s (asks first_number last p.max_block storage_key key) configs [])
          p.roots
    pub roots_proved :
        changes_trie_roots_proof chain cht as_changes_trie_root cht_size
          (map (λ (r : BlockNumber × Hash). r.0) p.roots)
        ≡ ok p.roots_proof

  proof_over-IsProof :
      (first_number : BlockNumber) (last min max : Hash) (storage_key : Option Bytes) (key : Bytes)
      (cht_size : BlockNumber) (configs : List Active) (p : ChangesProof)
      → proof_over chain cht as_changes_trie_root s first_number last min max storage_key key
          cht_size configs
        ≡ ok p
      → IsProof first_number last min storage_key key cht_size configs p
  unfolding proof_over
  proof_over-IsProof first_number last min max storage_key key cht_size configs p e =
      elim (Result-cases (expect_block_number_from_id chain (hash min))) [
        | inr (x, q) ↦ absurd (ground (arith, q, e))
        | inl (min_number, q) ↦ elim (Result-cases (expect_block_number_from_id chain (hash max))) [
          | inr (x, q') ↦ absurd (ground (arith, q, q', e))
          | inl (max_number, q') ↦
              let ask =
                asks first_number last (min_of chain.info.best_number max_number) storage_key key in
              elim (Result-cases (prove_each s min_number ask configs [] [])) [
                | inr (x, f) ↦ absurd (ground (arith, q, q', f, e))
                | inl ((out, roots), f) ↦
                    elim (Result-cases (
                      changes_trie_roots_proof chain cht as_changes_trie_root cht_size
                        (map (λ (r : BlockNumber × Hash). r.0) roots))) [
                          | inr (x, r) ↦ absurd (ground (arith, q, q', f, r, e))
                          | inl (roots_proof, r) ↦
                              let (rest, (found, out_is, kept)) =
                                prove_each-IsRecord s min_number ask configs [] out [] roots []
                                  (nothing_recorded min_number) f in
                              let p_is : p ≡ record {
                                max_block = min_of chain.info.best_number max_number;
                                proof = out;
                                roots = roots;
                                roots_proof = roots_proof;
                              } =
                                ground (arith, q, q', f, r, e) in
                              rw p_is (record {
                                min_number = min_number;
                                known_from = q;
                                same_proof = ground (arith, found, out_is);
                                roots_needed = kept;
                                roots_proved = r;
                              })
                        ]
              ]
        ]
      ]

  -- A proof of a key's changes is what the computation yields on the storage itself, over the
  -- configurations from the last block back; it holds, for each block below the one that the requester
  -- knows the chain from, the root that the computation was last answered, and no other root; and its
  -- proof of the roots is about exactly these blocks.
  pub key_changes_proof-IsProof :
      (trie : Option TrieStorage) (fuel : ℕ) (first last min max : Hash)
      (storage_key : Option Bytes) (key : Bytes) (cht_size : BlockNumber) (p : ChangesProof)
      → key_changes_proof_with_cht_size chain cht as_changes_trie_root trie s fuel first last min
          max storage_key key cht_size
        ≡ some (ok p)
      → (first_number : BlockNumber) × ((configs : List Active) × ((storage : TrieStorage)
            × ((expect_block_number_from_id chain (hash first) ≡ ok first_number)
                × (require_changes_trie chain trie fuel first_number last true
                    ≡ some (ok (storage, configs)))
                × IsProof first_number last min storage_key key cht_size configs p)))
  unfolding key_changes_proof_with_cht_size
  key_changes_proof-IsProof trie fuel first last min max storage_key key cht_size p e =
      elim (Result-cases (expect_block_number_from_id chain (hash first))) [
        | inr (x, q) ↦ absurd (ground (arith, q, e))
        | inl (n, q) ↦ elim (Option-cases (require_changes_trie chain trie fuel n last true)) [
          | inl out_of ↦ absurd (ground (arith, q, out_of, e))
          | inr (err x, d) ↦ absurd (ground (arith, q, d, e))
          | inr (ok (storage, configs), d) ↦ (
            n,
            (
              configs,
              (
                storage,
                (
                  q,
                  d,
                  proof_over-IsProof n last min max storage_key key cht_size configs p
                      (ground (arith, q, d, e)),
                ),
              ),
            ),
          )
        ]
      ]
