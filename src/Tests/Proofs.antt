-- ===== src/Tests/Proofs.antt =====
-- A proof of a key's changes whose computation asks for the roots of blocks 1, 3 and 1 again.
use sub_archive.Prelude.{◌+◌, List, [], ◌∷◌, Option, none, some, true, ok, ◌≡◌, refl, nat_eq}
use sub_archive.Chain.{Bytes, Hash, BlockNumber, DigestItem, hash}
use sub_archive.Client.ChangesTrie.{
  Active, TrieStorage, expect_block_number_from_id, require_changes_trie, descend,
}
use sub_archive.Client.Proofs.{
  Access, done, ask_root, Cht, ChangesProof, ProofStorage, btree_insert, with_recorder, prove_each,
  changes_trie_roots_proof_at_cht, prove_groups, changes_trie_roots_proof, proof_over,
  key_changes_proof_with_cht_size,
}
use sub_archive.Client.ProofLaws.{IsProof, key_changes_proof-IsProof}
use sub_archive.Tests.Tries.{chain, storage}

abbrev cht : Cht
cht = record {
  block_to_cht_number = λ size n. some 0;
  start_number = λ size n. 0;
  build_proof = λ size n blocks roots. ok blocks;
  groups = λ size blocks. (0, blocks) ∷ [];
  merge = λ proofs. elim proofs [ [] ↦ [] | p ∷ rest ↦ p ];
}

abbrev as_root : DigestItem → Option Hash
as_root item = none

abbrev computation : Access (List Bytes)
computation =
    ask_root (4, 4) 1
      (λ a. ask_root (4, 4) 3 (λ b. ask_root (2, 2) 1 (λ c. done (some ((7 ∷ []) ∷ [])))))

abbrev reads : ProofStorage
reads = record {
  root = λ anchor n. some (some (anchor.0 + 10));
  key_changes_proof_in = λ q. computation;
}

abbrev proof : ChangesProof
proof = record {
  max_block = 4;
  proof = (7 ∷ []) ∷ (7 ∷ []) ∷ [];
  roots = (1, 12) ∷ [];
  roots_proof = 1 ∷ [];
}

proved :
    key_changes_proof_with_cht_size chain cht as_root (some storage) reads 5 2 4 3 4 none [] 2
    ≡ some (ok proof)
unfolding key_changes_proof_with_cht_size proof_over require_changes_trie descend prove_each
    with_recorder btree_insert changes_trie_roots_proof prove_groups changes_trie_roots_proof_at_cht
proved = refl

key_changes_proof-IsProof_example :
    (first_number : BlockNumber) × ((configs : List Active) × ((found : TrieStorage)
        × ((expect_block_number_from_id chain (hash 2) ≡ ok first_number)
            × (require_changes_trie chain (some storage) 5 first_number 4 true
                ≡ some (ok (found, configs)))
            × IsProof chain cht as_root reads first_number 4 3 none [] 2 configs proof)))
key_changes_proof-IsProof_example =
    key_changes_proof-IsProof chain cht as_root reads (some storage) 5 2 4 3 4 none [] 2 proof
      proved
