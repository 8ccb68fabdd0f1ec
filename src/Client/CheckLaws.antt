-- ===== src/Client/CheckLaws.antt =====
-- Which blocks `check_block` admits, and what a revert with a blacklist does to it.
use sub_archive.Prelude.{◌≡◌, ◌↔◌, ◌⊎◌, true, false, List, [], ◌∷◌, ok, arith, elem, ℕ}
use sub_archive.Chain.{Hash, hash}
use sub_archive.Client.Rules.{
  BlockRules, lookup, fork_allows, lookup-not_special_iff, mark_bad, elem-mark_bad,
}
use sub_archive.Client.Backend.{imported, known_bad}
use sub_archive.Client.Status.{Client, BlockStatus, block_status, mark_all, unsafe_revert, Revert}
use sub_archive.Client.Check.{BlockCheckParams, check_block}

-- The block's own status lets it be imported.
abbrev pub IsImportable : Client → BlockCheckParams → Type 0
IsImportable c p =
    (block_status c (hash p.block_hash) ≡ ok BlockStatus.unknown)
    ⊎ ((p.import_existing ≡ true)
        × ((block_status c (hash p.block_hash) ≡ ok BlockStatus.in_chain_with_state)
            ⊎ (block_status c (hash p.block_hash) ≡ ok BlockStatus.queued)))

-- The parent is there, with its state or with leave to do without.
abbrev pub HasParent : Client → BlockCheckParams → Type 0
HasParent c p =
    (block_status c (hash p.parent_hash) ≡ ok BlockStatus.in_chain_with_state)
    ⊎ ((block_status c (hash p.parent_hash) ≡ ok BlockStatus.queued)
        ⊎ ((p.allow_missing_state ≡ true)
            × (block_status c (hash p.parent_hash) ≡ ok BlockStatus.in_chain_pruned)))

-- `check_block` admits a block exactly if the forks allow its hash, it is not marked bad, it is
-- unknown, or in the chain with its state or queued while existing blocks may be imported, and its
-- parent has its state, is queued, or is pruned while a missing state is allowed.
pub check_block-imported_iff :
    (c : Client) (p : BlockCheckParams)
    → (check_block c p ≡ ok (imported false)) ↔ (
        (fork_allows c.block_rules p.number p.block_hash ≡ true)
        × (elem p.block_hash c.block_rules.bad ≡ false)
        × IsImportable c p
        × HasParent c p)
unfolding check_block
check_block-imported_iff c p =
    ground (arith, lookup-not_special_iff c.block_rules p.number p.block_hash)

elem-mark_all_keeps :
    (k : Hash) (reverted : List Hash) (rules : BlockRules)
    → elem k rules.bad ≡ true
    → elem k (mark_all reverted rules).bad ≡ true
elem-mark_all_keeps k [] rules e = e
elem-mark_all_keeps k (b ∷ reverted) rules e =
    elem-mark_all_keeps k reverted (mark_bad b rules) (ground (arith, elem-mark_bad b k rules))

elem-mark_all :
    (k : Hash) (reverted : List Hash) (rules : BlockRules)
    → elem k reverted ≡ true
    → elem k (mark_all reverted rules).bad ≡ true
elem-mark_all k [] rules e = absurd (ground arith)
elem-mark_all k (b ∷ reverted) rules e = ground (
  arith,
  elem-mark_bad b k rules,
  elem-mark_all_keeps k reverted (mark_bad b rules),
  elem-mark_all k reverted (mark_bad b rules),
)

bad_is_refused :
    (c : Client) (p : BlockCheckParams)
    → elem p.block_hash c.block_rules.bad ≡ true
    → check_block c p ≡ ok known_bad
unfolding check_block lookup
bad_is_refused c p e = ground arith

-- After a revert that succeeds and blacklists, `check_block` refuses every block that was reverted,
-- as known to be bad.
pub unsafe_revert-refuses :
    (backend : Revert) (n count : ℕ) (reverted : List Hash) (c : Client) (p : BlockCheckParams)
    → (backend n true c.blockchain).0 ≡ ok (count, reverted)
    → elem p.block_hash reverted ≡ true
    → check_block (unsafe_revert backend n true c).1 p ≡ ok known_bad
unsafe_revert-refuses backend n count reverted c p e h =
    bad_is_refused (unsafe_revert backend n true c).1 p
      (rw e (elem-mark_all p.block_hash reverted c.block_rules h))
