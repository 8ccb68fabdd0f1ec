-- ===== src/Client/Status.antt =====
-- `Client` of client/service/src/client/client.rs, and `block_status`, `revert`, `unsafe_revert`.
use sub_archive.Prelude.{
  ℕ, List, [], ◌∷◌, Option, none, some, Bool, true, false, ◌≡◌, ◌↔◌, arith, nat_beq, Result, ok,
  err, ◌>>=◌, if◌then◌else◌,
}
use sub_archive.Chain.{Hash, BlockNumber, BlockId, hash, number, ChainError}
use sub_archive.Client.Rules.{BlockRules, mark_bad}
use sub_archive.Client.Backend.{Blockchain}

-- The state that the checks of the client read: the blockchain as it is committed, the block that is
-- being imported, and the rules.
pub record Client : Type 0 where
  pub blockchain : Blockchain
  pub importing_block : Option Hash
  pub block_rules : BlockRules

-- `sp_consensus::BlockStatus`
pub data BlockStatus : Type 0 where
  queued : BlockStatus
  in_chain_with_state : BlockStatus
  in_chain_pruned : BlockStatus
  known_bad : BlockStatus
  unknown : BlockStatus

-- `importing_block` holds the hash.
abbrev pub is_importing : Client → BlockId → Bool
is_importing c (hash h) = elim c.importing_block [
  | some importing ↦ nat_beq h importing
  | none ↦ false
]
is_importing c (number n) = false

abbrev pub with_number : Hash → Option BlockNumber → Option (Hash × BlockNumber)
with_number h none = none
with_number h (some n) = some (h, n)

abbrev pub with_hash : BlockNumber → Option Hash → Option (Hash × BlockNumber)
with_hash n none = none
with_hash n (some h) = some (h, n)

abbrev pub hash_and_number : Client → BlockId → Result ChainError (Option (Hash × BlockNumber))
hash_and_number c (hash h) = do n ← c.blockchain.number_of h; ok (with_number h n)
hash_and_number c (number n) = do h ← c.blockchain.hash_of n; ok (with_hash n h)

abbrev pub chain_status : Client → Option (Hash × BlockNumber) → BlockStatus
chain_status c none = unknown
chain_status c (some (h, n)) =
    if c.blockchain.have_state_at h n then in_chain_with_state else in_chain_pruned

unfoldable pub block_status : Client → BlockId → Result ChainError BlockStatus
block_status c id =
    let in_chain = hash_and_number c id >>= (λ found. ok (chain_status c found)) in
    if is_importing c id then ok queued else in_chain

-- `backend.revert(n, revert_finalized)` answers how many blocks it reverted, and which; it may leave
-- another blockchain.
abbrev pub Revert : Type 0
Revert = ℕ → Bool → Blockchain → Result ChainError (ℕ × List Hash) × Blockchain

abbrev pub mark_all : List Hash → BlockRules → BlockRules
mark_all [] rules = rules
mark_all (b ∷ reverted) rules = mark_all reverted (mark_bad b rules)

abbrev blacklisted : Bool → Result ChainError (ℕ × List Hash) → BlockRules → BlockRules
blacklisted true (ok (n, reverted)) rules = mark_all reverted rules
blacklisted _ _ rules = rules

abbrev first : Result ChainError (ℕ × List Hash) → Result ChainError ℕ
first (ok (n, _)) = ok n
first (err e) = err e

abbrev pub revert : Revert → ℕ → Client → Result ChainError ℕ × Client
revert backend n c =
    let (r, chain) = backend n false c.blockchain in (first r, record c { blockchain = chain })

abbrev pub unsafe_revert : Revert → ℕ → Bool → Client → Result ChainError ℕ × Client
unsafe_revert backend n blacklist c =
    let (r, chain) = backend n true c.blockchain in
    (first r, record c { blockchain = chain; block_rules = blacklisted blacklist r c.block_rules })

-- The client reports a hash as queued exactly while it imports that block.
pub block_status-queued_iff :
    (c : Client) (h : Hash) → (block_status c (hash h) ≡ ok queued) ↔ (c.importing_block ≡ some h)
unfolding block_status
block_status-queued_iff c h = ground arith
