-- ===== src/Client/Finality.antt =====
-- `apply_finality_with_block_hash` and `apply_finality` of client/service/src/client/client.rs.
use sub_archive.Prelude.{
  ℕ, ◌-◌, List, [], ◌∷◌, Option, none, some, Bool, true, false, not, Result, ok, err, nat_beq, leb,
  length, drop, if◌then◌else◌,
}
use sub_archive.Chain.{
  Hash, BlockId, hash, number, Justification, ChainError, not_in_finalized_chain, unknown_block,
}
use sub_archive.Client.Backend.{Blockchain, TreeRoute, mark_finalized, mark_head}
use sub_archive.Client.Operation.{
  Task, ◌>>=◌, Accepts, call, lift, fail, skip, assert, when, push_finalized,
}

-- `&enacted[..enacted.len() - 1]`
abbrev pub all_but_last : List Hash → List Hash
all_but_last [] = []
all_but_last (h ∷ []) = []
all_but_last (h ∷ k ∷ rest) = h ∷ all_but_last (k ∷ rest)

abbrev pub is_last : Hash → List Hash → Bool
is_last h [] = false
is_last h (k ∷ []) = nat_beq k h
is_last h (k ∷ j ∷ rest) = is_last h (j ∷ rest)

abbrev pub is_empty {ℓ} : {A : Type ℓ} → List A → Bool
is_empty [] = true
is_empty (x ∷ xs) = false

-- `MAX_TO_NOTIFY`
abbrev pub max_to_notify : ℕ
max_to_notify = 256

-- `&enacted[start..]` with `start = enacted.len() - min(enacted.len(), MAX_TO_NOTIFY)`
unfoldable pub to_notify : List Hash → List Hash
to_notify enacted =
    let len = length enacted in
    drop (len - (if leb len max_to_notify then len else max_to_notify)) enacted

module _ (chain : Blockchain) (accepts : Accepts) where
  unfoldable pub mark_each : List Hash → Task (Unit {0})
  mark_each [] = skip
  mark_each (h ∷ rest) = do _ ← call accepts (mark_finalized h none); mark_each rest

  -- Finalizes the blocks of the route, the block itself last.
  unfoldable pub mark_route : Hash → Option Justification → Bool → List Hash → Task (Unit {0})
  mark_route block justification notify enacted = do
    _ ← assert (not (is_empty enacted))
    _ ← mark_each (all_but_last enacted)
    _ ← assert (is_last block enacted)
    _ ← call accepts (mark_finalized block justification)
    when notify (push_finalized (to_notify enacted))

  -- The route from the last finalized block to the block has nothing to retract.
  unfoldable pub finalize_route :
      Hash → Option Justification → Hash → Bool → List Hash → Task (Unit {0})
  finalize_route block justification best_block notify enacted = do
    route_from_best ← lift (chain.tree_route best_block block)
    _ ← when (not (nat_beq route_from_best.common_block block)) (call accepts (mark_head block))
    mark_route block justification notify enacted

  unfoldable pub finalize_from :
      Hash → Option Justification → Hash → Bool → TreeRoute → Task (Unit {0})
  finalize_from block justification best_block notify route =
      if is_empty route.retracted
      then finalize_route block justification best_block notify route.enacted
      else fail not_in_finalized_chain

  unfoldable pub apply_finality_with_block_hash :
      Hash → Option Justification → Hash → Bool → Task (Unit {0})
  unfolding finalize_from
  apply_finality_with_block_hash block justification best_block notify = do
    last_finalized ← lift chain.last_finalized
    if nat_beq block last_finalized then skip else (do
      route_from_finalized ← lift (chain.tree_route last_finalized block)
      finalize_from block justification best_block notify route_from_finalized)

  -- `expect_block_hash_from_id`
  expect_block_hash_from_id : BlockId → Result ChainError Hash
  expect_block_hash_from_id (hash h) = ok h
  expect_block_hash_from_id (number n) = elim (chain.hash_of n) [
    | ok (some h) ↦ ok h
    | ok none ↦ err unknown_block
    | err e ↦ err e
  ]

  unfoldable pub apply_finality : BlockId → Option Justification → Bool → Task (Unit {0})
  unfolding expect_block_hash_from_id
  apply_finality id justification notify = do
    to_finalize_hash ← lift (expect_block_hash_from_id id)
    apply_finality_with_block_hash to_finalize_hash justification chain.info.best_hash notify
