-- ===== src/Client/FinalityOrder.antt =====
-- What `apply_finality_with_block_hash` of client/service/src/client/client.rs finalizes.
use sub_archive.Prelude.{
  List, [], ◌∷◌, ◌++◌, Option, Bool, true, ok, returned, panicked, ◌≡◌, ◌≢◌, arith, if◌then◌else◌,
  nat_beq_iff, ◌∙◌,
}
use mathlib.Core.List.{append-nil}
use sub_archive.Chain.{Hash, Justification}
use sub_archive.Client.Backend.{Blockchain, TreeRoute, mark_head}
use sub_archive.Client.Operation.{Importing, Accepts}
use sub_archive.Client.Finality.{
  all_but_last, is_last, mark_route, finalize_route, finalize_from, apply_finality_with_block_hash,
  to_notify,
}
use sub_archive.Client.FinalityLaws.{
  finalized_in, finalized_in-append, mark_each-ne-panicked, mark_route-ok,
}

module _ (chain : Blockchain) (accepts : Accepts) where
  head_marked : (block : Hash) (s : Importing) → Importing
  head_marked block s = record s { op = s.op ++ mark_head block ∷ [] }

  head_marked_lem :
      (block : Hash) (s : Importing) → finalized_in (head_marked block s).op ≡ finalized_in s.op
  unfolding head_marked finalized_in
  head_marked_lem block s = finalized_in-append s.op (mark_head block ∷ []) ∙ append-nil _

  finalize_route-ok :
      (block : Hash) (j : Option Justification) (best : Hash) (notify : Bool) (enacted : List Hash)
      (s : Importing)
      → (finalize_route chain accepts block j best notify enacted s).0 ≡ returned (ok tt)
      → (finalized_in (finalize_route chain accepts block j best notify enacted s).1.op
          ≡ finalized_in s.op ++ enacted)
        × ((finalize_route chain accepts block j best notify enacted s).1.notify_finalized
            ≡ s.notify_finalized ++ (if notify then to_notify enacted else []))
  unfolding finalize_route head_marked
  finalize_route-ok block j best notify enacted s e = ground (
    arith,
    mark_route-ok chain accepts block j notify enacted s,
    mark_route-ok chain accepts block j notify enacted (head_marked block s),
    head_marked_lem block s,
  )

  -- A success on a block other than the last finalized one finalizes the blocks of the route from
  -- there, in order, after what was finalized before; the route retracts nothing; and where this is
  -- asked for, the newest of these blocks are told of.
  pub apply_finality_with_block_hash-finalizes :
      (block lf best : Hash) (j : Option Justification) (notify : Bool) (route : TreeRoute)
      (s : Importing)
      → chain.last_finalized ≡ ok lf
      → block ≢ lf
      → chain.tree_route lf block ≡ ok route
      → (apply_finality_with_block_hash chain accepts block j best notify s).0 ≡ returned (ok tt)
      → (route.retracted ≡ [])
        × (finalized_in (apply_finality_with_block_hash chain accepts block j best notify s).1.op
            ≡ finalized_in s.op ++ route.enacted)
        × ((apply_finality_with_block_hash chain accepts block j best notify s).1.notify_finalized
            ≡ s.notify_finalized ++ (if notify then to_notify route.enacted else []))
  unfolding apply_finality_with_block_hash finalize_from
  apply_finality_with_block_hash-finalizes block lf best j notify route s l ne r e =
      ground (arith, nat_beq_iff block lf, finalize_route-ok block j best notify route.enacted s)

  -- With the route of the tree, which ends in the block where it retracts nothing, the call does not
  -- panic.
  pub apply_finality_with_block_hash-ne-panicked :
      (block lf best : Hash) (j : Option Justification) (notify : Bool) (route : TreeRoute)
      (s : Importing)
      → chain.last_finalized ≡ ok lf
      → chain.tree_route lf block ≡ ok route
      → (route.retracted ≡ [] → is_last block route.enacted ≡ true)
      → (apply_finality_with_block_hash chain accepts block j best notify s).0 ≢ panicked
  unfolding apply_finality_with_block_hash finalize_from finalize_route mark_route head_marked
  apply_finality_with_block_hash-ne-panicked block lf best j notify route s l r ends e = ground (
    arith,
    ends,
    mark_each-ne-panicked chain accepts (all_but_last route.enacted) s,
    mark_each-ne-panicked chain accepts (all_but_last route.enacted) (head_marked block s),
  )
