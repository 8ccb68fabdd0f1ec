-- ===== src/Client/Succeeds.antt =====
-- Imports and finalizations that succeed, where the backend takes every call.
use sub_archive.Prelude.{
  List, [], ◌∷◌, ◌++◌, Option, Bool, true, false, ok, returned, ◌≡◌, refl, arith, ◌<◌, ◌⊎◌, ◌↔◌,
  inl, inr,
}
use sub_archive.Chain.{Bytes, Hash, Justification}
use sub_archive.Client.Backend
use sub_archive.Client.Backend.{
  Blockchain, TreeRoute, ForkChoiceStrategy, BlockImportParams, imported, in_chain, mark_head,
}
use sub_archive.Client.Operation.{Importing, Accepts}
use sub_archive.Client.Finality.{
  is_last, is_empty, all_but_last, mark_each, mark_route, finalize_route, finalize_from,
  apply_finality_with_block_hash,
}
use sub_archive.Client.ImportLaws.{IsChosen, is_new_best-IsChosen}
use sub_archive.Client.Import.{
  PrePostHeader, post, is_new_best, enact, route_to, announce, import_new, after_status,
  execute_and_import_block,
}

abbrev pub takes_all : Accepts
takes_all ops o = ok tt

module _ (chain : Blockchain) where
  mark_each-succeeds :
      (hs : List Hash) (s : Importing) → (mark_each chain takes_all hs s).0 ≡ returned (ok tt)
  unfolding mark_each
  mark_each-succeeds [] s = refl
  mark_each-succeeds (h ∷ hs) s = mark_each-succeeds hs _

  is_last-ne-empty : (h : Hash) (hs : List Hash) → is_last h hs ≡ true → is_empty hs ≡ false
  is_last-ne-empty h [] e = absurd (ground (arith, e))
  is_last-ne-empty h (k ∷ hs) e = refl

  mark_route-succeeds :
      (block : Hash) (j : Option Justification) (notify : Bool) (enacted : List Hash)
      (s : Importing)
      → is_last block enacted ≡ true
      → (mark_route chain takes_all block j notify enacted s).0 ≡ returned (ok tt)
  unfolding mark_route
  mark_route-succeeds block j notify enacted s l =
      ground
        (arith, l, is_last-ne-empty block enacted l, mark_each-succeeds (all_but_last enacted) s)

  finalize_route-succeeds :
      (block best : Hash) (j : Option Justification) (notify : Bool) (enacted : List Hash)
      (route_from_best : TreeRoute) (s : Importing)
      → chain.tree_route best block ≡ ok route_from_best
      → is_last block enacted ≡ true
      → (finalize_route chain takes_all block j best notify enacted s).0 ≡ returned (ok tt)
  unfolding finalize_route
  finalize_route-succeeds block best j notify enacted r s e l = ground (
    arith,
    e,
    mark_route-succeeds block j notify enacted s l,
    mark_route-succeeds block j notify enacted (record s { op = s.op ++ mark_head block ∷ [] }) l,
  )

  -- Where the backend takes every call and both routes to the block can be read, a block that the
  -- route from the last finalized one ends in, with nothing to retract, is finalized with success.
  pub apply_finality_with_block_hash-succeeds :
      (block lf best : Hash) (j : Option Justification) (notify : Bool)
      (route route_from_best : TreeRoute) (s : Importing)
      → chain.last_finalized ≡ ok lf
      → chain.tree_route lf block ≡ ok route
      → chain.tree_route best block ≡ ok route_from_best
      → route.retracted ≡ []
      → is_last block route.enacted ≡ true
      → (apply_finality_with_block_hash chain takes_all block j best notify s).0 ≡ returned (ok tt)
  unfolding apply_finality_with_block_hash finalize_from
  apply_finality_with_block_hash-succeeds block lf best j notify route route' s l e e' r last =
      ground
        (arith, l, e, r, finalize_route-succeeds block best j notify route.enacted route' s e' last)

  -- Where the backend takes every call and the route from the best block to the parent can be read,
  -- a block that is not final, is above the last finalized block, and is unknown, or in the chain
  -- while existing blocks may be imported, is imported with success, as the new best block exactly as
  -- the fork choice says.
  pub execute_and_import_block-succeeds :
      (h : Hash) (headers : PrePostHeader) (cache : Bytes) (choice : ForkChoiceStrategy)
      (b : BlockImportParams) (offchain : Bool) (route : TreeRoute) (s : Importing)
      → b.finalized ≡ false
      → chain.info.finalized_number < (post headers).number
      → ((b.import_existing ≡ false) × (chain.status h ≡ ok Backend.unknown))
        ⊎ ((b.import_existing ≡ true) × (chain.status h ≡ ok in_chain))
      → chain.tree_route chain.info.best_hash (post headers).parent_hash ≡ ok route
      → (best : Bool) × (((execute_and_import_block chain takes_all offchain h headers cache choice
              b s).0
            ≡ returned (ok (imported best)))
          × ((best ≡ true) ↔ IsChosen choice (post headers) chain.info))
  unfolding execute_and_import_block after_status import_new enact route_to announce is_new_best
  execute_and_import_block-succeeds h headers cache choice b offchain route s f n known r =
      let iff = is_new_best-IsChosen false choice (post headers) chain.info in
      (
        is_new_best false choice (post headers) chain.info,
        (
          ground (arith, f, n, known, r),
          (
            λ e. elim (iff.0 e) [
              | inl false_final ↦ absurd (ground (arith, false_final))
              | inr is ↦ is
            ],
            λ e. iff.1 (inr e),
          ),
        ),
      )
