-- ===== src/Client/ImportLaws.antt =====
-- When `execute_and_import_block` imports a block, and what it then hands to the backend.
use sub_archive.Prelude.{
  List, [], ◌∷◌, ◌++◌, Bool, true, false, ok, returned, ◌≡◌, ◌⊎◌, ◌<◌, arith, ◌↔◌, refl, sym,
}
use mathlib.Core.List.{append_assoc}
use sub_archive.Chain.{Bytes, Hash, Header}
use sub_archive.Client.Backend
use sub_archive.Client.Backend.{
  Blockchain, Info, NewBlockState, Op, in_chain, ForkChoiceStrategy, BlockImportParams, imported,
  set_block_data, insert_aux,
}
use sub_archive.Client.Operation.{Importing, Accepts}
use sub_archive.Client.Import.{
  PrePostHeader, post, make_notifications, is_new_best, leaf_state, enact, route_to, announce,
  import_new, execute_and_import_block, after_status,
}

-- What the fork choice asks of a new best block: to be above the best one, or what was said.
abbrev pub IsChosen : ForkChoiceStrategy → Header → Info → Type 0
IsChosen ForkChoiceStrategy.longest_chain h info = info.best_number < h.number
IsChosen (ForkChoiceStrategy.custom v) h info = v ≡ true

pub is_new_best-IsChosen :
    (finalized : Bool) (choice : ForkChoiceStrategy) (h : Header) (info : Info)
    → (is_new_best finalized choice h info ≡ true) ↔ ((finalized ≡ true) ⊎ IsChosen choice h info)
unfolding is_new_best
is_new_best-IsChosen finalized ForkChoiceStrategy.longest_chain h info =
    (λ e. ground (arith, e), λ e. ground (arith, e))
is_new_best-IsChosen finalized (ForkChoiceStrategy.custom v) h info =
    (λ e. ground (arith, e), λ e. ground (arith, e))

-- The state that a block is stored with: final if it is finalized, else best if it is the new best one.
pub data IsLeafState (finalized is_best : Bool) (state : NewBlockState) : Type 0 where
  is_final : finalized ≡ true → state ≡ Backend.final → IsLeafState finalized is_best state
  is_best_one :
      finalized ≡ false
      → is_best ≡ true
      → state ≡ Backend.best
      → IsLeafState finalized is_best state
  is_normal :
      finalized ≡ false
      → is_best ≡ false
      → state ≡ Backend.normal
      → IsLeafState finalized is_best state

leaf_state-IsLeafState :
    (finalized is_best : Bool) → IsLeafState finalized is_best (leaf_state finalized is_best)
unfolding leaf_state
leaf_state-IsLeafState true is_best = is_final refl refl
leaf_state-IsLeafState false true = is_best_one refl refl refl
leaf_state-IsLeafState false false = is_normal refl refl refl

module _ (chain : Blockchain) (accepts : Accepts) (offchain : Bool) where
  -- The operation once the storage changes are in it.
  abbrev enacted : PrePostHeader → Bytes → BlockImportParams → Importing → Importing
  enacted headers cache b s =
      (enact chain accepts offchain (post headers).parent_hash b.finalized
        (make_notifications b.origin) cache b.storage_changes s).1

  -- The parts of an import, in the code's own words.
  execute_and_import_block-parts :
      (h : Hash) (headers : PrePostHeader) (cache : Bytes) (choice : ForkChoiceStrategy)
      (b : BlockImportParams) (best : Bool) (s : Importing)
      → (execute_and_import_block chain accepts offchain h headers cache choice b s).0
        ≡ returned (ok (imported best))
      → (chain.info.finalized_number < (post headers).number)
        × (((b.import_existing ≡ false) × (chain.status h ≡ ok Backend.unknown))
            ⊎ ((b.import_existing ≡ true) × (chain.status h ≡ ok in_chain)))
        × (best ≡ is_new_best b.finalized choice (post headers) chain.info)
        × ((before : List Op) × ((execute_and_import_block chain accepts offchain h headers cache
                choice b s).1.op
              ≡ before
                ++ set_block_data
                    (post headers)
                    b.body
                    b.justifications
                    (leaf_state b.finalized best)
                  ∷ insert_aux b.auxiliary
                  ∷ []))
  unfolding execute_and_import_block after_status import_new announce route_to
  execute_and_import_block-parts h headers cache choice b best s e =
      let before = (enacted headers cache b s).op in
      let block_data =
        set_block_data (post headers) b.body b.justifications (leaf_state b.finalized best) in
      (
        ground arith,
        ground arith,
        ground arith,
        (
          before,
          ground (arith, append_assoc before (block_data ∷ []) (insert_aux b.auxiliary ∷ [])),
        ),
      )

  -- What a block is imported on: it is above the last finalized block; it was unknown, or it was in
  -- the chain and existing blocks may be imported; it is reported as the new best block exactly if it
  -- is final or the fork choice takes it; and the last calls of the operation set its data, under the
  -- header with the later digest items, as a final, a best or a normal block, and its auxiliary data.
  pub execute_and_import_block-IsFresh :
      (h : Hash) (headers : PrePostHeader) (cache : Bytes) (choice : ForkChoiceStrategy)
      (b : BlockImportParams) (best : Bool) (s : Importing)
      → (execute_and_import_block chain accepts offchain h headers cache choice b s).0
        ≡ returned (ok (imported best))
      → (chain.info.finalized_number < (post headers).number)
        × (((b.import_existing ≡ false) × (chain.status h ≡ ok Backend.unknown))
            ⊎ ((b.import_existing ≡ true) × (chain.status h ≡ ok in_chain)))
        × ((best ≡ true) ↔ ((b.finalized ≡ true) ⊎ IsChosen choice (post headers) chain.info))
        × ((before : List Op) × ((state : NewBlockState) × (IsLeafState b.finalized best state
                × ((execute_and_import_block chain accepts offchain h headers cache choice b s).1.op
                    ≡ before
                      ++ set_block_data (post headers) b.body b.justifications state
                        ∷ insert_aux b.auxiliary
                        ∷ []))))
  execute_and_import_block-IsFresh h headers cache choice b best s e =
      let (above, known, best_is, (before, op)) =
        execute_and_import_block-parts h headers cache choice b best s e in
      (
        above,
        known,
        rw (sym best_is) at (is_new_best-IsChosen b.finalized choice (post headers) chain.info),
        (before, (leaf_state b.finalized best, (leaf_state-IsLeafState b.finalized best, op))),
      )
