-- ===== src/Tests/Client.antt =====
-- Checks and imports of the client.
use sub_archive.Prelude.{
  ◌↔◌, Bool, ◌++◌, inl, arith, ◌+◌, ◌<◌, List, [], ◌∷◌, none, some, true, false, Result, ok,
  returned, ◌≡◌, refl, ◌⊎◌, ◌↔◌, elem, Outcome,
}
use sub_archive.Chain.{Hash, Header, ChainError}
use sub_archive.Client.Rules.{lookup, fork_allows}
use sub_archive.Prelude.Assoc.{lookup as get}
use sub_archive.Client.Backend
use sub_archive.Client.Backend.{
  NewBlockState, Blockchain, InChain, in_chain, TreeRoute, BlockImportParams, BlockOrigin,
  longest_chain, Op, ImportResult, imported, missing_state, known_bad, insert_aux, set_block_data,
}
use sub_archive.Client.Status.{block_status, unsafe_revert}
use sub_archive.Client.Check.{check_block}
use sub_archive.Client.CheckLaws.{
  check_block-imported_iff, unsafe_revert-refuses, IsImportable, HasParent,
}
use sub_archive.Client.Operation.{Importing}
use sub_archive.Client.Import.{
  same, execute_and_import_block, after_status, import_new, enact, route_to, announce, is_new_best,
  apply_block,
}
use sub_archive.Client.ImportBlock.{IsAllowed, import_block-IsAllowed}
use sub_archive.Client.Lock.{import_block, lock_import_and_run}
use sub_archive.Client.Notifies.{notify_imported, notify_finalized}
use sub_archive.Client.Uncles.{uncles, load_header, collect_uncles}
use sub_archive.Client.Succeeds.{takes_all, execute_and_import_block-succeeds}
use sub_archive.Client.ImportLaws.{IsChosen, IsLeafState, execute_and_import_block-IsFresh}
use sub_archive.Client.Prepare.{prepare_block_storage_changes, fill, execute}
use sub_archive.Client.PrepareLaws.{prepare-state_root}
use sub_archive.Tests.ClientData.{
  header_at, chain, accepts_all, client, begun, down_from_best, next_block, check_next, reverts,
  changes, api, prepared_block, backend, node,
}

next_is_admitted : check_block client check_next ≡ ok (imported false)
unfolding check_block block_status lookup get
next_is_admitted = refl

check_block-imported_iff_example : (check_block client check_next ≡ ok (imported false)) ↔ (
    (fork_allows client.block_rules 3 103 ≡ true)
    × (elem 103 client.block_rules.bad ≡ false)
    × IsImportable client check_next
    × HasParent client check_next)
check_block-imported_iff_example = check_block-imported_iff client check_next

unsafe_revert-refuses_example :
    check_block (unsafe_revert reverts 2 true client).1 check_next ≡ ok known_bad
unsafe_revert-refuses_example =
    unsafe_revert-refuses reverts 2 2 (102 ∷ 103 ∷ []) client check_next refl refl

next_is_prepared : prepare_block_storage_changes api client next_block ≡ ok (none, prepared_block)
unfolding prepare_block_storage_changes block_status fill execute
next_is_prepared = refl

prepare-state_root_example : 7 ≡ changes.transaction_storage_root
prepare-state_root_example =
    prepare-state_root api client next_block prepared_block changes next_is_prepared refl refl

abbrev import_next : Outcome (Result ChainError ImportResult) × Importing
import_next =
    execute_and_import_block chain accepts_all false 103 (same (header_at 3)) [] longest_chain
      prepared_block begun

next_is_imported : import_next.0 ≡ returned (ok (imported true))
unfolding execute_and_import_block after_status import_new enact route_to announce is_new_best
next_is_imported = refl

execute_and_import_block-IsFresh_example :
    (0 < 3)
    × (((false ≡ false) × (chain.status 103 ≡ ok Backend.unknown))
        ⊎ ((false ≡ true) × (chain.status 103 ≡ ok in_chain)))
    × ((true ≡ true) ↔ ((false ≡ true) ⊎ IsChosen longest_chain (header_at 3) chain.info))
    × ((before : List Op) × ((state : NewBlockState) × (IsLeafState false true state
            × (import_next.1.op
                ≡ before
                  ++ set_block_data (header_at 3) (some []) none state ∷ insert_aux [] ∷ []))))
execute_and_import_block-IsFresh_example =
    execute_and_import_block-IsFresh chain accepts_all false 103 (same (header_at 3)) []
      longest_chain prepared_block true begun next_is_imported

-- The hash of a header is 100 and its number.
abbrev hash_of : Header → Hash
hash_of h = 100 + h.number

block_is_imported :
    (import_block backend api hash_of client.block_rules false next_block [] node).0
    ≡ returned (ok (imported true))
unfolding import_block prepare_block_storage_changes block_status fill execute lock_import_and_run
    apply_block execute_and_import_block after_status import_new enact route_to announce is_new_best
    notify_imported notify_finalized
block_is_imported = refl

import_block-IsAllowed_example :
    IsAllowed chain hash_of next_block
    × ((import_block backend api hash_of client.block_rules false next_block []
          node).1.importing_block
        ≡ none)
import_block-IsAllowed_example =
    import_block-IsAllowed backend api hash_of client.block_rules false next_block [] true node
      block_is_imported

uncles_of_best : uncles chain 102 1 ≡ ok (901 ∷ [])
unfolding uncles load_header collect_uncles
uncles_of_best = refl

execute_and_import_block-succeeds_example :
    (best : Bool) × (((execute_and_import_block chain takes_all false 103
          (same (header_at 3))
          []
          longest_chain
          next_block
          begun).0
        ≡ returned (ok (imported best)))
      × ((best ≡ true) ↔ IsChosen longest_chain (header_at 3) chain.info))
execute_and_import_block-succeeds_example =
    execute_and_import_block-succeeds chain 103 (same (header_at 3)) [] longest_chain next_block
      false down_from_best begun refl (omega arith) (inl (refl, refl)) refl
