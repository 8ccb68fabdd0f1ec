-- ===== src/Tests/Finality.antt =====
-- Finality, its listeners and the lock of the client.
use sub_archive.Prelude.{[], ◌∷◌, none, true, ok, returned, ◌≡◌, refl, arith}
use sub_archive.Chain.{hash}
use sub_archive.Client.Operation.{Task}
use sub_archive.Client.Finality.{
  apply_finality_with_block_hash, apply_finality, to_notify, finalize_from, finalize_route,
  mark_route, mark_each,
}
use sub_archive.Client.Succeeds.{takes_all, apply_finality_with_block_hash-succeeds}
use sub_archive.Client.FinalityLaws.{finalized_in}
use sub_archive.Client.FinalityOrder.{apply_finality_with_block_hash-finalizes}
use sub_archive.Tests.ClientData.{up_to_best, chain, accepts_all, begun, down_from_best}

finalized_to_best :
    (apply_finality_with_block_hash chain accepts_all 102 none 102 true begun).0 ≡ returned (ok tt)
unfolding apply_finality_with_block_hash finalize_from finalize_route mark_route mark_each to_notify
finalized_to_best = refl

apply_finality_with_block_hash-finalizes_example :
    (up_to_best.retracted ≡ [])
    × (finalized_in (apply_finality_with_block_hash chain accepts_all 102 none 102 true begun).1.op
        ≡ 101 ∷ 102 ∷ [])
    × ((apply_finality_with_block_hash chain accepts_all 102 none 102 true begun).1.notify_finalized
        ≡ to_notify (101 ∷ 102 ∷ []))
unfolding finalized_in
apply_finality_with_block_hash-finalizes_example =
    apply_finality_with_block_hash-finalizes chain accepts_all 102 100 102 none true up_to_best
      begun refl (λ e. omega (arith, e)) refl finalized_to_best

abbrev finality : Task (Unit {0})
finality = apply_finality chain accepts_all (hash 102) none true

apply_finality_with_block_hash-succeeds_example :
    (apply_finality_with_block_hash chain takes_all 102 none 102 true begun).0 ≡ returned (ok tt)
apply_finality_with_block_hash-succeeds_example =
    apply_finality_with_block_hash-succeeds chain 102 100 102 none true up_to_best down_from_best
      begun refl refl refl refl refl
