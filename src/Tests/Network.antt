-- ===== src/Tests/Network.antt =====
-- The network's loop on a few notifications.
use sub_archive.Prelude.{◌-◌, ℕ, List, [], ◌∷◌, none, some, true, false, ◌≡◌, refl}
use sub_archive.Client.Backend.{own}
use sub_archive.Client.Notifies.{BlockImportNotification, FinalityNotification}
use sub_archive.Service.Network.{
  Event, imported_block, finalized_blocks, status_sink, announce_block, new_best_block_imported,
  on_block_finalized, status, build_network_future,
}
use sub_archive.Service.NetworkLaws.{
  told_finalized, told_best, announced, finalized_reports, import_reports, new_bests, last,
  build_network_future-imported,
}
use sub_archive.Service.NetworkStream.{newest_stream, newest_finalized_told}
use sub_archive.Client.Streams.{finality_notification_stream}
use sub_archive.Client.Notifies.{notify_finalized, notify_each, send_all}
use sub_archive.Chain.{Hash, Header}
use sub_archive.Tests.ClientData.{header_at, chain, node}

abbrev finalized_at : ℕ → FinalityNotification
finalized_at n = record { block_hash = n; header = header_at n }

abbrev imported_at : ℕ → BlockImportNotification
imported_at n = record {
  block_hash = n;
  origin = own;
  header = header_at n;
  is_new_best = true;
  tree_route = none;
}

-- Blocks 1 and 2 become final together; after the end of the import stream nothing is told.
abbrev events : List Event
events =
    imported_block (some (imported_at 3))
    ∷ finalized_blocks (finalized_at 1) (finalized_at 2 ∷ [])
    ∷ status_sink
    ∷ imported_block none
    ∷ finalized_blocks (finalized_at 3) []
    ∷ []

calls :
    build_network_future true events
    ≡ announce_block 3
      ∷ new_best_block_imported 3 3
      ∷ on_block_finalized 2 (header_at 2)
      ∷ status
      ∷ []
unfolding build_network_future
calls = refl

build_network_future-imported_example :
    (told_best (build_network_future true events) ≡ new_bests (import_reports events))
    × (announced (build_network_future true events) ≡ 3 ∷ [])
build_network_future-imported_example = build_network_future-imported true events

abbrev headers : Hash → Header
headers h = header_at (h - 100)

abbrev heard : List Event
heard =
    finalized_blocks (record { block_hash = 101; header = header_at 1 })
      (record { block_hash = 102; header = header_at 2 } ∷ [])
    ∷ []

reported :
    finalized_reports heard
    ≡ newest_stream
        (notify_finalized chain
          (101 ∷ 102 ∷ [])
          (finality_notification_stream node.notifies).finality_notification_sinks).1
unfolding notify_finalized notify_each send_all
reported = refl

newest_finalized_told_example :
    last (told_finalized (build_network_future false heard)) ≡ some (102, header_at 2)
newest_finalized_told_example =
    newest_finalized_told chain headers (101 ∷ 102 ∷ []) node.notifies false heard
      (refl, (refl, tt)) reported
