-- ===== src/Service/NetworkStream.antt =====
-- What the network hears of the blocks that the client finalizes, over a stream of the client.
use sub_archive.Prelude.{
  Bool, Result, Outcome, List, [], ◌∷◌, ◌++◌, some, ok, map, ◌≡◌, refl, arith, All, ap, ◌∙◌,
}
use sub_archive.Chain.{Hash, Header, hash, ChainError}
use sub_archive.Client.Backend.{Blockchain}
use sub_archive.Client.Notifies.{
  Sink, ClientNotifies, FinalityNotification, FinalitySinks, notify_finalized,
}
use sub_archive.Client.NotifyLaws.{deliver, notification, notify_finalized-delivers}
use sub_archive.Client.Streams.{new_sink, finality_notification_stream}
use sub_archive.Service.Network.{Event, build_network_future}
use sub_archive.Service.NetworkLaws.{
  told_finalized, finalized_reports, block_of, last, build_network_future-finalized,
}

-- What the sink that was added last has received.
abbrev pub newest_stream : {N : Type 0} → List (Sink N) → List N
newest_stream [] = []
newest_stream (s ∷ []) = s.received
newest_stream (s ∷ t ∷ rest) = newest_stream (t ∷ rest)

newest_stream-append :
    {N : Type 0} (sinks : List (Sink N)) (s : Sink N) → newest_stream (sinks ++ s ∷ []) ≡ s.received
newest_stream-append [] s = refl
newest_stream-append (r ∷ []) s = refl
newest_stream-append (r ∷ t ∷ sinks) s = newest_stream-append (t ∷ sinks) s

deliver-new_sink :
    {N : Type 0} (ns : List N) (sinks : List (Sink N))
    → deliver ns (sinks ++ new_sink ∷ [])
      ≡ deliver ns sinks ++ (record new_sink { received = ns } ∷ [])
unfolding deliver
deliver-new_sink ns [] = refl
deliver-new_sink ns (s ∷ sinks) = ground (arith, deliver-new_sink ns sinks)

blocks_of :
    (headers : Hash → Header) (hs : List Hash)
    → map block_of (map (notification headers) hs) ≡ map (λ (h : Hash). (h, headers h)) hs
blocks_of headers [] = refl
blocks_of headers (h ∷ hs) =
    ap (λ (l : List (Hash × Header)). (h, headers h) ∷ l) (blocks_of headers hs)

-- Let the network's loop have taken a stream of finalized blocks from the client, and let the client then
-- tell of some, whose headers it has. However the loop finds them, if it is reported these and no
-- others before it ends, then the last finalized block that it tells the network of is the newest.
pub newest_finalized_told :
    (chain : Blockchain) (headers : Hash → Header) (hs : List Hash) (n : ClientNotifies)
    (announce_imported_blocks : Bool) (events : List Event)
    → All (λ h. chain.header (hash h) ≡ ok (some (headers h))) hs
    → finalized_reports events
      ≡ newest_stream
          (notify_finalized chain hs (finality_notification_stream n).finality_notification_sinks).1
    → last (told_finalized (build_network_future announce_imported_blocks events))
      ≡ last (map (λ (h : Hash). (h, headers h)) hs)
newest_finalized_told chain headers hs n a events known reported =
    let sinks = n.finality_notification_sinks in
    let ns = map (notification headers) hs in
    let delivered : finalized_reports events ≡ ns =
      reported
      ∙ ap newest_stream (
          ap (λ (r : Outcome (Result ChainError (Unit {0})) × FinalitySinks). r.1)
            (notify_finalized-delivers chain headers hs (sinks ++ new_sink ∷ []) known))
      ∙ ap newest_stream (deliver-new_sink ns sinks)
      ∙ newest_stream-append (deliver ns sinks) (record new_sink { received = ns }) in
    (build_network_future-finalized a events).1
    ∙ ap (λ (l : List FinalityNotification). last (map block_of l)) delivered
    ∙ ap (λ (l : List (Hash × Header)). last l) (blocks_of headers hs)
