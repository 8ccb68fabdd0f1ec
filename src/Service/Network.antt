-- ===== src/Service/Network.antt =====
-- client/service/src/lib.rs: the sinks of the network's status, and `build_network_future`, what the network
-- is told of the client's blocks.
use sub_archive.Prelude.{ℕ, List, [], ◌∷◌, ◌++◌, Option, none, some, Bool, if◌then◌else◌}
use sub_archive.Chain.{Hash, BlockNumber, Header}
use sub_archive.Client.Notifies.{BlockImportNotification, FinalityNotification}

-- `NetworkStatusSinks`: after each interval the channel is sent an item. A channel is a number.
pub record NetworkStatusSinks : Type 0 where
  pub status : List (ℕ × ℕ)
  pub state : List (ℕ × ℕ)

abbrev pub new_sinks : NetworkStatusSinks
new_sinks = record { status = []; state = [] }

-- Given the channel that is made, whose receiving end is returned.
abbrev pub status_stream : ℕ → ℕ → NetworkStatusSinks → ℕ × NetworkStatusSinks
status_stream channel interval s =
    (channel, record s { status = s.status ++ (interval, channel) ∷ [] })

abbrev pub state_stream : ℕ → ℕ → NetworkStatusSinks → ℕ × NetworkStatusSinks
state_stream channel interval s =
    (channel, record s { state = s.state ++ (interval, channel) ∷ [] })

-- What the loop may be woken by: an item of the import stream, or its end; the items of the finality
-- stream that are ready, of which there is one; the network; and a turn of a status or a state sink.
pub data Event : Type 0 where
  imported_block : Option BlockImportNotification → Event
  finalized_blocks : FinalityNotification → List FinalityNotification → Event
  network_polled : Event
  status_sink : Event
  state_sink : Event

-- The calls of the network and of its service; what `status` and `network_state` yield is sent on.
pub data Call : Type 0 where
  announce_block : Hash → Call
  new_best_block_imported : Hash → BlockNumber → Call
  on_block_finalized : Hash → Header → Call
  status : Call
  network_state : Call

-- The last item that is ready.
abbrev pub last_ready : FinalityNotification → List FinalityNotification → FinalityNotification
last_ready item [] = item
last_ready item (next ∷ rest) = last_ready next rest

abbrev pub on_imported : Bool → BlockImportNotification → List Call
on_imported announce_imported_blocks n =
    (if announce_imported_blocks then announce_block n.block_hash ∷ [] else [])
    ++ (if n.is_new_best then new_best_block_imported n.block_hash n.header.number ∷ [] else [])

abbrev pub on_finalized : FinalityNotification → Call
on_finalized n = on_block_finalized n.block_hash n.header

-- The calls that are made, given the events in their order.
unfoldable pub build_network_future : Bool → List Event → List Call
build_network_future announce_imported_blocks [] = []
build_network_future announce_imported_blocks (imported_block none ∷ rest) = []
build_network_future announce_imported_blocks (imported_block (some n) ∷ rest) =
    on_imported announce_imported_blocks n ++ build_network_future announce_imported_blocks rest
build_network_future announce_imported_blocks (finalized_blocks item ready ∷ rest) =
    on_finalized (last_ready item ready) ∷ build_network_future announce_imported_blocks rest
build_network_future announce_imported_blocks (network_polled ∷ rest) =
    build_network_future announce_imported_blocks rest
build_network_future announce_imported_blocks (status_sink ∷ rest) =
    status ∷ build_network_future announce_imported_blocks rest
build_network_future announce_imported_blocks (state_sink ∷ rest) =
    network_state ∷ build_network_future announce_imported_blocks rest
