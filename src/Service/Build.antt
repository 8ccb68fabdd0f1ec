-- ===== src/Service/Build.antt =====
-- `build_network` of client/service/src/builder.rs: the network's tasks, and the wait for its start.
use sub_archive.Prelude.{ℕ, ◌+◌, List, [], ◌∷◌, ◌++◌, Option, Bool, Result, ok, err, if◌then◌else◌}
use sub_archive.Service.Base.{ServiceError}
use sub_archive.Service.Network.{Event, Call, build_network_future}

-- The configuration, as far as `build_network` looks at it.
pub record NetworkConfig : Type 0 where
  pub is_light : Bool
  pub in_peers : ℕ
  pub out_peers : ℕ
  pub announce_block : Bool

-- The protocol of block requests: outgoing ones alone, or incoming ones too, from so many peers.
pub data BlockRequestProtocol : Type 0 where
  outgoing_only : BlockRequestProtocol
  served_to : ℕ → BlockRequestProtocol

-- `sc_network::config::Params`; without a validator of its own the default one is taken.
pub record NetworkParams (V : Type 0) : Type 0 where
  pub block_request_protocol_config : BlockRequestProtocol
  pub block_announce_validator : Option V

pub data NetworkTask : Type 0 where
  block_request_handler : ℕ → NetworkTask
  network_worker : Bool → NetworkTask

abbrev pub protocol_config : NetworkConfig → BlockRequestProtocol
protocol_config config =
    if config.is_light then outgoing_only else served_to (config.in_peers + config.out_peers)

-- The handler of incoming requests is spawned where there is one.
abbrev pub handlers : BlockRequestProtocol → List NetworkTask
handlers outgoing_only = []
handlers (served_to peers) = block_request_handler peers ∷ []

module _ {V : Type 0} (new_worker : NetworkParams V → Result ServiceError (Unit {0})) where
  -- With the tasks that are spawned, which stay if the worker cannot be made.
  unfoldable pub build_network :
      NetworkConfig → Option V → Result ServiceError (Unit {0}) × List NetworkTask
  build_network config block_announce_validator =
      let protocol = protocol_config config in
      elim (new_worker (record {
        block_request_protocol_config = protocol;
        block_announce_validator = block_announce_validator;
      })) [
        | err e ↦ (err e, handlers protocol)
        | ok worker ↦ (ok tt, handlers protocol ++ network_worker config.announce_block ∷ [])
      ]

-- `NetworkStarter`: it is used, or dropped without a word.
pub data Starter : Type 0 where
  start_network : Starter
  dropped : Starter

-- The task "network-worker", in a build without debug assertions.
unfoldable pub run_worker : Starter → Bool → List Event → List Call
run_worker dropped announce_block events = []
run_worker start_network announce_block events = build_network_future announce_block events
