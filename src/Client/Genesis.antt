-- ===== src/Client/Genesis.antt =====
-- `Client::new` of client/service/src/client/client.rs and `construct_genesis_block` of genesis.rs.
use sub_archive.Prelude.{
  List, [], Option, none, some, Result, ok, err, ok_or, Outcome, returned, panicked,
}
use sub_archive.Chain.{Bytes, Hash, BlockNumber, Header, Block, number, ChainError, storage}
use sub_archive.Client.Backend.{begin_state_operation, reset_storage, set_block_data, final}
use sub_archive.Client.Rules.{BlockRules}
use sub_archive.Client.Rules
use sub_archive.Client.Operation.{Task, Importing, Accepts, ◌>>=◌, call}
use sub_archive.Client.Notifies.{ClientNotifies}
use sub_archive.Client.Lock.{Backend, Node}

-- Given the root of a trie of these values.
abbrev pub construct_genesis_block : (List Bytes → Hash) → Hash → Block
construct_genesis_block trie_root state_root = record {
  header = record {
    parent_hash = 0;
    number = 0;
    state_root = state_root;
    extrinsics_root = trie_root [];
    digest = [];
  };
  extrinsics = [];
}

-- `ClientNotifies::new`
abbrev pub new_notifies : ClientNotifies
new_notifies = record {
  storage_notifications = [];
  import_notification_sinks = [];
  finality_notification_sinks = [];
}

-- A client: the state of the backend with what an import changes, and the rules.
pub record NewClient (S : Type 0) : Type 0 where
  pub node : Node S
  pub block_rules : BlockRules

module _ {S : Type 0} (b : Backend S) (trie_root : List Bytes → Hash) (root_of : Bytes → Hash) where
  -- `root_of` is the root that the backend answers to `reset_storage`.
  unfoldable pub genesis_operation : Accepts → Bytes → Task (Unit {0})
  genesis_operation accepts genesis_storage = do
    _ ← call accepts (begin_state_operation 0)
    _ ← call accepts (reset_storage genesis_storage)
    call accepts (
        set_block_data (construct_genesis_block trie_root (root_of genesis_storage)).header
          (some []) none final)

  -- Unless it fails, the calls are committed. None of them panics, so the last clause is never met.
  abbrev committed :
      Outcome (Result ChainError (Unit {0})) × Importing → S → Result ChainError (Unit {0}) × S
  committed (returned (ok tt), i) s = b.commit_operation i.op s
  committed (returned (err e), i) s = (err e, s)
  committed (panicked, i) s = (err storage, s)

  abbrev write_genesis : Result ChainError (Unit {0}) → Bytes → S → Result ChainError (Unit {0}) × S
  write_genesis (err e) genesis_storage s = (err e, s)
  write_genesis (ok _) genesis_storage s =
      committed
        (genesis_operation (b.accepts s) genesis_storage (record {
          op = [];
          notify_imported = none;
          notify_finalized = [];
          importing_block = none;
        }))
        s

  abbrev with_storage : Result ChainError Bytes → S → Result ChainError (Unit {0}) × S
  with_storage (err e) s = (err e, s)
  with_storage (ok genesis_storage) s = write_genesis (b.begin_operation s) genesis_storage s

  abbrev unless_there :
      Option Bytes → Result ChainError (Option Header) → S → Result ChainError (Unit {0}) × S
  unless_there build_storage (err e) s = (err e, s)
  unless_there build_storage (ok (some h)) s = (ok tt, s)
  unless_there build_storage (ok none) s = with_storage (ok_or storage build_storage) s

  -- The genesis block, if the backend has no block 0.
  unfoldable pub initialize : Option Bytes → S → Result ChainError (Unit {0}) × S
  initialize build_storage s = unless_there build_storage ((b.blockchain s).header (number 0)) s

  abbrev pub new_client_on :
      Option (List (BlockNumber × Hash))
      → Option (List Hash)
      → Result ChainError (Unit {0}) × S
      → Result ChainError (NewClient S) × S
  new_client_on fork_blocks bad_blocks (err e, s) = (err e, s)
  new_client_on fork_blocks bad_blocks (ok _, s) = (
    ok (record {
      node = record { backend = s; importing_block = none; notifies = new_notifies };
      block_rules = Rules.new fork_blocks bad_blocks;
    }),
    s,
  )

  unfoldable pub new :
      Option Bytes
      → Option (List (BlockNumber × Hash))
      → Option (List Hash)
      → S
      → Result ChainError (NewClient S) × S
  new build_storage fork_blocks bad_blocks s =
      new_client_on fork_blocks bad_blocks (initialize build_storage s)
