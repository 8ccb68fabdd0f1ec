-- ===== src/Tests/ClientData.antt =====
-- Inputs for the tests of the client: a chain of three blocks, and a backend for it.
use sub_archive.Prelude.{
  ◌+◌, ◌++◌, List, [], ◌∷◌, Option, none, some, true, false, ok, nat_beq, if◌then◌else◌,
}
use sub_archive.Chain.{Hash, BlockNumber, Header, BlockId, hash, number}
use sub_archive.Client.Backend
use sub_archive.Client.Backend.{
  Blockchain, InChain, in_chain, TreeRoute, BlockImportParams, BlockOrigin, longest_chain, Op,
  StorageChanges, ImportResult, imported, missing_state, known_bad, insert_aux, set_block_data,
}
use sub_archive.Client.Status.{Client, Revert}
use sub_archive.Client.Check.{BlockCheckParams}
use sub_archive.Client.Operation.{Importing, Accepts}
use sub_archive.Client.Prepare.{Runtime}
use sub_archive.Client.Notifies.{FinalitySinks}
use sub_archive.Client.Lock.{Node, lock_import_and_run, finalize_block}
use sub_archive.Client.Lock

-- Block n has the hash 100 + n; the chain has the blocks 0 to 2, of which 0 is final.
abbrev pub header_at : BlockNumber → Header
header_at n = record {
  parent_hash = 99 + n;
  number = n;
  state_root = 7;
  extrinsics_root = 8;
  digest = [];
}

abbrev pub number_of : Hash → Option BlockNumber
number_of h =
    if nat_beq h 100
    then some 0
    else if nat_beq h 101
    then some 1
    else if nat_beq h 102
    then some 2
    else none

abbrev pub header_of : BlockId → Option Header
header_of (number n) = none
header_of (hash h) = elim (number_of h) [ some n ↦ some (header_at n) | none ↦ none ]

abbrev pub status_of : Hash → InChain
status_of h = elim (number_of h) [ some n ↦ in_chain | none ↦ Backend.unknown ]

abbrev pub down_from_best : TreeRoute
down_from_best = record { retracted = []; common_block = 102; enacted = [] }

abbrev pub up_to_best : TreeRoute
up_to_best = record { retracted = []; common_block = 100; enacted = 101 ∷ 102 ∷ [] }

abbrev pub chain : Blockchain
chain = record {
  status = λ h. ok (status_of h);
  info = record {
    best_hash = 102;
    best_number = 2;
    finalized_hash = 100;
    finalized_number = 0;
    genesis_hash = 100;
  };
  last_finalized = ok 100;
  number_of = λ h. ok (number_of h);
  hash_of = λ n. ok (some (100 + n));
  header = λ id. ok (header_of id);
  children = λ h. ok ((h + 1) ∷ (h + 800) ∷ []);
  tree_route = λ a b. ok (if nat_beq a 100 then up_to_best else down_from_best);
  have_state_at = λ h n. true;
}

abbrev pub accepts_all : Accepts
accepts_all ops o = ok tt

abbrev pub client : Client
client = record {
  blockchain = chain;
  importing_block = none;
  block_rules = record { bad = 666 ∷ []; forks = (3, 103) ∷ [] };
}

abbrev pub begun : Importing
begun = record { op = []; notify_imported = none; notify_finalized = []; importing_block = none }

abbrev pub next_block : BlockImportParams
next_block = record {
  origin = BlockOrigin.own;
  header = header_at 3;
  justifications = none;
  post_digests = [];
  body = some [];
  storage_changes = none;
  finalized = false;
  auxiliary = [];
  fork_choice = some longest_chain;
  intermediates = [];
  allow_missing_state = false;
  import_existing = false;
}

abbrev pub check_next : BlockCheckParams
check_next = record {
  block_hash = 103;
  number = 3;
  parent_hash = 102;
  allow_missing_state = false;
  import_existing = false;
}

-- Reverts two blocks, and leaves the blockchain as it is.
abbrev pub reverts : Revert
reverts n finality c = (ok (2, 102 ∷ 103 ∷ []), c)

abbrev pub changes : StorageChanges
changes = record {
  main_storage_changes = 1 ∷ [];
  child_storage_changes = [];
  offchain_storage_changes = [];
  transaction = 2 ∷ [];
  transaction_storage_root = 7;
  changes_trie_transaction = none;
  transaction_index_changes = [];
}

abbrev pub api : Runtime
api = record {
  execute_block_with_context = λ at context b. ok [];
  state_at = λ at. ok [];
  changes_tries_state_at_block = λ at. ok none;
  into_storage_changes = λ executed state trie parent. some changes;
}

abbrev pub prepared_block : BlockImportParams
prepared_block = record next_block { storage_changes = some changes }

abbrev pub sinks : FinalitySinks
sinks =
    record { is_closed = true; received = [] } ∷ record { is_closed = false; received = [] } ∷ []

-- The backend's state is the list of the calls that were committed.
abbrev pub backend : Lock.Backend (List Op)
backend = record {
  blockchain = λ s. chain;
  begin_operation = λ s. ok tt;
  accepts = λ s. accepts_all;
  commit_operation = λ ops s. (ok tt, s ++ ops);
}

abbrev pub node : Node (List Op)
node = record {
  backend = [];
  importing_block = none;
  notifies = record {
    storage_notifications = [];
    import_notification_sinks = [];
    finality_notification_sinks = sinks;
  };
}
