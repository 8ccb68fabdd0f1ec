-- ===== src/Tests/Parts.antt =====
-- Starts of the client on a backend whose state is its block 0, if there is one.
use sub_archive.Prelude.{List, [], ◌∷◌, Option, none, some, ok, ◌≡◌, refl, nat_eq}
use sub_archive.Chain.{Bytes, Hash, Header}
use sub_archive.Client.Backend.{Op, set_block_data}
use sub_archive.Client.Rules
use sub_archive.Client.CallExecutor
use sub_archive.Client.Lock.{Backend}
use sub_archive.Client.Genesis.{
  construct_genesis_block, new_notifies, NewClient, genesis_operation, initialize, new,
}
use sub_archive.Client.GenesisLaws.{IsInitialized, new-IsInitialized}
use sub_archive.Service.Parts.{ChainSpec}
use sub_archive.Tests.ClientData.{chain, accepts_all}

abbrev block_of : List Op → Option Header → Option Header
block_of [] s = s
block_of (set_block_data h body justifications state ∷ ops) s = block_of ops (some h)
block_of (o ∷ ops) s = block_of ops s

abbrev backend : Backend (Option Header)
backend = record {
  blockchain = λ s. record chain { header = λ id. ok s };
  begin_operation = λ s. ok tt;
  accepts = λ s. accepts_all;
  commit_operation = λ ops s. (ok tt, block_of ops s);
}

abbrev trie_root : List Bytes → Hash
trie_root values = 0

abbrev root_of : Bytes → Hash
root_of storage = 5

abbrev genesis_header : Header
genesis_header = (construct_genesis_block trie_root 5).header

-- The client of a start on an empty backend; block 103 is bad.
abbrev client : NewClient (Option Header)
client = record {
  node = record { backend = some genesis_header; importing_block = none; notifies = new_notifies };
  block_rules = record { bad = 103 ∷ []; forks = [] };
}

first_start :
    new backend trie_root root_of (some (1 ∷ [])) none (some (103 ∷ [])) none
    ≡ (ok client, some genesis_header)
unfolding new initialize genesis_operation Rules.collect_forks
first_start = refl

new-IsInitialized_example :
    IsInitialized backend trie_root root_of (some (1 ∷ [])) none (some genesis_header)
    × (client ≡ record {
      node = record {
        backend = some genesis_header;
        importing_block = none;
        notifies = new_notifies;
      };
      block_rules = Rules.new none (some (103 ∷ []));
    })
new-IsInitialized_example =
    new-IsInitialized backend trie_root root_of (some (1 ∷ [])) none (some (103 ∷ [])) none
      (some genesis_header) client first_start

abbrev spec : ChainSpec
spec = record {
  fork_blocks = none;
  bad_blocks = some (some (103 ∷ []));
  build_storage = some (1 ∷ []);
}
