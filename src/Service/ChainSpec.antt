-- ===== src/Service/ChainSpec.antt =====
-- cli/src/chain_spec.rs: the development chain. `A` is an account, and `K` a pair of keys.
use Prim.Native.String.{String}
use sub_archive.Prelude.{ℕ, List, [], ◌∷◌, ◌++◌, Option, none, some, Outcome, returned, panicked}
use sub_archive.Prelude.Text.{codes}
use sub_archive.Prelude.Panic.{◌>>=◌}
use sub_archive.Chain.{Bytes, BlockNumber, Hash}
use sub_archive.Runtime.Constants.{BabeEpochConfiguration, babe_genesis_epoch_config}

-- `Extensions`
pub record Extensions : Type 0 where
  pub fork_blocks : Option (List (BlockNumber × Hash))
  pub bad_blocks : Option (List Hash)

-- `GenesisConfig`, with the pallets' own configurations. `U` is an authority, and `T` a configuration of
-- the changes tries.
pub record GenesisConfig (A U T : Type 0) : Type 0 where
  pub code : Bytes
  pub changes_trie_config : Option T
  pub sudo_key : A
  pub babe_authorities : List U
  pub epoch_config : Option BabeEpochConfiguration
  pub grandpa_authorities : List U

-- `ChainType`, of which one is used
pub data ChainType : Type 0 where
  development : ChainType

-- What `ArchiveChainSpec::from_genesis` is given, less what is `None` or empty. The genesis
-- configuration is made when it is asked for.
pub record ArchiveChainSpec (A U T : Type 0) : Type 0 where
  pub name : String
  pub id : String
  pub chain_type : ChainType
  pub genesis : Outcome (GenesisConfig A U T)
  pub ss58_format : ℕ
  pub token_decimals : ℕ
  pub token_symbol : String
  pub extensions : Extensions

module _ {A K : Type 0} (from_string : Bytes → Option K) (account_of : K → A) where
  abbrev expect : Option K → Outcome K
  expect none = panicked
  expect (some pair) = returned pair

  -- Generate a crypto pair from seed.
  unfoldable pub get_from_seed : Bytes → Outcome K
  get_from_seed seed = expect (from_string (codes "//" ++ seed))

  -- Generate an account ID from seed.
  unfoldable pub get_account_id_from_seed : Bytes → Outcome A
  unfolding get_from_seed
  get_account_id_from_seed seed = do pair ← get_from_seed seed; returned (account_of pair)

  module _ {U T : Type 0} where
    -- Configure initial storage state for FRAME modules. The accounts that are endowed are ignored.
    unfoldable pub genesis : A → List A → GenesisConfig A U T
    genesis root_key endowed_accounts = record {
      code = [];
      changes_trie_config = none;
      sudo_key = root_key;
      babe_authorities = [];
      epoch_config = some babe_genesis_epoch_config;
      grandpa_authorities = [];
    }

    unfoldable pub development_config : ArchiveChainSpec A U T
    unfolding genesis get_account_id_from_seed
    development_config = record {
      name = "Development";
      id = "dev";
      chain_type = ChainType.development;
      genesis = do
        root ← get_account_id_from_seed (codes "Alice")
        alice ← get_account_id_from_seed (codes "Alice")
        bob ← get_account_id_from_seed (codes "Bob")
        alice_stash ← get_account_id_from_seed (codes "Alice//stash")
        bob_stash ← get_account_id_from_seed (codes "Bob//stash")
        returned (genesis root (alice ∷ bob ∷ alice_stash ∷ bob_stash ∷ []));
      ss58_format = 42;
      token_decimals = 10;
      token_symbol = "DOT";
      extensions = record { fork_blocks = none; bad_blocks = none };
    }
