-- ===== src/Service/PartsLaws.antt =====
-- What the client that the service makes refuses.
use sub_archive.Prelude.{List, some, true, ◌≡◌, ◌≢◌, ◌⊎◌, elem, nat_eq}
use sub_archive.Prelude.Assoc.{lookup as get}
use sub_archive.Chain.{Hash, BlockNumber}
use sub_archive.Client.Rules.{BlockRules, collect_forks, lookup}
use sub_archive.Client.Rules
use sub_archive.Client.Overrides.{Overrides}
use sub_archive.Client.CallExecutor
use sub_archive.Client.Lock.{Backend}
use sub_archive.Service.Parts.{ChainSpec}

-- The specification forbids the block: as a bad one, or since it has another hash for its number.
abbrev pub IsForbidden : ChainSpec → BlockNumber → Hash → Type 0
IsForbidden spec n h =
    ((bad : List Hash) × ((spec.bad_blocks ≡ some (some bad)) × (elem h bad ≡ true)))
    ⊎ ((forks : List (BlockNumber × Hash)) × ((other : Hash) × ((spec.fork_blocks
              ≡ some (some forks))
            × (get n (collect_forks forks) ≡ some other)
            × (other ≢ h))))
