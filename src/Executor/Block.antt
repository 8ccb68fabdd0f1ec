-- ===== src/Executor/Block.antt =====
-- archive/executor/src/lib.rs: `BlockExecutor`. `S` is the backend's state and `J` a JSON value.
use sub_archive.Prelude.{
  ℕ, List, [], ◌∷◌, Option, none, some, Result, ok, err, Outcome, returned, panicked, map, bytes_eq,
  ◌==◌, if◌then◌else◌, nat_eq,
}
use mathlib.Core.Option
use mathlib.Core.List.{foldl}
use sub_archive.Prelude.Assoc.{insert}
use sub_archive.Chain.{
  Bytes, Hash, Header, Block, SignedBlock, Justification, DigestItem, Extrinsic, BlockId, hash,
  ChainError, BlockNumber,
}
use sub_archive.Postgres.Model.{BlockModel}
use sub_archive.Kafka.Payload.{BlockPayload, StorageMap}
use sub_archive.Executor.VersionCache.{Externals}

-- `main_storage_changes`, of which the executor reads nothing else
abbrev pub StorageChanges : Type 0
StorageChanges = List (Bytes × Option Bytes)

-- One runtime api object: what it has recorded by executing a block, whatever the execution answers,
-- and the storage changes that it makes of its record; `none` is its error.
pub record RuntimeApi (S : Type 0) : Type 1 where
  pub Recorded : Type 0
  pub execute_block : BlockId → Block → Outcome Recorded
  pub into_storage_changes : Recorded → S → Hash → Option StorageChanges

pub record BlockExecutor (S J : Type 0) : Type 1 where
  pub client : RuntimeApi S
  pub externals : Externals S
  -- the `ArchiveCore`
  pub get_block : BlockNumber → Outcome (Option SignedBlock)
  pub get_state : BlockId → Result ChainError S
  -- `genesis_storage.top`
  pub genesis_top : List (Bytes × Bytes)
  -- `header.hash()`, `hash.as_ref().to_vec()`, SCALE's `encode`, `serde_json::json!`
  pub header_hash : Header → Hash
  pub hash_bytes : Hash → Bytes
  pub encode_digest : List DigestItem → Bytes
  pub encode_extrinsic : Extrinsic → Bytes
  pub encode_justification : Justification → Bytes
  pub to_json : StorageMap → J
  pub json_null : J

-- `Vec::pop`, whose result is dropped
abbrev pub pop {ℓ} : {A : Type ℓ} → List A → List A
pop [] = []
pop (x ∷ []) = []
pop (x ∷ y ∷ xs) = x ∷ pop (y ∷ xs)

-- `collect::<HashMap<_, _>>()`: of two values for one key the later one stays.
unfoldable pub collect : StorageChanges → StorageMap
collect changes = foldl (λ m p. insert p.0 p.1 m) [] changes

-- The block that is executed: its header's digest without the last item, which is the seal.
abbrev pub block_to_execute : Block → Block
block_to_execute b = record b { header = record b.header { digest = pop b.header.digest } }

module _ {S J : Type 0} (x : BlockExecutor S J) where
  abbrev changes_of : SignedBlock → S → Outcome x.client.Recorded → Outcome (Option StorageChanges)
  changes_of sb state panicked = panicked
  changes_of sb state (returned recorded) =
      returned (x.client.into_storage_changes recorded state sb.block.header.parent_hash)

  abbrev changes_from : SignedBlock → Result ChainError S → Outcome (Option StorageChanges)
  changes_from sb (err e) = returned none
  changes_from sb (ok state) =
      changes_of sb state
        (x.client.execute_block (hash sb.block.header.parent_hash) (block_to_execute sb.block))

  abbrev with_block :
      SignedBlock
      → Outcome (Option StorageChanges)
      → Outcome (Option (StorageChanges × SignedBlock))
  with_block sb panicked = panicked
  with_block sb (returned none) = returned none
  with_block sb (returned (some changes)) = returned (some (changes, sb))

  abbrev from_block : Outcome (Option SignedBlock) → Outcome (Option (StorageChanges × SignedBlock))
  from_block panicked = panicked
  from_block (returned none) = returned none
  from_block (returned (some sb)) =
      with_block sb (changes_from sb (x.get_state (hash sb.block.header.parent_hash)))

  unfoldable pub execute_block_and_into_storage_changes :
      BlockNumber → Outcome (Option (StorageChanges × SignedBlock))
  execute_block_and_into_storage_changes block_number = from_block (x.get_block block_number)

  abbrev pub some_values : List (Bytes × Bytes) → StorageChanges
  some_values [] = []
  some_values ((k, v) ∷ rest) = (k, some v) ∷ some_values rest

  unfoldable pub storages_map : BlockNumber → StorageChanges → StorageMap
  unfolding collect
  storages_map n main_sc = if n == 0 then collect (some_values x.genesis_top) else collect main_sc

  abbrev pub block_model : ℕ → BlockNumber → StorageMap → SignedBlock → BlockModel J
  block_model spec_version n changes sb =
      let header = sb.block.header in
      record {
        spec_version = spec_version;
        block_num = n;
        block_hash = x.hash_bytes (x.header_hash header);
        parent_hash = x.hash_bytes header.parent_hash;
        state_root = x.hash_bytes header.state_root;
        extrinsics_root = x.hash_bytes header.extrinsics_root;
        digest = x.encode_digest header.digest;
        extrinsics = map x.encode_extrinsic sb.block.extrinsics;
        justifications = Option.map (map x.encode_justification) sb.justifications;
        main_changes = x.to_json changes;
        child_changes = x.json_null;
      }

  abbrev pub block_payload : ℕ → StorageMap → SignedBlock → BlockPayload
  block_payload spec_version changes sb =
      let header = sb.block.header in
      record {
        spec_version = spec_version;
        block_num = header.number;
        block_hash = x.header_hash header;
        parent_hash = header.parent_hash;
        state_root = header.state_root;
        extrinsics_root = header.extrinsics_root;
        digest = header.digest;
        extrinsics = sb.block.extrinsics;
        justifications = sb.justifications;
        main_changes = changes;
        child_changes = [];
      }
