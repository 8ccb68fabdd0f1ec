-- ===== src/Service/Parts.antt =====
-- `new_client` and `new_full_parts` of client/service/src/builder.rs.
use sub_archive.Prelude.{ℕ, List, Option, none, some, Bool, Result, ok, err}
use sub_archive.Chain.{Bytes, Hash, BlockNumber, ChainError, application}
use sub_archive.Client.Overrides.{RuntimeCode, Entry, Overrides}
use sub_archive.Client.CallExecutor
use sub_archive.Client.Lock.{Backend}
use sub_archive.Client.Genesis.{NewClient, new}
use sub_archive.Service.Base.{ServiceError, client}

-- What the chain's specification has for the client: the extensions, where they are there, and the
-- storage of the genesis block, where it can be built.
pub record ChainSpec : Type 0 where
  pub fork_blocks : Option (Option (List (BlockNumber × Hash)))
  pub bad_blocks : Option (Option (List Hash))
  pub build_storage : Option Bytes

-- The directory of overrides: whether it is one, and what its listing yields.
abbrev pub OverridesDir : Type 0
OverridesDir = Bool × Option (List (Option Entry))

-- `.cloned().unwrap_or_default()`
abbrev pub unwrap_or_default : {A : Type 0} → Option (Option A) → Option A
unwrap_or_default none = none
unwrap_or_default (some extension) = extension

module _ {S : Type 0} (b : Backend S) (trie_root : List Bytes → Hash) (root_of : Bytes → Hash)
    (make_hash : Bytes → Bytes) (spec_version : RuntimeCode → Option ℕ) where
  abbrev pub Made : Type 0
  Made = Option Overrides × NewClient S

  abbrev pub with_executor :
      Option Overrides → Result ChainError (NewClient S) × S → Result ChainError Made × S
  with_executor executor (ok c, s) = (ok (executor, c), s)
  with_executor executor (err e, s) = (err e, s)

  unfoldable pub new_client :
      ChainSpec
      → Option (List (BlockNumber × Hash))
      → Option (List Hash)
      → Option OverridesDir
      → S
      → Result ChainError Made × S
  new_client spec fork_blocks bad_blocks wasm_runtime_overrides s =
      elim (CallExecutor.new make_hash spec_version wasm_runtime_overrides) [
        | err e ↦ (err application, s)
        | ok executor ↦
            with_executor executor
              (new b trie_root root_of spec.build_storage fork_blocks bad_blocks s)
      ]

  abbrev pub as_service : Result ChainError Made × S → Result ServiceError Made × S
  as_service (ok made, s) = (ok made, s)
  as_service (err e, s) = (err client, s)

  -- Given the outcome of `TaskManager::new`.
  unfoldable pub new_full_parts :
      Result ServiceError (Unit {0})
      → ChainSpec
      → Option OverridesDir
      → S
      → Result ServiceError Made × S
  new_full_parts (err e) spec wasm_runtime_overrides s = (err e, s)
  new_full_parts (ok task_manager) spec wasm_runtime_overrides s = as_service (
      new_client spec (unwrap_or_default spec.fork_blocks) (unwrap_or_default spec.bad_blocks)
        wasm_runtime_overrides s)
