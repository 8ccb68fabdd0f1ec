-- ===== src/Client/Overrides.antt =====
-- client/service/src/client/wasm_override.rs, and `check_override` of call_executor.rs beside it.
use sub_archive.Prelude.{
  ℕ, List, [], ◌∷◌, ◌++◌, Option, none, some, Bool, Result, ok, err, ◌>>=◌, nat_eq, if◌then◌else◌,
  ok_or,
}
use sub_archive.Prelude.Assoc.{lookup, insert}
use sub_archive.Chain.{Bytes, BlockId, ChainError}

-- `WasmBlob`
pub record WasmBlob : Type 0 where
  pub code : Bytes
  pub hash : Bytes

-- `RuntimeCode`, with the code that its fetcher yields.
pub record RuntimeCode : Type 0 where
  pub code : Bytes
  pub hash : Bytes
  pub heap_pages : Option ℕ

-- `WasmOverrideError`
pub data WasmOverrideError : Type 0 where
  version_invalid : WasmOverrideError
  io : WasmOverrideError
  not_a_directory : WasmOverrideError
  duplicate_runtime : List Bytes → WasmOverrideError

-- An entry of the directory: its path, whether that ends in `.wasm`, and what reading it yields.
pub record Entry : Type 0 where
  pub path : Bytes
  pub is_wasm : Bool
  pub contents : Option Bytes

-- `HashMap<u32, WasmBlob>`
abbrev pub Overrides : Type 0
Overrides = List (ℕ × WasmBlob)

-- The hasher of a code, and the spec version that the executor reads from it.
module _ (make_hash : Bytes → Bytes) (spec_version : RuntimeCode → Option ℕ) where
  abbrev pub new_blob : Bytes → WasmBlob
  new_blob code = record { code = code; hash = make_hash code }

  abbrev pub runtime_code : WasmBlob → Option ℕ → RuntimeCode
  runtime_code blob pages = record { code = blob.code; hash = blob.hash; heap_pages = pages }

  unfoldable pub runtime_version : WasmBlob → Option ℕ → Result WasmOverrideError ℕ
  runtime_version blob pages = ok_or version_invalid (spec_version (runtime_code blob pages))

  -- `overrides.insert(..)`, and the duplicates with the path if the version was there.
  abbrev pub inserted : Bytes → ℕ → WasmBlob → Overrides × List Bytes → Overrides × List Bytes
  inserted path v blob (overrides, duplicates) = (
    insert v blob overrides,
    elim (lookup v overrides) [ none ↦ duplicates | some old ↦ duplicates ++ path ∷ [] ],
  )

  unfoldable pub scrape_entry :
      Entry → Overrides × List Bytes → Result WasmOverrideError (Overrides × List Bytes)
  scrape_entry entry found =
      let read = (do
        contents ← ok_or io entry.contents
        v ← runtime_version (new_blob contents) (some 128)
        ok (inserted entry.path v (new_blob contents) found)) in
      if entry.is_wasm then read else ok found

  -- An entry that cannot be read is `none`.
  unfoldable pub scrape_each :
      List (Option Entry)
      → Overrides × List Bytes
      → Result WasmOverrideError (Overrides × List Bytes)
  scrape_each [] found = ok found
  scrape_each (none ∷ rest) found = err io
  scrape_each (some entry ∷ rest) found = do
    found' ← scrape_entry entry found
    scrape_each rest found'

  abbrev pub unless_duplicate : Overrides × List Bytes → Result WasmOverrideError Overrides
  unless_duplicate (overrides, []) = ok overrides
  unless_duplicate (overrides, path ∷ duplicates) = err (duplicate_runtime (path ∷ duplicates))

  -- The directory: whether it is one, and the entries, where they can be listed.
  unfoldable pub scrape_overrides :
      Bool → Option (List (Option Entry)) → Result WasmOverrideError Overrides
  scrape_overrides is_dir entries =
      let scraped = (do
        listed ← ok_or io entries
        found ← scrape_each listed ([], [])
        unless_duplicate found) in
      if is_dir then scraped else err not_a_directory

  abbrev pub map_code : Option ℕ → Option WasmBlob → Option RuntimeCode
  map_code pages none = none
  map_code pages (some blob) = some (runtime_code blob pages)

  -- `WasmOverride::get`
  unfoldable pub get : Overrides → ℕ → Option ℕ → Option RuntimeCode
  get overrides spec pages = map_code pages (lookup spec overrides)

  abbrev unwrap_or : RuntimeCode → Option RuntimeCode → RuntimeCode
  unwrap_or onchain none = onchain
  unwrap_or onchain (some code) = code

  -- `LocalCallExecutor::check_override`, given its `runtime_version`.
  unfoldable pub check_override :
      (BlockId → Result ChainError ℕ)
      → Option Overrides
      → RuntimeCode
      → BlockId
      → Result ChainError RuntimeCode
  check_override version_at none onchain id = ok onchain
  check_override version_at (some overrides) onchain id = do
    spec ← version_at id
    ok (unwrap_or onchain (get overrides spec onchain.heap_pages))
