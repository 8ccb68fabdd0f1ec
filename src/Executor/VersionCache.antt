-- ===== src/Executor/VersionCache.antt =====
-- archive/executor/src/version_cache.rs: the runtime versions, by the hash of the runtime's code.
use sub_archive.Prelude.{
  ℕ, List, Option, none, some, Bool, Result, ok, err, Outcome, returned, panicked, leb, ok_or,
  if◌then◌else◌, nat_eq, ◌>>=◌,
}
use sub_archive.Prelude.Assoc.{lookup, insert, contains_key}
use sub_archive.Chain.{Bytes, Hash, BlockId, hash, ChainError}

-- sp_version's `RuntimeVersion`: the field that the archive uses, and the versions of the APIs.
pub record RuntimeVersion : Type 0 where
  pub spec_version : ℕ
  pub apis : List (ℕ × ℕ)

-- sc_service's errors: a blockchain error, or `Other`
pub data ServiceError : Type 0 where
  client : ChainError → ServiceError
  other : ServiceError

-- The parts that are not of this repository; `S` is the backend's state.
pub record Externals (S : Type 0) : Type 0 where
  pub state_at : BlockId → Result ChainError S
  -- `state.storage(well_known_keys::CODE)`; `none` is its error
  pub code_at : S → Option (Option Bytes)
  -- std's `DefaultHasher` over the code
  pub make_hash : Option Bytes → ℕ
  -- `sp_io::misc::runtime_version` on the interpreted code
  pub runtime_version : Bytes → Option Bytes
  -- SCALE decoding of `OldRuntimeVersion`, converted, and of `RuntimeVersion`
  pub decode_old : Bytes → Option RuntimeVersion
  pub decode_new : Bytes → Option RuntimeVersion
  pub has_api_with : RuntimeVersion → ℕ → (ℕ → Bool) → Bool
  -- `blake2_64(b"Core")`
  pub core_api_id : ℕ

abbrev pub Versions : Type 0
Versions = List (ℕ × RuntimeVersion)

module _ {S : Type 0} (x : Externals S) where
  unfoldable pub decode_version : Bytes → Result ServiceError RuntimeVersion
  decode_version version = do
    v ← ok_or other (x.decode_old version)
    if x.has_api_with v x.core_api_id (λ n. leb 3 n)
        then ok_or other (x.decode_new version)
        else ok v

  -- What the runtime itself answers for a code.
  unfoldable pub executed_version : Bytes → Result ServiceError RuntimeVersion
  unfolding decode_version
  executed_version code = do ver ← ok_or other (x.runtime_version code); decode_version ver

  abbrev pub store :
      ℕ
      → Result ServiceError RuntimeVersion
      → Versions
      → Outcome (Result ServiceError (Option RuntimeVersion)) × Versions
  store code_hash (ok v) cache = (returned (ok (some v)), insert code_hash v cache)
  store code_hash (err e) cache = (returned (err e), cache)

  abbrev pub on_miss :
      ℕ → Option Bytes → Versions → Outcome (Result ServiceError (Option RuntimeVersion)) × Versions
  on_miss code_hash none cache = (panicked, cache)
  on_miss code_hash (some code) cache = store code_hash (executed_version code) cache

  abbrev pub on_code :
      Option (Option Bytes)
      → Versions
      → Outcome (Result ServiceError (Option RuntimeVersion)) × Versions
  on_code none cache = (panicked, cache)
  on_code (some code) cache =
      let code_hash = x.make_hash code in
      if contains_key code_hash cache
      then (returned (ok (lookup code_hash cache)), cache)
      else on_miss code_hash code cache

  abbrev on_state :
      Result ChainError S
      → Versions
      → Outcome (Result ServiceError (Option RuntimeVersion)) × Versions
  on_state (ok s) cache = on_code (x.code_at s) cache
  on_state (err e) cache = (returned (err (client e)), cache)

  unfoldable pub get_by_id :
      BlockId → Versions → Outcome (Result ServiceError (Option RuntimeVersion)) × Versions
  get_by_id id cache = on_state (x.state_at id) cache

  unfoldable pub get :
      Hash → Versions → Outcome (Result ServiceError (Option RuntimeVersion)) × Versions
  unfolding get_by_id
  get h cache = get_by_id (hash h) cache
