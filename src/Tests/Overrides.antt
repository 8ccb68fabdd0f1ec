-- ===== src/Tests/Overrides.antt =====
-- A directory with one code among other files.
use sub_archive.Prelude.{
  ℕ, List, [], ◌∷◌, Option, none, some, true, false, ok, Result, ◌≡◌, refl, nat_eq,
}
use sub_archive.Prelude.Assoc.{lookup, insert}
use sub_archive.Chain.{Bytes, BlockId, hash, ChainError}
use sub_archive.Client.Overrides.{
  RuntimeCode, Entry, Overrides, scrape_entry, scrape_each, scrape_overrides, runtime_version,
  check_override, get, new_blob,
}

-- The hash of a code is the code, and its version its first byte.
abbrev pub make_hash : Bytes → Bytes
make_hash code = code

abbrev pub spec_version : RuntimeCode → Option ℕ
spec_version c = elim c.code [ [] ↦ none | v ∷ rest ↦ some v ]

abbrev pub listed : List (Option Entry)
listed =
    some (record { path = 1 ∷ []; is_wasm = false; contents = none })
    ∷ some (record { path = 2 ∷ []; is_wasm = true; contents = some (7 ∷ 5 ∷ []) })
    ∷ []

abbrev pub overrides : Overrides
overrides = (7, new_blob make_hash spec_version (7 ∷ 5 ∷ [])) ∷ []

pub listed_is_taken : scrape_overrides make_hash spec_version true (some listed) ≡ ok overrides
unfolding scrape_overrides scrape_each scrape_entry runtime_version lookup insert
listed_is_taken = refl

abbrev pub onchain : RuntimeCode
onchain = record { code = 7 ∷ 1 ∷ []; hash = 7 ∷ 1 ∷ []; heap_pages = some 64 }

abbrev pub overriding : RuntimeCode
overriding = record { code = 7 ∷ 5 ∷ []; hash = 7 ∷ 5 ∷ []; heap_pages = some 64 }

abbrev version_at : BlockId → Result ChainError ℕ
version_at id = ok 7

seven_is_overridden :
    check_override make_hash spec_version version_at (some overrides) onchain (hash 1)
    ≡ ok overriding
unfolding check_override get lookup
seven_is_overridden = refl
