-- ===== src/Client/OverrideLaws.antt =====
-- An override replaces the code of its own version alone, and no override hides another.
use sub_archive.Prelude.{
  ℕ, List, [], ◌∷◌, Option, none, some, Bool, true, false, Result, ok, ◌≡◌, ◌⊎◌, refl, arith,
  nat_eq, inl, inr, Option-cases, Result-cases, All, Bool-cases,
}
use sub_archive.Prelude.Assoc.{lookup, insert-All, lookup-All}
use std.Path.{subst}
use sub_archive.Chain.{Bytes, BlockId, ChainError}
use sub_archive.Client.Overrides.{
  RuntimeCode, WasmBlob, Entry, Overrides, scrape_entry, scrape_each, scrape_overrides,
  runtime_version, get, check_override, new_blob, inserted,
}

module _ (make_hash : Bytes → Bytes) (spec_version : RuntimeCode → Option ℕ) where
  -- An override stands under the version that the executor reads from its code.
  abbrev pub IsVersioned : ℕ × WasmBlob → Type 0
  IsVersioned p =
      (spec_version (record { code = p.1.code; hash = p.1.hash; heap_pages = some 128 }) ≡ some p.0)
      × (p.1.hash ≡ make_hash p.1.code)

  -- What reading an entry adds.
  pub scrape_entry-cases :
      (entry : Entry) (found found' : Overrides × List Bytes)
      → scrape_entry make_hash spec_version entry found ≡ ok found'
      → ((entry.is_wasm ≡ false) × (found' ≡ found))
        ⊎ ((contents : Bytes) × ((v : ℕ) × ((entry.contents ≡ some contents)
                × (runtime_version make_hash spec_version
                      (new_blob make_hash spec_version contents)
                      (some 128)
                    ≡ ok v)
                × (found'
                    ≡ inserted make_hash spec_version entry.path v
                        (new_blob make_hash spec_version contents)
                        found))))
  unfolding scrape_entry
  scrape_entry-cases entry found found' e = elim (Bool-cases entry.is_wasm) [
    | inr other ↦ inl (other, ground (arith, other, e))
    | inl wasm ↦ elim (Option-cases entry.contents) [
      | inl unread ↦ absurd (ground (arith, wasm, unread, e))
      | inr (contents, q) ↦
          elim (Result-cases (
            runtime_version make_hash spec_version (new_blob make_hash spec_version contents)
              (some 128))) [
                | inr (x, q') ↦ absurd (ground (arith, wasm, q, q', e))
                | inl (v, q') ↦ inr (contents, (v, (q, q', ground (arith, wasm, q, q', e))))
              ]
    ]
  ]

  scrape_entry-All :
      (entry : Entry) (found found' : Overrides × List Bytes)
      → All IsVersioned found.0
      → scrape_entry make_hash spec_version entry found ≡ ok found'
      → All IsVersioned found'.0
  unfolding runtime_version
  scrape_entry-All entry found found' all e = elim (scrape_entry-cases entry found found' e) [
    | inl (other, q) ↦ rw q all
    | inr (contents, (v, (q, q', added))) ↦ rw added (
        insert-All IsVersioned v (new_blob make_hash spec_version contents) found.0 all
          (ground (arith, q'), refl))
  ]

  scrape_each-All :
      (entries : List (Option Entry)) (found found' : Overrides × List Bytes)
      → All IsVersioned found.0
      → scrape_each make_hash spec_version entries found ≡ ok found'
      → All IsVersioned found'.0
  unfolding scrape_each
  scrape_each-All [] found found' all e =
      let same : found ≡ found' = ground (arith, e) in subst (λ f. All IsVersioned f.0) same all
  scrape_each-All (none ∷ rest) found found' all e = absurd (ground (arith, e))
  scrape_each-All (some entry ∷ rest) found found' all e =
      elim (Result-cases (scrape_entry make_hash spec_version entry found)) [
        | inr (x, q) ↦ absurd (ground (arith, q, e))
        | inl (next, q) ↦
            scrape_each-All rest next found' (scrape_entry-All entry found next all q)
              (ground (arith, q, e))
      ]

  scrape_overrides-All :
      (is_dir : Bool) (entries : Option (List (Option Entry))) (overrides : Overrides)
      → scrape_overrides make_hash spec_version is_dir entries ≡ ok overrides
      → All IsVersioned overrides
  unfolding scrape_overrides
  scrape_overrides-All false entries overrides e = absurd (ground (arith, e))
  scrape_overrides-All true none overrides e = absurd (ground (arith, e))
  scrape_overrides-All true (some listed) overrides e =
      elim (Result-cases (scrape_each make_hash spec_version listed ([], []))) [
        | inr (x, q) ↦ absurd (ground (arith, q, e))
        | inl ((found, []), q) ↦
            let same : found ≡ overrides = ground (arith, q, e) in
            subst (All IsVersioned) same (scrape_each-All listed ([], []) (found, []) tt q)
        | inl ((found, path ∷ more), q) ↦ absurd (ground (arith, q, e))
      ]

  -- With the overrides of a directory, the code that a block is executed with is the one on its
  -- chain, or the executor reads the block's spec version from it, and it has the heap pages of the
  -- one on the chain.
  pub check_override-IsSameVersion :
      (is_dir : Bool) (entries : Option (List (Option Entry))) (overrides : Overrides)
      (version_at : BlockId → Result ChainError ℕ) (onchain code : RuntimeCode) (id : BlockId)
      → scrape_overrides make_hash spec_version is_dir entries ≡ ok overrides
      → check_override make_hash spec_version version_at (some overrides) onchain id ≡ ok code
      → (code ≡ onchain)
        ⊎ ((spec : ℕ) × ((version_at id ≡ ok spec)
              × (spec_version (record code { heap_pages = some 128 }) ≡ some spec)
              × (code.heap_pages ≡ onchain.heap_pages)))
  unfolding check_override get
  check_override-IsSameVersion is_dir entries overrides version_at onchain code id scraped e =
      elim (Result-cases (version_at id)) [
        | inr (x, q) ↦ absurd (ground (arith, q, e))
        | inl (spec, q) ↦ elim (Option-cases (lookup spec overrides)) [
          | inl missing ↦ inl (ground (arith, q, missing, e))
          | inr (blob, found) ↦
              let versioned =
                lookup-All IsVersioned spec blob overrides
                  (scrape_overrides-All is_dir entries overrides scraped) found in
              inr (spec, (q, ground (arith, q, found, e, versioned.0), ground (arith, q, found, e)))
        ]
      ]
