-- ===== src/Client/OverrideScrape.antt =====
-- The directory that client/service/src/client/wasm_override.rs reads is stored as a whole, or refused.
use std.Path.{subst}
use sub_archive.Prelude.{
  ℕ, List, [], ◌∷◌, ◌++◌, Option, none, some, true, false, ok, ◌≡◌, ◌≢◌, refl, arith, nat_eq,
  nat_beq_iff, inl, inr, Option-cases, Result-cases, All,
}
use sub_archive.Prelude.Assoc.{lookup, insert, lookup-insert}
use sub_archive.Chain.{Bytes}
use sub_archive.Client.Overrides.{
  RuntimeCode, WasmBlob, Entry, Overrides, scrape_entry, scrape_each, scrape_overrides,
  runtime_version, new_blob, inserted,
}
use sub_archive.Client.OverrideLaws.{scrape_entry-cases}

module _ (make_hash : Bytes → Bytes) (spec_version : RuntimeCode → Option ℕ) where
  -- The entry was read, and its code, if it is one, stands under its version.
  pub data IsStored (overrides : Overrides) : Option Entry → Type 0 where
    other : (entry : Entry) → entry.is_wasm ≡ false → IsStored overrides (some entry)
    stored :
        (entry : Entry) (contents : Bytes) (v : ℕ)
        → entry.contents ≡ some contents
        → runtime_version make_hash spec_version
            (new_blob make_hash spec_version contents)
            (some 128)
          ≡ ok v
        → lookup v overrides ≡ some (new_blob make_hash spec_version contents)
        → IsStored overrides (some entry)

  snoc-ne-nil : (xs : List Bytes) (x : Bytes) → xs ++ x ∷ [] ≢ []
  snoc-ne-nil [] x e = ground (arith, e)
  snoc-ne-nil (y ∷ xs) x e = ground (arith, e)

  -- A code that is no duplicate leaves what was stored.
  inserted-keeps :
      (path : Bytes) (v : ℕ) (blob : WasmBlob) (found : Overrides × List Bytes)
      → (inserted make_hash spec_version path v blob found).1 ≡ []
      → (found.1 ≡ [])
        × ((k : ℕ) (old : WasmBlob)
            → lookup k found.0 ≡ some old
            → lookup k (insert v blob found.0) ≡ some old)
  inserted-keeps path v blob (overrides, duplicates) e = elim (Option-cases (lookup v overrides)) [
    | inr (old, q) ↦ absurd (ground (arith, q, e, snoc-ne-nil duplicates path))
    | inl q ↦ (
      ground (arith, q, e),
      λ k old h. ground (arith, q, h, lookup-insert v k blob overrides, nat_beq_iff v k),
    )
  ]

  scrape_entry-keeps :
      (entry : Entry) (found next : Overrides × List Bytes)
      → scrape_entry make_hash spec_version entry found ≡ ok next
      → next.1 ≡ []
      → (found.1 ≡ [])
        × ((k : ℕ) (old : WasmBlob) → lookup k found.0 ≡ some old → lookup k next.0 ≡ some old)
        × IsStored next.0 (some entry)
  scrape_entry-keeps entry found next e none_twice =
      elim (scrape_entry-cases make_hash spec_version entry found next e) [
        | inl (no_wasm, q) ↦ (ground (arith, q, none_twice), λ k old h. rw q h, other entry no_wasm)
        | inr (contents, (v, (q, q', added))) ↦
            let blob = new_blob make_hash spec_version contents in
            let kept = inserted-keeps entry.path v blob found (ground (arith, added, none_twice)) in
            (
              kept.0,
              λ k old h. rw added (kept.1 k old h),
              stored entry contents v q q'
                  (rw added (ground (arith, lookup-insert v v blob found.0, nat_beq_iff v v))),
            )
      ]

  IsStored-grows :
      (before after : Overrides)
      → ((k : ℕ) (old : WasmBlob) → lookup k before ≡ some old → lookup k after ≡ some old)
      → (o : Option Entry) → IsStored before o
      → IsStored after o
  IsStored-grows before after f o (other entry no_wasm) = other entry no_wasm
  IsStored-grows before after f o (stored entry contents v q q' h) =
      stored entry contents v q q' (f v _ h)

  scrape_each-keeps :
      (entries : List (Option Entry)) (found found' : Overrides × List Bytes)
      → scrape_each make_hash spec_version entries found ≡ ok found'
      → found'.1 ≡ []
      → (found.1 ≡ [])
        × ((k : ℕ) (old : WasmBlob) → lookup k found.0 ≡ some old → lookup k found'.0 ≡ some old)
        × All (IsStored found'.0) entries
  unfolding scrape_each
  scrape_each-keeps [] found found' e none_twice =
      let same : found ≡ found' = ground (arith, e) in
      (ground (arith, same, none_twice), λ k old h. rw same at h, tt)
  scrape_each-keeps (none ∷ rest) found found' e none_twice = absurd (ground (arith, e))
  scrape_each-keeps (some entry ∷ rest) found found' e none_twice =
      elim (Result-cases (scrape_entry make_hash spec_version entry found)) [
        | inr (x, q) ↦ absurd (ground (arith, q, e))
        | inl (next, q) ↦
            let later = scrape_each-keeps rest next found' (ground (arith, q, e)) none_twice in
            let now = scrape_entry-keeps entry found next q later.0 in
            (
              now.0,
              λ k old h. later.1 k old (now.1 k old h),
              (IsStored-grows next.0 found'.0 later.1 (some entry) now.2, later.2),
            )
      ]

  -- A directory that is taken is stored as a whole: every entry could be read, and each code stands
  -- under the version that the executor reads from it, so no code hides another.
  pub scrape_overrides-IsComplete :
      (listed : List (Option Entry)) (overrides : Overrides)
      → scrape_overrides make_hash spec_version true (some listed) ≡ ok overrides
      → All (IsStored overrides) listed
  unfolding scrape_overrides
  scrape_overrides-IsComplete listed overrides e =
      elim (Result-cases (scrape_each make_hash spec_version listed ([], []))) [
        | inr (x, q) ↦ absurd (ground (arith, q, e))
        | inl ((found, path ∷ more), q) ↦ absurd (ground (arith, q, e))
        | inl ((found, []), q) ↦
            let same : found ≡ overrides = ground (arith, q, e) in
            subst (λ m. All (IsStored m) listed) same
              (scrape_each-keeps listed ([], []) (found, []) q refl).2
      ]
