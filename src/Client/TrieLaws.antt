-- ===== src/Client/TrieLaws.antt =====
-- How far the walk of `require_changes_trie` goes.
use sub_archive.Prelude.{
  ℕ, zero, suc, ◌≤◌, ◌<◌, List, [], ◌∷◌, ◌++◌, some, Bool, true, false, Result, ok, err, ltb,
  if◌then◌else◌, ◌≡◌, ◌⊎◌, inl, inr, refl, arith, Result-cases, Option-cases, Bool-cases, ap, ◌∙◌,
}
use mathlib.Core.List.{append_assoc}
use sub_archive.Chain.{
  Bytes, Hash, BlockNumber, hash, Header, ChainError, changes_tries_not_supported,
}
use sub_archive.Client.Backend.{Blockchain}
use sub_archive.Client.ChangesTrie.{
  ConfigRange, Active, TrieStorage, active, expect_header, descend, last_config,
}

-- The parent of the block where a configuration began is older than each block that has it.
abbrev pub GoesBack : Blockchain → TrieStorage → (Hash → ℕ) → Type 0
GoesBack chain storage depth =
    (h : Hash) (range : ConfigRange) (header : Header)
    → storage.configuration_at (hash h) ≡ ok range
    → expect_header chain range.zero_hash ≡ ok header
    → depth header.parent_hash < depth h

last_config-cons :
    (c : Active) (rest : List Active) (d : Active)
    → last_config rest ≡ some d
    → last_config (c ∷ rest) ≡ some d
last_config-cons c [] d e = absurd (ground (arith, e))
last_config-cons c (d' ∷ rest) d e = e

module _ (chain : Blockchain) (storage : TrieStorage) (first : BlockNumber) where
  -- The configurations of a stretch of the chain, from the block `h` back: each follows the one before
  -- it, and the last is the first of them to have begun before `first`.
  pub data IsWalk : Hash → List Active → Type 0 where
    oldest :
        {h : Hash} {configs : List Active} (range : ConfigRange) (config : Bytes)
        → storage.configuration_at (hash h) ≡ ok range
        → range.config ≡ some config
        → range.zero_number < first
        → configs ≡ active range config ∷ []
        → IsWalk h configs
    older :
        {h : Hash} {configs : List Active} (range : ConfigRange) (config : Bytes) (header : Header)
        (rest : List Active)
        → storage.configuration_at (hash h) ≡ ok range
        → range.config ≡ some config
        → first ≤ range.zero_number
        → expect_header chain range.zero_hash ≡ ok header
        → configs ≡ active range config ∷ rest
        → IsWalk header.parent_hash rest
        → IsWalk h configs

  abbrev pub Ends : ℕ → Hash → List Active → Type 0
  Ends fuel h acc =
      ((rest : List Active) × ((descend chain storage first true fuel h acc
            ≡ some (ok (acc ++ rest)))
          × IsWalk h rest))
      ⊎ ((e : ChainError) × (descend chain storage first true fuel h acc ≡ some (err e)))

  pub descend-Ends :
      (depth : Hash → ℕ) (fuel : ℕ) (h : Hash) (acc : List Active)
      → GoesBack chain storage depth
      → depth h < fuel
      → Ends fuel h acc
  unfolding descend
  descend-Ends depth zero h acc back enough = absurd (omega (arith, enough))
  descend-Ends depth (suc fuel) h acc back enough =
      elim (Result-cases (storage.configuration_at (hash h))) [
        | inr (e, q) ↦ inr (e, ground (arith, q))
        | inl (range, q) ↦ elim (Option-cases range.config) [
          | inl off ↦ inr (changes_tries_not_supported, ground (arith, q, off))
          | inr (config, on) ↦ elim (Bool-cases (ltb range.zero_number first)) [
            | inl lt ↦ inl (
              active range config ∷ [],
              (ground (arith, q, on, lt), oldest range config q on (ground (arith, lt)) refl),
            )
            | inr ge ↦ elim (Result-cases (expect_header chain range.zero_hash)) [
              | inr (e, r) ↦ inr (e, ground (arith, q, on, ge, r))
              | inl (header, r) ↦
                  let e' : descend chain storage first true (suc fuel) h acc
                      ≡ descend chain storage first true fuel header.parent_hash
                          (acc ++ active range config ∷ []) =
                    ground (arith, q, on, ge, r) in
                  elim (descend-Ends depth fuel header.parent_hash (acc ++ active range config ∷ [])
                    back (omega (arith, back h range header q r, enough))) [
                      | inl (rest, (found, walk)) ↦ inl (
                        active range config ∷ rest,
                        (
                          e'
                              ∙ found
                              ∙ ap (λ (l : List Active). some (ok l))
                                  (append_assoc acc (active range config ∷ []) rest),
                          older range config header rest q on (ground (arith, ge)) r refl walk,
                        ),
                      )
                      | inr (e, found) ↦ inr (e, e' ∙ found)
                    ]
            ]
          ]
        ]
      ]

  -- The walk ends whether or not a stretch without changes tries is an error.
  pub descend-returns :
      (depth : Hash → ℕ) (strict : Bool) (fuel : ℕ) (h : Hash) (acc : List Active)
      → GoesBack chain storage depth
      → depth h < fuel
      → (r : Result ChainError (List Active)) × (descend chain storage first strict fuel h acc
          ≡ some r)
  unfolding descend
  descend-returns depth strict zero h acc back enough = absurd (omega (arith, enough))
  descend-returns depth strict (suc fuel) h acc back enough =
      elim (Result-cases (storage.configuration_at (hash h))) [
        | inr (e, q) ↦ (err e, ground (arith, q))
        | inl (range, q) ↦ elim (Option-cases range.config) [
          | inl off ↦
              (if strict then err changes_tries_not_supported else ok acc, ground (arith, q, off))
          | inr (config, on) ↦ elim (Bool-cases (ltb range.zero_number first)) [
            | inl lt ↦ (ok (acc ++ active range config ∷ []), ground (arith, q, on, lt))
            | inr ge ↦ elim (Result-cases (expect_header chain range.zero_hash)) [
              | inr (e, r) ↦ (err e, ground (arith, q, on, ge, r))
              | inl (header, r) ↦
                  let (result, found) =
                    descend-returns depth strict fuel header.parent_hash
                      (acc ++ active range config ∷ []) back
                      (omega (arith, back h range header q r, enough)) in
                  (result, ground (arith, q, on, ge, r, found))
            ]
          ]
        ]
      ]

  -- Where the strict walk succeeds, the other one finds the same.
  pub descend-lenient :
      (fuel : ℕ) (h : Hash) (acc out : List Active)
      → descend chain storage first true fuel h acc ≡ some (ok out)
      → descend chain storage first false fuel h acc ≡ some (ok out)
  unfolding descend
  descend-lenient zero h acc out e = absurd (ground (arith, e))
  descend-lenient (suc fuel) h acc out e = elim (Result-cases (storage.configuration_at (hash h))) [
    | inr (x, q) ↦ absurd (ground (arith, q, e))
    | inl (range, q) ↦ elim (Option-cases range.config) [
      | inl off ↦ absurd (ground (arith, q, off, e))
      | inr (config, on) ↦ elim (Bool-cases (ltb range.zero_number first)) [
        | inl lt ↦ ground (arith, q, on, lt, e)
        | inr ge ↦ elim (Result-cases (expect_header chain range.zero_hash)) [
          | inr (x, r) ↦ absurd (ground (arith, q, on, ge, r, e))
          | inl (header, r) ↦
              let later =
                descend-lenient fuel header.parent_hash (acc ++ active range config ∷ []) out
                  (ground (arith, q, on, ge, r, e)) in
              ground (arith, q, on, ge, r, later)
        ]
      ]
    ]
  ]

  pub IsWalk-last :
      {h : Hash} {configs : List Active}
      → IsWalk h configs
      → (c : Active) × ((last_config configs ≡ some c) × (c.zero_number < first))
  IsWalk-last (oldest range config q on lt e) = (active range config, (ap last_config e, lt))
  IsWalk-last (older range config header rest q on ge r e walk) =
      let (c, (found, lt)) = IsWalk-last walk in
      (c, (ap last_config e ∙ last_config-cons (active range config) rest c found, lt))
