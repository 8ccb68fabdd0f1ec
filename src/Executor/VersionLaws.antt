-- ===== src/Executor/VersionLaws.antt =====
-- The cache of runtime versions answers as the runtime would, up to collisions of the hash.
use sub_archive.Prelude.{
  ℕ, Option, none, some, ok, returned, ◌≡◌, arith, nat_eq, nat_beq, nat_beq_iff, Bool-cases,
  Result-cases, Option-cases, inl, inr, ◌≢◌, sym, refl,
}
use std.Path.{subst}
use sub_archive.Prelude.Assoc.{lookup, insert, lookup-insert, contains_key}
use sub_archive.Chain.{Bytes, BlockId}
use sub_archive.Executor.VersionCache.{
  RuntimeVersion, Externals, Versions, on_miss, on_code, executed_version, get_by_id,
}

-- Of each version in the cache and its key `P` holds.
abbrev pub Holds {ℓ} : (ℕ → RuntimeVersion → Type ℓ) → Versions → Type ℓ
Holds P cache = (h : ℕ) (v : RuntimeVersion) → lookup h cache ≡ some v → P h v

-- What holds of the versions that the runtime answers, under the hashes of their codes, holds of the cache
-- and of the cache's answers.
module _ {ℓ} {S : Type 0} (x : Externals S) (P : ℕ → RuntimeVersion → Type ℓ)
    (ran : (code : Bytes) (v : RuntimeVersion)
      → executed_version x code ≡ ok v
      → P (x.make_hash (some code)) v) where
  insert-Holds :
      (code : Bytes) (v : RuntimeVersion) (cache : Versions)
      → Holds P cache
      → executed_version x code ≡ ok v
      → Holds P (insert (x.make_hash (some code)) v cache)
  insert-Holds code v cache holds e h w found =
      elim (Bool-cases (nat_beq (x.make_hash (some code)) h)) [
        | inl same ↦
            let found_v : v ≡ w =
              ground (arith, same, lookup-insert (x.make_hash (some code)) h v cache) in
            subst (λ k. P k w) ((nat_beq_iff _ h).0 same) (subst (P _) found_v (ran code v e))
        | inr differs ↦
            holds h w (ground (arith, differs, lookup-insert (x.make_hash (some code)) h v cache))
      ]

  on_miss-Holds :
      (code : Bytes) (cache : Versions)
      → Holds P cache
      → Holds P (on_miss x (x.make_hash (some code)) (some code) cache).1
  on_miss-Holds code cache holds = elim (Result-cases (executed_version x code)) [
    | inl (v, e) ↦ rw e (insert-Holds code v cache holds e)
    | inr (e, failed) ↦ rw failed holds
  ]

  on_code-Holds :
      (o : Option (Option Bytes)) (cache : Versions) → Holds P cache → Holds P (on_code x o cache).1
  on_code-Holds none cache holds = holds
  on_code-Holds (some none) cache holds =
      elim (Bool-cases (contains_key (x.make_hash none) cache)) [
        | inl hit ↦ rw hit holds
        | inr miss ↦ rw miss holds
      ]
  on_code-Holds (some (some code)) cache holds =
      elim (Bool-cases (contains_key (x.make_hash (some code)) cache)) [
        | inl hit ↦ rw hit holds
        | inr miss ↦ rw miss (on_miss-Holds code cache holds)
      ]

  pub get_by_id-Holds :
      (id : BlockId) (cache : Versions) → Holds P cache → Holds P (get_by_id x id cache).1
  unfolding get_by_id
  get_by_id-Holds id cache holds = elim (Result-cases (x.state_at id)) [
    | inr (e, failed) ↦ rw failed holds
    | inl (s, found) ↦ rw found (on_code-Holds (x.code_at s) cache holds)
  ]

  pub get_by_id-answers :
      (id : BlockId) (cache : Versions) (s : S) (o : Option Bytes) (v : RuntimeVersion)
      → Holds P cache
      → x.state_at id ≡ ok s
      → x.code_at s ≡ some o
      → (get_by_id x id cache).0 ≡ returned (ok (some v))
      → P (x.make_hash o) v
  unfolding get_by_id
  get_by_id-answers id cache s o v holds e f h =
      elim (Bool-cases (contains_key (x.make_hash o) cache)) [
        | inl hit ↦ holds (x.make_hash o) v (ground (arith, hit))
        | inr miss ↦ elim (Option-cases o) [
          | inl no_code ↦ absurd (ground (arith, miss, no_code))
          | inr (code, q) ↦
              subst (λ p. P (x.make_hash p) v) (sym q) (ran code v (ground (arith, miss, q)))
        ]
      ]

module _ {S : Type 0} (x : Externals S) where
  -- The runtime answered the version for a code of that hash.
  abbrev pub IsAnswer : ℕ → RuntimeVersion → Type 0
  IsAnswer h v = (code : Bytes) × (x.make_hash (some code) ≡ h) × (executed_version x code ≡ ok v)

  -- The cache stays sound, whatever `get_by_id` is asked for and whatever fails.
  pub get_by_id-IsSound :
      (id : BlockId) (cache : Versions)
      → Holds IsAnswer cache
      → Holds IsAnswer (get_by_id x id cache).1
  get_by_id-IsSound = get_by_id-Holds x IsAnswer (λ code v e. (code, refl, e))

  module _ (id : BlockId) (cache : Versions) where
    -- `get_by_id` never answers `Ok(None)`.
    pub get_by_id-ne-none : (get_by_id x id cache).0 ≢ returned (ok none)
    unfolding get_by_id
    get_by_id-ne-none = ground arith

    -- An answer has read the code in the state of the block.
    pub get_by_id-read :
        (v : RuntimeVersion)
        → (get_by_id x id cache).0 ≡ returned (ok (some v))
        → (s : S) × ((o : Option Bytes) × ((x.state_at id ≡ ok s) × (x.code_at s ≡ some o)))
    unfolding get_by_id
    get_by_id-read v h = elim (Result-cases (x.state_at id)) [
      | inr (e, failed) ↦ absurd (ground (arith, failed, h))
      | inl (s, found) ↦ elim (Option-cases (x.code_at s)) [
        | inl missing ↦ absurd (ground (arith, found, missing, h))
        | inr (o, there) ↦ (s, (o, (found, there)))
      ]
    ]

    -- From a sound cache, the answer is what the runtime answers for a code that has the hash of
    -- the block's code.
    pub get_by_id-IsExecuted :
        (s : S) (o : Option Bytes) (v : RuntimeVersion)
        → Holds IsAnswer cache
        → x.state_at id ≡ ok s
        → x.code_at s ≡ some o
        → (get_by_id x id cache).0 ≡ returned (ok (some v))
        → (code : Bytes) × (x.make_hash (some code) ≡ x.make_hash o)
          × (executed_version x code ≡ ok v)
    get_by_id-IsExecuted = get_by_id-answers x IsAnswer (λ code v e. (code, refl, e)) id cache

    -- After an answer, a block with the same code is answered alike, from the cache: the cache is
    -- not changed, whatever the runtime would answer now.
    pub get_by_id_again :
        (id' : BlockId) (s s' : S) (o : Option Bytes) (v : RuntimeVersion)
        → x.state_at id ≡ ok s
        → x.code_at s ≡ some o
        → x.state_at id' ≡ ok s'
        → x.code_at s' ≡ some o
        → (get_by_id x id cache).0 ≡ returned (ok (some v))
        → get_by_id x id' (get_by_id x id cache).1
          ≡ (returned (ok (some v)), (get_by_id x id cache).1)
    unfolding get_by_id
    get_by_id_again id' s s' o v e f e' f' h =
        ground (arith, lookup-insert (x.make_hash o) (x.make_hash o) v cache)
