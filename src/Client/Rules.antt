-- ===== src/Client/Rules.antt =====
-- client/service/src/client/block_rules.rs: bad blocks and the forks that a chain prescribes.
use sub_archive.Prelude.{
  List, [], ◌∷◌, Option, none, some, Bool, true, false, ◌||◌, ◌≡◌, ◌↔◌, arith, nat_eq, nat_beq,
  nat_beq_iff, elem, if◌then◌else◌,
}
use mathlib.Core.List.{foldl}
use sub_archive.Prelude.Assoc.{lookup as get, insert}
use sub_archive.Chain.{Hash, BlockNumber}

-- `LookupResult<B>`
pub data LookupResult : Type 0 where
  not_special : LookupResult
  known_bad : LookupResult
  expected : Hash → LookupResult

pub record BlockRules : Type 0 where
  pub bad : List Hash
  pub forks : List (BlockNumber × Hash)

abbrev unwrap_or {ℓ} : {A : Type ℓ} → A → Option A → A
unwrap_or a none = a
unwrap_or a (some b) = b

-- `into_iter().collect()` of the forks: of two hashes for one number the later one stays.
unfoldable pub collect_forks : List (BlockNumber × Hash) → List (BlockNumber × Hash)
collect_forks forks = foldl (λ m p. insert p.0 p.1 m) [] forks

abbrev pub new : Option (List (BlockNumber × Hash)) → Option (List Hash) → BlockRules
new fork_blocks bad_blocks = record {
  bad = unwrap_or [] bad_blocks;
  forks = collect_forks (unwrap_or [] fork_blocks);
}

-- A set holds a hash once.
unfoldable pub mark_bad : Hash → BlockRules → BlockRules
mark_bad h rules = record rules { bad = if elem h rules.bad then rules.bad else h ∷ rules.bad }

-- The hash that the forks prescribe for the number, if it is another one.
abbrev other_fork : Hash → Option Hash → Option Hash
other_fork h none = none
other_fork h (some hash_for_height) =
    if nat_beq hash_for_height h then none else some hash_for_height

unfoldable pub lookup : BlockRules → BlockNumber → Hash → LookupResult
lookup rules n h = elim (other_fork h (get n rules.forks)) [
  | some hash_for_height ↦ expected hash_for_height
  | none ↦ if elem h rules.bad then known_bad else not_special
]

-- The forks allow `h` at the number `n`.
abbrev pub fork_allows : BlockRules → BlockNumber → Hash → Bool
fork_allows rules n h = elim (get n rules.forks) [
  | some hash_for_height ↦ nat_beq hash_for_height h
  | none ↦ true
]

pub lookup-not_special_iff :
    (rules : BlockRules) (n : BlockNumber) (h : Hash)
    → (lookup rules n h ≡ not_special)
      ↔ ((fork_allows rules n h ≡ true) × (elem h rules.bad ≡ false))
unfolding lookup
lookup-not_special_iff rules n h = ground arith

pub elem-mark_bad :
    (h k : Hash) (rules : BlockRules)
    → elem k (mark_bad h rules).bad ≡ (nat_beq k h || elem k rules.bad)
unfolding mark_bad
elem-mark_bad h k rules = ground (arith, nat_beq_iff k h)
