-- ===== src/Traits/RocksDb.antt =====
-- archive/traits/src/readonly/{mod,rocksdb}.rs: the secondary RocksDB instance.
use sub_archive.Prelude.{
  ℕ, zero, suc, ◌+◌, ◌-◌, ◌/◌, List, [], Option, none, some, Result, ok, err, nat_beq,
  if◌then◌else◌,
}
use sub_archive.Prelude.Assoc.{insert}
use sub_archive.Prelude.{nat_eq}
use sub_archive.Chain.{Bytes}

abbrev pub num_columns : ℕ
num_columns = 12

-- columns::STATE
abbrev pub state_column : ℕ
state_column = 1

-- The budgets of a cache of `cache_size` MiB. The product by the float 0.9 and its truncation are
-- `scale`. The subtraction would panic or wrap below zero; it stops at zero here, which is the same
-- where `scale cache_size ≤ cache_size`.
module _ (scale : ℕ → ℕ) (cache_size : ℕ) where
  abbrev pub state_col_budget : ℕ
  state_col_budget = scale cache_size

  abbrev pub other_col_budget : ℕ
  other_col_budget = (cache_size - state_col_budget) / (num_columns - 1)

  abbrev pub column_budget : ℕ → ℕ
  column_budget i = if nat_beq i state_column then state_col_budget else other_col_budget

  -- the loop `for i in 0..n`, from `i` on
  fill : ℕ → ℕ → List (ℕ × ℕ) → List (ℕ × ℕ)
  fill i zero budget = budget
  fill i (suc rest) budget = fill (i + 1) rest (insert i (column_budget i) budget)

  -- The `memory_budget` that `open` builds.
  unfoldable pub memory_budget : List (ℕ × ℕ)
  unfolding fill
  memory_budget = fill 0 num_columns []

-- kvdb_rocksdb's database: reading a key, and catching up with the primary. `D` is its state.
pub record Database (D E : Type 0) : Type 0 where
  pub read : D → ℕ → Bytes → Result E (Option Bytes)
  pub catch_up : D → Result E D

module _ {D E : Type 0} (database : Database D E) where
  abbrev after_catch_up : Result E D → D → (D → Option Bytes × D) → Option Bytes × D
  after_catch_up (ok d') d k = k d'
  after_catch_up (err e) d k = (none, d)

  abbrev read_again : Result E (Option Bytes) → D → Option Bytes × D
  read_again (ok value) d = (value, d)
  read_again (err e) d = (none, d)

  abbrev first_read : Result E (Option Bytes) → D → ℕ → Bytes → Option Bytes × D
  first_read (ok (some value)) d col key = (some value, d)
  first_read (ok none) d col key = after_catch_up (database.catch_up d) d (λ d'. (none, d'))
  first_read (err e) d col key =
      after_catch_up (database.catch_up d) d (λ d'. read_again (database.read d' col key) d')

  -- `SecondaryRocksDb::get`, with the database's state after it
  unfoldable pub get : D → ℕ → Bytes → Option Bytes × D
  get d col key = first_read (database.read d col key) d col key
