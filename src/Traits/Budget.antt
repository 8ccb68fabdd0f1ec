-- ===== src/Traits/Budget.antt =====
-- The memory budget of the secondary database.
use sub_archive.Prelude.{ℕ, ◌+◌, ◌≤◌, ◌<◌, ◌≡◌, List, [], ◌∷◌, some, arith, nat_eq}
use sub_archive.Prelude.Assoc.{lookup, insert}
use sub_archive.Traits.RocksDb.{num_columns, memory_budget, column_budget}

abbrev pub sum_budget : List (ℕ × ℕ) → ℕ
sum_budget [] = 0
sum_budget ((i, n) ∷ rest) = n + sum_budget rest

-- The budgets of all columns together stay within the cache size.
pub memory_budget-le :
    (scale : ℕ → ℕ) (cache_size : ℕ)
    → scale cache_size ≤ cache_size
    → sum_budget (memory_budget scale cache_size) ≤ cache_size
unfolding memory_budget insert
memory_budget-le scale cache_size h = omega arith

-- Every column has an entry: the state column its own, and each other column an equal share.
pub memory_budget-lookup :
    (scale : ℕ → ℕ) (cache_size i : ℕ)
    → i < num_columns
    → lookup i (memory_budget scale cache_size) ≡ some (column_budget scale cache_size i)
unfolding memory_budget insert lookup
memory_budget-lookup scale cache_size i h = ground arith
