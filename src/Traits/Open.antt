-- ===== src/Traits/Open.antt =====
-- `SecondaryRocksDb::open` and `commit` of archive/traits/src/readonly/rocksdb.rs, and what
-- `LocalBackendCore` leaves unimplemented.
use sub_archive.Prelude.{
  ℕ, List, Option, none, some, Result, ok, err, Outcome, returned, panicked, ◌≡◌, arith,
  Option-cases, inl, inr, Result-cases,
}
use sub_archive.Chain.{Bytes}
use sub_archive.Traits.RocksDb.{Database, num_columns, memory_budget}

pub record RocksDbConfig : Type 0 where
  pub path : Bytes
  pub cache_size : ℕ
  pub secondary_db_path : Bytes

-- `DatabaseConfig` of kvdb_rocksdb, as far as it is set.
pub record DatabaseConfig : Type 0 where
  pub columns : ℕ
  pub secondary : Option Bytes
  pub memory_budget : List (ℕ × ℕ)

-- `to_str` of a path, and the opening of a database.
pub record Opening (D E : Type 0) : Type 0 where
  pub to_str : Bytes → Option Bytes
  pub open_database : DatabaseConfig → Bytes → Result E D

abbrev pub db_config : (ℕ → ℕ) → ℕ → Bytes → DatabaseConfig
db_config scale cache_size secondary_db_path = record {
  columns = num_columns;
  secondary = some secondary_db_path;
  memory_budget = memory_budget scale cache_size;
}

module _ {D E : Type 0} (opening : Opening D E) (database : Database D E) (scale : ℕ → ℕ) where
  abbrev pub caught_up : Result E D → Result E D
  caught_up (ok db) = database.catch_up db
  caught_up (err e) = err e

  unfoldable pub open_secondary : RocksDbConfig → Outcome (Result E D)
  open_secondary config = elim (opening.to_str config.path) [
    | none ↦ panicked
    | some path ↦ elim (opening.to_str config.secondary_db_path) [
      | none ↦ panicked
      | some secondary_db_path ↦ returned (
          caught_up
            (opening.open_database (db_config scale config.cache_size secondary_db_path) path))
    ]
  ]

  -- A database that is opened is one opened as a secondary with the budgets of its columns, once it has
  -- caught up with the primary.
  pub open_secondary-caught_up :
      (config : RocksDbConfig) (db : D)
      → open_secondary config ≡ returned (ok db)
      → (path : Bytes) × ((secondary_db_path : Bytes) × ((opened : D) × ((opening.to_str config.path
                ≡ some path)
              × (opening.to_str config.secondary_db_path ≡ some secondary_db_path)
              × (opening.open_database (db_config scale config.cache_size secondary_db_path) path
                  ≡ ok opened)
              × (database.catch_up opened ≡ ok db))))
  unfolding open_secondary
  open_secondary-caught_up config db e = elim (Option-cases (opening.to_str config.path)) [
    | inl missing ↦ absurd (ground (arith, missing, e))
    | inr (path, p) ↦ elim (Option-cases (opening.to_str config.secondary_db_path)) [
      | inl missing ↦ absurd (ground (arith, p, missing, e))
      | inr (secondary, q) ↦
          elim (Result-cases
            (opening.open_database (db_config scale config.cache_size secondary) path)) [
              | inr (x, o) ↦ absurd (ground (arith, p, q, o, e))
              | inl (opened, o) ↦
                  (path, (secondary, (opened, (p, q, o, ground (arith, p, q, o, e)))))
            ]
    ]
  ]

-- The database is read only.
abbrev pub commit : {T A : Type 0} → T → Outcome A
commit transaction = panicked

-- `unimplemented!()`
module _ {A : Type 0} where
  abbrev pub get_storages : Outcome A
  get_storages = panicked

  abbrev pub get_code : Outcome A
  get_code = panicked

  abbrev pub execute_block : Outcome A
  execute_block = panicked
