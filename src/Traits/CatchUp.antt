-- ===== src/Traits/CatchUp.antt =====
-- Reads of the secondary database, and when it catches up with the primary.
use sub_archive.Prelude.{ℕ, some, ok, ◌≡◌, arith, ◌⊎◌}
use sub_archive.Chain.{Bytes}
use sub_archive.Traits.RocksDb.{Database, get}

module _ {D E : Type 0} (database : Database D E) (d : D) (col : ℕ) (key : Bytes) where
  -- A value that `get` yields was read from the database, before or after it caught up.
  pub get-was_read :
      (value : Bytes)
      → (get database d col key).0 ≡ some value
      → (database.read d col key ≡ ok (some value))
        ⊎ (database.read (get database d col key).1 col key ≡ ok (some value))
          × (database.catch_up d ≡ ok (get database d col key).1)
  unfolding get
  get-was_read value h = ground arith
