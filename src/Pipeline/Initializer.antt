-- ===== src/Pipeline/Initializer.antt =====
-- archive/notifier/src/initializer.rs, and the choice of the first number in cli/src/service.rs.
use sub_archive.Prelude.{
  Option, none, some, Bool, true, false, Result, ok, err, Outcome, returned, panicked, ◌≡◌, arith,
  if◌then◌else◌, Option-cases, inl, inr,
}
use sub_archive.Prelude.Int.{ℤ, pos, int_eq, leb_ℤ}
use sub_archive.Prelude.Assoc.{contains_key, lookup}
use sub_archive.Chain.{BlockNumber}
use sub_archive.Postgres.Tables.{IsConsistent}
use sub_archive.Postgres.Statements.{SqlxError, select_max}
use sub_archive.Postgres.Database
use sub_archive.Postgres.Database.{PostgresDb}
use sub_archive.Postgres.MaxBlock.{select_max-IsMax, select_max-none}

abbrev first_number : Result SqlxError (Option BlockNumber) → Outcome BlockNumber
first_number (err e) = panicked
first_number (ok none) = returned 0
first_number (ok (some n)) = returned n

module _ {J : Type 0} where
  -- `Initializer::run`: the number that it sends to the executor
  unfoldable pub run : PostgresDb J → Outcome BlockNumber × PostgresDb J
  run db = let (r, db') = Database.max_block_num db in (first_number r, db')

  -- The service starts from the configured number, or by the initializer.
  unfoldable pub start : Bool → BlockNumber → PostgresDb J → Outcome BlockNumber × PostgresDb J
  unfolding run
  start reset_force block_num db = if reset_force then (returned block_num, db) else run db

  -- A restart without `reset_force` resumes at the greatest block that is stored: it begins with a
  -- number that is stored, and beyond which no number is. The tables are as before.
  pub start-resumes :
      (block_num n : BlockNumber) (k : ℤ) (db : PostgresDb J)
      → IsConsistent db.tables
      → (start false block_num db).0 ≡ returned n
      → contains_key k db.tables.blocks ≡ true
      → (contains_key (pos n) db.tables.blocks ≡ true)
        × (leb_ℤ k (pos n) ≡ true)
        × ((start false block_num db).1.tables ≡ db.tables)
  unfolding start Database.max_block_num
  start-resumes block_num n k db c h stored = elim (Option-cases (select_max db.tables)) [
    | inl empty ↦
        let e = (select_max-none db.tables).0 empty in absurd (unfold lookup in ground (arith, e))
    | inr (m, found) ↦ ground (arith, found, select_max-IsMax db.tables m k c found stored)
  ]
