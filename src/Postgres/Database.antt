-- ===== src/Postgres/Database.antt =====
-- archive/postgres/src/database/mod.rs: `PostgresDb`, whose every call takes a connection from the
-- pool, sends one statement and waits for the reply. Which of these fails, and when, is `faults`.
use sub_archive.Prelude.{ℕ, List, [], ◌∷◌, Option, none, some, Bool, Result, ok, err}
use sub_archive.Prelude.Int.{ℤ}
use sub_archive.Postgres.Model.{MetadataModel, BlockModel, FinalizedBlockModel}
use sub_archive.Postgres.Tables.{Tables}
use sub_archive.Postgres.Statements
use sub_archive.Postgres.Statements.{SqlxError, Statement}

pub record PostgresDb (J : Type 0) : Type 0 where
  pub tables : Tables J
  -- what the next waits on the server end with; past its end nothing fails
  pub faults : List (Option SqlxError)
  -- sqlx's encoding of a bound `u32`
  pub bind : ℕ → ℤ

-- An action on the database: its result, and the database after it.
abbrev pub Db : Type 0 → Type 0 → Type 0
Db J A = PostgresDb J → Result SqlxError A × PostgresDb J

module _ {J A B : Type 0} where
  abbrev continue : Result SqlxError A → (A → Db J B) → Db J B
  continue (ok a) f db = f a db
  continue (err e) f db = (err e, db)

  infixl 5 ◌>>=◌
  abbrev pub ◌>>=◌ : Db J A → (A → Db J B) → Db J B
  ◌>>=◌ m f db = let (r, db') = m db in continue r f db'

module _ {J : Type 0} where
  abbrev next_wait : List (Option SqlxError) → Db J (Unit {0})
  next_wait [] db = (ok tt, db)
  next_wait (none ∷ rest) db = (ok tt, record db { faults = rest })
  next_wait (some e ∷ rest) db = (err e, record db { faults = rest })

  -- `pool.acquire().await`, the sending of a statement, and the wait for its reply
  wait : Db J (Unit {0})
  wait db = next_wait db.faults db

  -- The reply to a statement, which has run: where it is lost, the error is that of the wait.
  conclude : Result SqlxError (ℕ × Tables J) → Db J ℕ
  unfolding wait
  conclude (ok (affected, t)) db =
      (do _ ← wait; λ after. (ok affected, after)) (record db { tables = t })
  conclude (err e) db = (err e, db)

  -- A statement that cannot be sent does not run; one whose reply is lost has run.
  execute : ((ℕ → ℤ) → Statement J) → Db J ℕ
  unfolding wait conclude
  execute statement = do _ ← wait; λ db. conclude (statement db.bind db.tables) db

module _ {J A : Type 0} where
  fetch : ((ℕ → ℤ) → Tables J → A) → Db J A
  unfolding wait
  fetch query = do _ ← wait; λ db. (ok (query db.bind db.tables), db)

module _ {J : Type 0} where
  conn : Db J (Unit {0})
  unfolding wait
  conn = wait

  -- `insert` of each `InsertModel`
  unfoldable pub insert_block : BlockModel J → Db J ℕ
  unfolding conn execute
  insert_block m = do _ ← conn; execute (λ bind. Statements.insert_block bind m)

  unfoldable pub insert_metadata : MetadataModel → Db J ℕ
  unfolding conn execute
  insert_metadata m = do _ ← conn; execute (λ bind. Statements.insert_metadata bind m)

  unfoldable pub insert_finalized : FinalizedBlockModel → Db J ℕ
  unfolding conn execute
  insert_finalized m = do _ ← conn; execute (λ bind. Statements.insert_finalized bind m)

  unfoldable pub update_spec : ℕ → ℕ → Db J ℕ
  unfolding conn execute
  update_spec spec_version block_number = do
    _ ← conn
    execute (λ bind. Statements.update_spec bind spec_version block_number)

  unfoldable pub check_if_metadata_exists : ℕ → Db J Bool
  unfolding conn fetch
  check_if_metadata_exists spec_version = do
    _ ← conn
    fetch (λ bind. Statements.select_exists bind spec_version)

  unfoldable pub max_block_num : Db J (Option ℕ)
  unfolding conn fetch
  max_block_num = do _ ← conn; fetch (λ bind. Statements.select_max)

  unfoldable pub finalized_block : Db J (Option FinalizedBlockModel)
  unfolding conn fetch
  finalized_block = do _ ← conn; fetch (λ bind. Statements.select_finalized)
