-- ===== src/Client/Operation.antt =====
-- `ClientImportOperation`, and the calls on it: they may fail or panic, and what was done before stays
-- done. client/service/src/client/client.rs uses it between the begin and the commit.
use sub_archive.Prelude.{
  List, [], ◌∷◌, ◌++◌, Option, some, Bool, true, false, Result, ok, err, Outcome, returned,
  panicked,
}
use sub_archive.Chain.{Bytes, Hash, Header, ChainError}
use sub_archive.Client.Backend.{BlockOrigin, TreeRoute, Op}

-- `sc_client_api::ImportSummary`
pub record ImportSummary : Type 0 where
  pub block_hash : Hash
  pub origin : BlockOrigin
  pub header : Header
  pub is_new_best : Bool
  pub storage_changes : Option (Bytes × Bytes)
  pub tree_route : Option TreeRoute

-- `ClientImportOperation`, with the calls made on its `op` so far, and the client's
-- `importing_block`, which is set meanwhile.
pub record Importing : Type 0 where
  pub op : List Op
  pub notify_imported : Option ImportSummary
  pub notify_finalized : List Hash
  pub importing_block : Option Hash

abbrev pub Task : Type 0 → Type 0
Task A = Importing → Outcome (Result ChainError A) × Importing

module _ {A B : Type 0} where
  abbrev pub continue : Outcome (Result ChainError A) → (A → Task B) → Task B
  continue (returned (ok a)) f s = f a s
  continue (returned (err e)) f s = (returned (err e), s)
  continue panicked f s = (panicked, s)

  infixl 5 ◌>>=◌
  abbrev pub ◌>>=◌ : Task A → (A → Task B) → Task B
  ◌>>=◌ m f s = let (r, s') = m s in continue r f s'

module _ {A : Type 0} where
  abbrev pub pure : A → Task A
  pure a s = (returned (ok a), s)

  -- `?` on a result that does not touch the operation
  abbrev pub lift : Result ChainError A → Task A
  lift r s = (returned r, s)

  abbrev pub fail : ChainError → Task A
  fail e s = (returned (err e), s)

abbrev pub skip : Task (Unit {0})
skip s = (returned (ok tt), s)

-- `assert!`
abbrev pub assert : Bool → Task (Unit {0})
assert true s = (returned (ok tt), s)
assert false s = (panicked, s)

-- What the backend answers to a call, given the calls before it.
abbrev pub Accepts : Type 0
Accepts = List Op → Op → Result ChainError (Unit {0})

abbrev recorded : Op → Result ChainError (Unit {0}) → Task (Unit {0})
recorded o (ok tt) s = (returned (ok tt), record s { op = s.op ++ o ∷ [] })
recorded o (err e) s = (returned (err e), s)

-- `operation.op.o(..)?`
abbrev pub call : Accepts → Op → Task (Unit {0})
call accepts o s = recorded o (accepts s.op o) s

-- a call that cannot fail
abbrev pub issue : Op → Task (Unit {0})
issue o s = recorded o (ok tt) s

abbrev pub when : Bool → Task (Unit {0}) → Task (Unit {0})
when true t s = t s
when false t s = (returned (ok tt), s)

abbrev pub push_finalized : List Hash → Task (Unit {0})
push_finalized hs s = (returned (ok tt), record s { notify_finalized = s.notify_finalized ++ hs })

abbrev pub set_imported : ImportSummary → Task (Unit {0})
set_imported summary s = (returned (ok tt), record s { notify_imported = some summary })

abbrev pub set_importing : Hash → Task (Unit {0})
set_importing h s = (returned (ok tt), record s { importing_block = some h })
