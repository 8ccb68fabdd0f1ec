-- ===== src/Postgres/Refinement.antt =====
-- `PostgresDb` as its clients see it: a map from numbers to blocks, one from spec versions to metadata,
-- and the finalized block.

use sub_archive.Prelude.{
  ℕ, List, [], ◌∷◌, Option, none, some, Bool, true, false, ok, err, ◌≡◌, refl, arith, ◌==◌,
  if◌then◌else◌, Result, inl, inr, ◌⊎◌, ap,
}
use mathlib.Core.Path.{fun_ext}
use std.Path.{subst}
use sub_archive.Prelude.Int.{ℤ, int_eq}
use sub_archive.Prelude.Assoc.{lookup, insert, lookup-insert}
use sub_archive.Postgres.Model.{MetadataModel, BlockModel, FinalizedBlockModel}
use sub_archive.Postgres.Tables.{MetadataRow, BlockRow, FinalizedRow, Tables}
use sub_archive.Postgres.Statements
use sub_archive.Postgres.Statements.{block_row, metadata_row, finalized_row, SqlxError}
use sub_archive.Postgres.Database
use sub_archive.Postgres.Database.{PostgresDb}
use sub_archive.Postgres.Session.{
  Call, block, metadata, finalized, spec, exists_query, max_query, finalized_query, perform,
  session, queries-tables,
}

-- The store that the archive means to keep.
pub record Store (J : Type 0) : Type 0 where
  pub blocks : ℤ → Option (BlockRow J)
  pub metadatas : ℤ → Option MetadataRow
  pub finalized_block : Option FinalizedRow

abbrev pub update {ℓ} : {V : Type ℓ} → (ℤ → Option V) → ℤ → V → ℤ → Option V
update f k v j = if k == j then some v else f j

module _ {J : Type 0} (bind : ℕ → ℤ) where
  abbrev with_spec : ℕ → ℕ → Option (BlockRow J) → Store J → Store J
  with_spec v n none s = s
  with_spec v n (some row) s = record s {
    blocks = update s.blocks (bind n) (record row { spec_version = bind v });
  }

  -- What a call does to the store if it succeeds.
  abbrev pub meant : Call J → Store J → Store J
  meant (block m) s = record s { blocks = update s.blocks (bind m.block_num) (block_row bind m) }
  meant (metadata m) s = record s {
    metadatas = update s.metadatas (bind m.spec_version) (metadata_row bind m);
  }
  meant (finalized m) s = record s { finalized_block = some (finalized_row bind m) }
  meant (spec v n) s = with_spec v n (s.blocks (bind n)) s
  meant (exists_query v) s = s
  meant max_query s = s
  meant finalized_query s = s

abbrev is_ok {ℓ} : {E A : Type ℓ} → Result E A → Bool
is_ok (ok a) = true
is_ok (err e) = false

module _ {J : Type 0} where
  abbrev pub view : Tables J → Store J
  view t = record {
    blocks = λ k. lookup k t.blocks;
    metadatas = λ k. lookup k t.metadatas;
    finalized_block = t.finalized_block;
  }

  unfoldable pub succeeds : Call J → PostgresDb J → Bool
  succeeds (block m) db = is_ok (Database.insert_block m db).0
  succeeds (metadata m) db = is_ok (Database.insert_metadata m db).0
  succeeds (finalized m) db = is_ok (Database.insert_finalized m db).0
  succeeds (spec v n) db = is_ok (Database.update_spec v n db).0
  succeeds (exists_query v) db = is_ok (Database.check_if_metadata_exists v db).0
  succeeds max_query db = is_ok (Database.max_block_num db).0
  succeeds finalized_query db = is_ok (Database.finalized_block db).0

  -- The calls of a session, each with whether it succeeds.
  unfoldable pub results : List (Call J) → PostgresDb J → List (Call J × Bool)
  results [] db = []
  results (c ∷ calls) db = (c, succeeds c db) ∷ results calls (perform c db)

  -- A call that succeeds has done what it means. One that fails has done nothing, or all that it means,
  -- where its reply was lost.
  abbrev pub Allowed : Bool → Store J → Store J → Store J → Type 0
  Allowed true before done after = after ≡ done
  Allowed false before done after = (after ≡ before) ⊎ (after ≡ done)

  -- The store may have become `after`, by these calls in their order and by nothing else.
  abbrev pub Explains : (ℕ → ℤ) → List (Call J × Bool) → Store J → Store J → Type 0
  Explains bind [] before after = after ≡ before
  Explains bind ((c, good) ∷ calls) before after =
      (between : Store J) × Allowed good before (meant bind c before) between
      × Explains bind calls between after

  perform-bind : (c : Call J) (db : PostgresDb J) → (perform c db).bind ≡ db.bind
  unfolding perform Database.insert_block Database.insert_metadata Database.insert_finalized
      Database.update_spec Database.check_if_metadata_exists Database.max_block_num
      Database.finalized_block
  perform-bind (block m) db = ground arith
  perform-bind (metadata m) db = ground arith
  perform-bind (finalized m) db = ground arith
  perform-bind (spec v n) db = ground arith
  perform-bind (exists_query v) db = ground arith
  perform-bind max_query db = ground arith
  perform-bind finalized_query db = ground arith

  -- A call fails and changes nothing, or does what its statement says, whether its reply arrives or not.
  insert_block-cases :
      (m : BlockModel J) (db : PostgresDb J)
      → ((is_ok (Database.insert_block m db).0 ≡ false)
          × ((Database.insert_block m db).1.tables ≡ db.tables))
        ⊎ (((Database.insert_block m db).1.tables ≡ record db.tables {
          blocks = insert (db.bind m.block_num) (block_row db.bind m) db.tables.blocks;
        }))
  unfolding Database.insert_block Statements.insert_block
  insert_block-cases m db = ground arith

  insert_metadata-cases :
      (m : MetadataModel) (db : PostgresDb J)
      → ((is_ok (Database.insert_metadata m db).0 ≡ false)
          × ((Database.insert_metadata m db).1.tables ≡ db.tables))
        ⊎ (((Database.insert_metadata m db).1.tables ≡ record db.tables {
          metadatas = insert (db.bind m.spec_version) (metadata_row db.bind m) db.tables.metadatas;
        }))
  unfolding Database.insert_metadata Statements.insert_metadata
  insert_metadata-cases m db = ground arith

  insert_finalized-cases :
      (m : FinalizedBlockModel) (db : PostgresDb J)
      → ((is_ok (Database.insert_finalized m db).0 ≡ false)
          × ((Database.insert_finalized m db).1.tables ≡ db.tables))
        ⊎ (((Database.insert_finalized m db).1.tables
            ≡ record db.tables { finalized_block = some (finalized_row db.bind m) }))
  unfolding Database.insert_finalized Statements.insert_finalized
  insert_finalized-cases m db = ground arith

  abbrev respecified : (ℕ → ℤ) → ℕ → ℕ → Option (BlockRow J) → Tables J → Tables J
  respecified bind v n none t = t
  respecified bind v n (some row) t = record t {
    blocks = insert (bind n) (record row { spec_version = bind v }) t.blocks;
  }

  update_spec-cases :
      (v n : ℕ) (db : PostgresDb J)
      → ((is_ok (Database.update_spec v n db).0 ≡ false)
          × ((Database.update_spec v n db).1.tables ≡ db.tables))
        ⊎ (((Database.update_spec v n db).1.tables
            ≡ respecified db.bind v n (lookup (db.bind n) db.tables.blocks) db.tables))
  unfolding Database.update_spec Statements.update_spec
  update_spec-cases v n db = ground arith

  -- The view of a row that is put in.
  view-blocks :
      (k : ℤ) (row : BlockRow J) (t : Tables J)
      → view (record t { blocks = insert k row t.blocks })
        ≡ record (view t) { blocks = update (view t).blocks k row }
  view-blocks k row t =
      ap (λ (f : ℤ → Option (BlockRow J)). record (view t) { blocks = f })
        (fun_ext λ j. lookup-insert k j row t.blocks)

  view-metadatas :
      (k : ℤ) (row : MetadataRow) (t : Tables J)
      → view (record t { metadatas = insert k row t.metadatas })
        ≡ record (view t) { metadatas = update (view t).metadatas k row }
  view-metadatas k row t =
      ap (λ (f : ℤ → Option MetadataRow). record (view t) { metadatas = f })
        (fun_ext λ j. lookup-insert k j row t.metadatas)

  view-respecified :
      (bind : ℕ → ℤ) (v n : ℕ) (found : Option (BlockRow J)) (t : Tables J)
      → view (respecified bind v n found t) ≡ with_spec bind v n found (view t)
  view-respecified bind v n none t = refl
  view-respecified bind v n (some row) t =
      view-blocks (bind n) (record row { spec_version = bind v }) t

  done-Allowed :
      (good : Bool) (before done after : Store J) → after ≡ done → Allowed good before done after
  done-Allowed true before done after e = e
  done-Allowed false before done after e = inr e

  failed-Allowed :
      (good : Bool) (before done after : Store J)
      → good ≡ false
      → after ≡ before
      → Allowed good before done after
  failed-Allowed true before done after f e = absurd (ground (arith, f))
  failed-Allowed false before done after f e = inl e

  -- One call.
  perform_refines :
      (c : Call J) (db : PostgresDb J)
      → Allowed
          (succeeds c db)
          (view db.tables)
          (meant db.bind c (view db.tables))
          (view (perform c db).tables)
  unfolding perform succeeds
  perform_refines (block m) db = elim (insert_block-cases m db) [
    | inl (failed, same) ↦ failed-Allowed _ _ _ _ failed (rw same refl)
    | inr now ↦
        done-Allowed _ _ _ _
          (rw now (view-blocks (db.bind m.block_num) (block_row db.bind m) db.tables))
  ]
  perform_refines (metadata m) db = elim (insert_metadata-cases m db) [
    | inl (failed, same) ↦ failed-Allowed _ _ _ _ failed (rw same refl)
    | inr now ↦
        done-Allowed _ _ _ _
          (rw now (view-metadatas (db.bind m.spec_version) (metadata_row db.bind m) db.tables))
  ]
  perform_refines (finalized m) db = elim (insert_finalized-cases m db) [
    | inl (failed, same) ↦ failed-Allowed _ _ _ _ failed (rw same refl)
    | inr now ↦ done-Allowed _ _ _ _ (rw now refl)
  ]
  perform_refines (spec v n) db = elim (update_spec-cases v n db) [
    | inl (failed, same) ↦ failed-Allowed _ _ _ _ failed (rw same refl)
    | inr now ↦
        done-Allowed _ _ _ _
          (rw now (view-respecified db.bind v n (lookup (db.bind n) db.tables.blocks) db.tables))
  ]
  perform_refines (exists_query v) db = done-Allowed _ _ _ _ (rw (queries-tables v db).0 refl)
  perform_refines max_query db = done-Allowed _ _ _ _ (rw (queries-tables 0 db).1 refl)
  perform_refines finalized_query db = done-Allowed _ _ _ _ (rw (queries-tables 0 db).2 refl)

  -- After any session, with any failures of the pool and the server, a lost reply included, the tables
  -- hold what the calls that succeeded meant, in their order, and beside that, in its place, only what a
  -- failed call meant: all of it or nothing.
  pub session_refines :
      (calls : List (Call J)) (db : PostgresDb J)
      → Explains db.bind (results calls db) (view db.tables) (view (session calls db).tables)
  unfolding session results
  session_refines [] db = refl
  session_refines (c ∷ calls) db =
      let after = perform c db in
      (
        view after.tables,
        perform_refines c db,
        subst
            (λ (b : ℕ → ℤ).
              Explains b (results calls after) (view after.tables)
                (view (session calls after).tables))
            (perform-bind c db) (session_refines calls after),
      )
