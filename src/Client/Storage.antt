-- ===== src/Client/Storage.antt =====
-- The reads of a block's state: `storage`, `storage_keys`, `storage_pairs`, their kin, and `code_at`, of
-- client/service/src/client/client.rs.
use sub_archive.Prelude.{
  List, [], Option, none, some, Result, ok, err, ◌>>=◌, map_err, map, Outcome, returned, panicked,
  ◌≡◌, arith, Result-cases, ap, ◌∙◌, inl, inr,
}
use mathlib.Core.Path.{fun_ext}
use sub_archive.Chain.{Bytes, Hash, BlockId, ChainError, storage as from_state}

-- A state, as far as it is read; `E` is its error.
pub record StateBackend (E : Type 0) : Type 0 where
  pub keys : Bytes → List Bytes
  pub storage : Bytes → Result E (Option Bytes)
  pub storage_hash : Bytes → Result E (Option Hash)
  pub child_keys : Bytes → Bytes → List Bytes
  pub child_storage : Bytes → Bytes → Result E (Option Bytes)
  pub child_storage_hash : Bytes → Bytes → Result E (Option Hash)

-- `.ok().flatten().unwrap_or_default()`
abbrev pub or_empty : {E : Type 0} → Result E (Option Bytes) → Bytes
or_empty (ok (some d)) = d
or_empty (ok none) = []
or_empty (err e) = []

module _ {E : Type 0} (state_at : BlockId → Result ChainError (StateBackend E)) where
  unfoldable pub storage_keys : BlockId → Bytes → Result ChainError (List Bytes)
  storage_keys id key_prefix = do state ← state_at id; ok (state.keys key_prefix)

  unfoldable pub storage_pairs : BlockId → Bytes → Result ChainError (List (Bytes × Bytes))
  storage_pairs id key_prefix = do
    state ← state_at id
    ok (map (λ (k : Bytes). (k, or_empty (state.storage k))) (state.keys key_prefix))

  unfoldable pub storage : BlockId → Bytes → Result ChainError (Option Bytes)
  storage id key = do state ← state_at id; map_err (λ (e : E). from_state) (state.storage key)

  abbrev pub storage_hash : BlockId → Bytes → Result ChainError (Option Hash)
  storage_hash id key = do
    state ← state_at id
    map_err (λ (e : E). from_state) (state.storage_hash key)

  abbrev pub child_storage_keys : BlockId → Bytes → Bytes → Result ChainError (List Bytes)
  child_storage_keys id child_info key_prefix = do
    state ← state_at id
    ok (state.child_keys child_info key_prefix)

  abbrev pub child_storage : BlockId → Bytes → Bytes → Result ChainError (Option Bytes)
  child_storage id child_info key = do
    state ← state_at id
    map_err (λ (e : E). from_state) (state.child_storage child_info key)

  abbrev pub child_storage_hash : BlockId → Bytes → Bytes → Result ChainError (Option Hash)
  child_storage_hash id child_info key = do
    state ← state_at id
    map_err (λ (e : E). from_state) (state.child_storage_hash child_info key)

  abbrev expected : Result ChainError (Option Bytes) → Outcome (Result ChainError Bytes)
  expected (err e) = returned (err e)
  expected (ok none) = panicked
  expected (ok (some code)) = returned (ok code)

  -- `code_at`: the state of every block has its code under `:code`.
  abbrev pub code_at : Bytes → BlockId → Outcome (Result ChainError Bytes)
  code_at code_key id = expected (storage id code_key)

  or_empty-storage :
      (id : BlockId) (k : Bytes) (state : StateBackend E)
      → state_at id ≡ ok state
      → or_empty (state.storage k) ≡ or_empty (storage id k)
  unfolding storage
  or_empty-storage id k state q = elim (Result-cases (state.storage k)) [
    | inl (d, r) ↦ ground (arith, q, r)
    | inr (x, r) ↦ ground (arith, q, r)
  ]

  -- The pairs are the keys that `storage_keys` lists, in its order, each with what `storage` answers; a
  -- value that is not there, or that cannot be read, is empty.
  pub storage_pairs-storage :
      (id : BlockId) (key_prefix : Bytes) (keys : List Bytes)
      → storage_keys id key_prefix ≡ ok keys
      → storage_pairs id key_prefix ≡ ok (map (λ (k : Bytes). (k, or_empty (storage id k))) keys)
  unfolding storage_keys storage_pairs storage
  storage_pairs-storage id key_prefix keys e = elim (Result-cases (state_at id)) [
    | inr (x, q) ↦ absurd (ground (arith, q, e))
    | inl (state, q) ↦
        let listed : state.keys key_prefix ≡ keys = ground (arith, q, e) in
        let pairs : storage_pairs id key_prefix
            ≡ ok (map (λ (k : Bytes). (k, or_empty (state.storage k))) keys) =
          ground (arith, q, listed) in
        pairs
        ∙ ap (λ (f : Bytes → Bytes × Bytes). ok (map f keys))
            (fun_ext (λ (k : Bytes). ap (λ (d : Bytes). (k, d)) (or_empty-storage id k state q)))
  ]
