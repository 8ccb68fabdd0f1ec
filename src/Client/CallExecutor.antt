-- ===== src/Client/CallExecutor.antt =====
-- `LocalCallExecutor` of client/service/src/client/call_executor.rs: the calls of the runtime.
use sub_archive.Prelude.{
  ℕ, List, [], ◌∷◌, ◌++◌, Option, none, some, Bool, true, false, not, ◌&&◌, Result, ok, err, ◌>>=◌,
  ok_or, nat_beq,
}
use sub_archive.Chain.{
  Bytes, BlockId, hash, number, ChainError, runtime_code, version_invalid, execution,
}
use sub_archive.Client.Overrides.{
  RuntimeCode, Overrides, Entry, WasmOverrideError, scrape_overrides, check_override,
}

-- What a call asks for: the extensions (none are the default ones), the manager of the execution, and a
-- native function to call instead.
pub record Request (X M N : Type 0) : Type 0 where
  pub method : Bytes
  pub call_data : Bytes
  pub extensions : Option X
  pub manager : M
  pub native_call : Option N

-- A `StateMachine`, with what it is given: a state, that of the changes trie, the code, and whether it
-- records a proof and uses the cache of storage transactions.
pub record Run (S C X M N : Type 0) : Type 0 where
  pub state : S
  pub changes_trie_state : C
  pub request : Request X M N
  pub code : RuntimeCode
  pub recording : Bool
  pub caching : Bool

-- The backend, the executor and the state machine. `W` is what a machine may change: the overlay, and
-- the cache and the recorder, where it has them.
pub record Machine (S C X M N W A : Type 0) : Type 0 where
  pub changes_tries_state_at_block : BlockId → Result ChainError C
  pub state_at : BlockId → Result ChainError S
  pub as_trie_backend : S → Option S
  pub runtime_code_of : S → Option RuntimeCode
  pub read_version : S → C → RuntimeCode → Option ℕ
  pub execute : Run S C X M N → W → Result ChainError A × W
  pub into_encoded : A → Bytes
  pub default_changes : W
  pub prove_execution_on_trie_backend :
      S → Bytes → Bytes → RuntimeCode → W → Result ChainError (Bytes × Bytes) × W

-- `InitializeBlock`, with the block that was initialized last.
pub data InitializeBlock : Type 0 where
  run_first : Option BlockId → InitializeBlock
  skip : InitializeBlock

-- What is shared with the caller; the machines that ran are for the statements.
pub record Context (R W : Type 0) : Type 0 where
  pub changes : W
  pub runs : List R

abbrev pub same_id : BlockId → BlockId → Bool
same_id (hash a) (hash b) = nat_beq a b
same_id (number a) (number b) = nat_beq a b
same_id (hash a) (number b) = false
same_id (number a) (hash b) = false

abbrev pub must_initialize : InitializeBlock → BlockId → Bool
must_initialize (run_first none) at = true
must_initialize (run_first (some id)) at = not (same_id id at)
must_initialize skip at = false

module _ {S C X M N W A : Type 0} (m : Machine S C X M N W A) where
  unfoldable pub runtime_version : BlockId → Result ChainError ℕ
  runtime_version id = do
    changes_trie_state ← m.changes_tries_state_at_block id
    state ← m.state_at id
    code ← ok_or runtime_code (m.runtime_code_of state)
    ok_or version_invalid (m.read_version state changes_trie_state code)

  -- The state that a proof is recorded on.
  abbrev pub base : Bool → S → Result ChainError S
  base true state = ok_or execution (m.as_trie_backend state)
  base false state = ok state

  module _ (make_hash : Bytes → Bytes) (spec_version : RuntimeCode → Option ℕ)
      (wasm_override : Option Overrides) where
    abbrev pub code_at : S → BlockId → Result ChainError RuntimeCode
    code_at state id = do
      onchain ← ok_or runtime_code (m.runtime_code_of state)
      check_override make_hash spec_version runtime_version wasm_override onchain id

    -- The state machine for a request at a block.
    unfoldable pub state_machine :
        BlockId → Request X M N → Bool → Bool → Result ChainError (Run S C X M N)
    state_machine at request recording cache = do
      changes_trie_state ← m.changes_tries_state_at_block at
      state ← m.state_at at
      state' ← base recording state
      code ← code_at state' at
      ok (record {
        state = state';
        changes_trie_state = changes_trie_state;
        request = request;
        code = code;
        recording = recording;
        caching = cache && not recording;
      })

    abbrev execute_run :
        Result ChainError (Run S C X M N)
        → Context (Run S C X M N) W
        → Result ChainError A × Context (Run S C X M N) W
    execute_run (err e) c = (err e, c)
    execute_run (ok run) c =
        let (r, changes) = m.execute run c.changes in
        (r, record { changes = changes; runs = c.runs ++ run ∷ [] })

    -- A call without extensions to record, on changes of its own.
    unfoldable pub call : BlockId → Request X M N → Result ChainError Bytes
    call id request = do
      run ← state_machine id request false false
      return_data ← (m.execute run m.default_changes).0
      ok (m.into_encoded return_data)

    abbrev after_initialize :
        BlockId
        → Request X M N
        → Bool
        → Bool
        → Result ChainError (Unit {0})
        → Context (Run S C X M N) W
        → Result ChainError A × Context (Run S C X M N) W
    after_initialize at request recorder cache (err e) c = (err e, c)
    after_initialize at request recorder cache (ok _) c =
        execute_run (state_machine at request recorder cache) c

    abbrev initialized :
        (W → Result ChainError (Unit {0}) × W) → Bool → W → Result ChainError (Unit {0}) × W
    initialized initialize_block_fn true w = initialize_block_fn w
    initialized initialize_block_fn false w = (ok tt, w)

    unfoldable pub contextual_call :
        (W → Result ChainError (Unit {0}) × W)
        → BlockId
        → Request X M N
        → Bool
        → InitializeBlock
        → Bool
        → Context (Run S C X M N) W
        → Result ChainError A × Context (Run S C X M N) W
    contextual_call initialize_block_fn at request cache initialize_block recorder c =
        let (r, w) =
          initialized initialize_block_fn (must_initialize initialize_block at) c.changes in
        after_initialize at request recorder cache r (record c { changes = w })

  -- The code on the chain, whatever the overrides.
  unfoldable pub prove_at_trie_state : S → Bytes → Bytes → W → Result ChainError (Bytes × Bytes) × W
  prove_at_trie_state trie_state method call_data overlay = elim (m.runtime_code_of trie_state) [
    | none ↦ (err runtime_code, overlay)
    | some code ↦ m.prove_execution_on_trie_backend trie_state method call_data code overlay
  ]

-- `LocalCallExecutor::new`, where the configuration names a directory of overrides or none.
unfoldable pub new :
    (Bytes → Bytes)
    → (RuntimeCode → Option ℕ)
    → Option (Bool × Option (List (Option Entry)))
    → Result WasmOverrideError (Option Overrides)
new make_hash spec_version none = ok none
new make_hash spec_version (some (is_dir, entries)) = do
  overrides ← scrape_overrides make_hash spec_version is_dir entries
  ok (some overrides)
