-- ===== src/Client/CallLaws.antt =====
-- What runs when the runtime is called, and with which code.
use sub_archive.Prelude.{
  ℕ, List, [], ◌∷◌, ◌++◌, Option, some, Bool, true, false, not, ◌&&◌, Result, ok, err, ◌>>=◌,
  if◌then◌else◌, ◌≡◌, ◌⊎◌, inl, inr, refl, arith, Result-cases, Option-cases, Bool-cases,
}
use sub_archive.Chain.{Bytes, BlockId, ChainError}
use sub_archive.Client.Overrides.{RuntimeCode, Overrides, Entry, scrape_overrides}
use sub_archive.Client.OverrideLaws.{check_override-IsSameVersion}
use sub_archive.Client.CallExecutor.{
  Request, Run, Machine, InitializeBlock, skip, Context, must_initialize, runtime_version, base,
  code_at, state_machine, call, contextual_call,
}

-- The changes once the block is initialized, if it has to be.
abbrev pub begun :
    {W : Type 0} → (W → Result ChainError (Unit {0}) × W) → InitializeBlock → BlockId → W → W
begun initialize_block_fn initialize_block at w =
    if must_initialize initialize_block at then (initialize_block_fn w).1 else w

module _ {S C X M N W A : Type 0} (m : Machine S C X M N W A) (make_hash : Bytes → Bytes)
    (spec_version : RuntimeCode → Option ℕ) (wasm_override : Option Overrides) where
  -- The state machine that a call asks for: on the state of the block, or its trie where a proof is
  -- recorded, with the code that the overrides leave, and with the cache unless a proof is recorded.
  pub record IsFor (at : BlockId) (request : Request X M N) (recorder cache : Bool)
      (run : Run S C X M N) : Type 0 where
    pub state : S
    pub at_block : m.state_at at ≡ ok state
    pub on_base : base m recorder state ≡ ok run.state
    pub trie : m.changes_tries_state_at_block at ≡ ok run.changes_trie_state
    pub same_request : run.request ≡ request
    pub checked : code_at m make_hash spec_version wasm_override run.state at ≡ ok run.code
    pub records : run.recording ≡ recorder
    pub caches : run.caching ≡ (cache && not recorder)

  state_machine-IsFor :
      (at : BlockId) (request : Request X M N) (recorder cache : Bool) (run : Run S C X M N)
      → state_machine m make_hash spec_version wasm_override at request recorder cache ≡ ok run
      → IsFor at request recorder cache run
  unfolding state_machine
  state_machine-IsFor at request recorder cache run e =
      elim (Result-cases (m.changes_tries_state_at_block at)) [
        | inr (x, q) ↦ absurd (ground (arith, q, e))
        | inl (trie, q) ↦ elim (Result-cases (m.state_at at)) [
          | inr (x, q') ↦ absurd (ground (arith, q, q', e))
          | inl (state, q') ↦ elim (Result-cases (base m recorder state)) [
            | inr (x, b) ↦ absurd (ground (arith, q, q', b, e))
            | inl (state', b) ↦
                elim (Result-cases (code_at m make_hash spec_version wasm_override state' at)) [
                  | inr (x, k) ↦ absurd (ground (arith, q, q', b, k, e))
                  | inl (code, k) ↦
                      let is_run : run ≡ record {
                        state = state';
                        changes_trie_state = trie;
                        request = request;
                        code = code;
                        recording = recorder;
                        caching = cache && not recorder;
                      } =
                        ground (arith, q, q', b, k, e) in
                      rw is_run (record {
                        state = state;
                        at_block = q';
                        on_base = b;
                        trie = q;
                        same_request = refl;
                        checked = k;
                        records = refl;
                        caches = refl;
                      })
                ]
          ]
        ]
      ]

  -- A call runs one machine, the one that it asks for, on the changes as they are once the block is
  -- initialized, and answers what that answers; or the initialization or the making of the machine
  -- fails, and then it fails alike, runs none, and leaves the changes so. The block is initialized
  -- exactly if this is asked for and another block, or none, was initialized last.
  pub contextual_call-runs :
      (initialize_block_fn : W → Result ChainError (Unit {0}) × W) (at : BlockId)
      (request : Request X M N) (cache : Bool) (initialize_block : InitializeBlock)
      (recorder : Bool) (c : Context (Run S C X M N) W)
      → ((run : Run S C X M N) × (IsFor at request recorder cache run
            × ((must_initialize initialize_block at ≡ false)
                ⊎ ((initialize_block_fn c.changes).0 ≡ ok tt))
            × (contextual_call m make_hash spec_version wasm_override initialize_block_fn at request
                  cache initialize_block recorder c
                ≡ (
                  (m.execute run (begun initialize_block_fn initialize_block at c.changes)).0,
                  record {
                    changes =
                        (m.execute run (begun initialize_block_fn initialize_block at c.changes)).1;
                    runs = c.runs ++ run ∷ [];
                  },
                ))))
        ⊎ ((e : ChainError) × (contextual_call m make_hash spec_version wasm_override
                initialize_block_fn at request cache initialize_block recorder c
              ≡ (
                err e,
                record {
                  changes = begun initialize_block_fn initialize_block at c.changes;
                  runs = c.runs;
                },
              ))
            × (((must_initialize initialize_block at ≡ true)
                  × ((initialize_block_fn c.changes).0 ≡ err e))
                ⊎ (state_machine m make_hash spec_version wasm_override at request recorder cache
                    ≡ err e)))
  unfolding contextual_call
  contextual_call-runs initialize_block_fn at request cache initialize_block recorder c =
      let made =
        Result-cases
          (state_machine m make_hash spec_version wasm_override at request recorder cache) in
      elim (Bool-cases (must_initialize initialize_block at)) [
        | inl first ↦ elim (Result-cases (initialize_block_fn c.changes).0) [
          | inr (x, f) ↦ inr (x, ground (arith, first, f), inl (first, f))
          | inl (done, f) ↦ elim made [
            | inr (x, q) ↦ inr (x, ground (arith, first, f, q), inr q)
            | inl (run, q) ↦ inl (
              run,
              (
                state_machine-IsFor at request recorder cache run q,
                inr f,
                ground (arith, first, f, q),
              ),
            )
          ]
        ]
        | inr later ↦ elim made [
          | inr (x, q) ↦ inr (x, ground (arith, later, q), inr q)
          | inl (run, q) ↦ inl (
            run,
            (
              state_machine-IsFor at request recorder cache run q,
              inl later,
              ground (arith, later, q),
            ),
          )
        ]
      ]

  -- `call` answers what a contextual call on changes of its own answers.
  pub call-contextual_call :
      (initialize_block_fn : W → Result ChainError (Unit {0}) × W) (id : BlockId)
      (request : Request X M N) (runs : List (Run S C X M N))
      → call m make_hash spec_version wasm_override id request ≡ (
          (contextual_call m make_hash spec_version wasm_override initialize_block_fn id request
            false skip false
            (record { changes = m.default_changes; runs = runs })).0
          >>= (λ a. ok (m.into_encoded a)))
  unfolding call contextual_call
  call-contextual_call initialize_block_fn id request runs =
      elim (Result-cases
        (state_machine m make_hash spec_version wasm_override id request false false)) [
          | inr (x, q) ↦ rw q refl
          | inl (run, q) ↦ rw q refl
        ]

module _ {S C X M N W A : Type 0} (m : Machine S C X M N W A) (make_hash : Bytes → Bytes)
    (spec_version : RuntimeCode → Option ℕ) where
  -- With the overrides of a directory, a machine that runs for a block has the code that is in its
  -- state, or one whose spec version, as the executor reads it, is the version of the block's runtime.
  pub code_at-IsSameVersion :
      (is_dir : Bool) (entries : Option (List (Option Entry))) (overrides : Overrides)
      (at : BlockId) (request : Request X M N) (recorder cache : Bool) (run : Run S C X M N)
      → scrape_overrides make_hash spec_version is_dir entries ≡ ok overrides
      → IsFor m make_hash spec_version (some overrides) at request recorder cache run
      → (m.runtime_code_of run.state ≡ some run.code)
        ⊎ ((spec : ℕ) × ((runtime_version m at ≡ ok spec)
              × (spec_version (record run.code { heap_pages = some 128 }) ≡ some spec)))
  code_at-IsSameVersion is_dir entries overrides at request recorder cache run scraped i =
      elim (Option-cases (m.runtime_code_of run.state)) [
        | inl missing ↦ absurd (ground (arith, missing, i.checked))
        | inr (onchain, q) ↦
            elim (check_override-IsSameVersion make_hash spec_version is_dir entries overrides
              (runtime_version m) onchain run.code at scraped (ground (arith, q, i.checked))) [
                | inl same ↦ inl (ground (arith, q, same))
                | inr (spec, (v, read, pages)) ↦ inr (spec, (v, read))
              ]
      ]
