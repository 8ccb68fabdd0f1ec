-- ===== src/Mock/Runs.antt =====
-- What the client runs when the block executor executes a block by the runtime api.
use mathlib.Core.Option
use sub_archive.Prelude.{
  ℕ, none, some, Option, Bool, true, false, ok, Result, returned, ◌≡◌, inl, inr, arith, refl,
  Bool-cases, Result-cases, Option-cases, ◌∙◌, ap,
}
use sub_archive.Chain.{Bytes, BlockId, Header, hash, BlockNumber, SignedBlock}
use sub_archive.Executor.VersionCache.{RuntimeVersion}
use sub_archive.Executor.Block.{
  BlockExecutor, block_to_execute, execute_block_and_into_storage_changes,
}
use sub_archive.Client.Backend.{Blockchain}
use sub_archive.Client.Overrides.{RuntimeCode, Overrides}
use sub_archive.Client.CallExecutor.{Run, Machine, InitializeBlock, must_initialize}
use sub_archive.Client.CallLaws.{IsFor, contextual_call-runs, begun}
use sub_archive.Client.Api.{
  Api, call_api_at, request_of, initialize_block_fn, prepare_environment_block,
}
use sub_archive.Prelude.Text.{codes}
use sub_archive.Mock.State.{
  ApiError, NativeOrEncoded, MockRuntimeApi, OverlayedChanges, CallApiAt, Scale,
  construct_runtime_api,
}
use sub_archive.Mock.Call.{started}
use sub_archive.Mock.Object.{client_api, context_of}
use sub_archive.Mock.Laws.{IsTransactional, IsLevel, IsBalanced}
use sub_archive.Mock.Executes.{executor, execution, executed-changes}

module _ {S C X M E O K : Type 0} (v : OverlayedChanges O K S C)
    (m : (T : Type 0)
      → Machine S C X M (Result ApiError T) (MockRuntimeApi O K) (NativeOrEncoded T))
    (make_hash : Bytes → Bytes) (spec_version : RuntimeCode → Option ℕ)
    (wasm_override : Option Overrides) (chain : Blockchain)
    (version_at : BlockId → Result ApiError RuntimeVersion)
    (has_api_with : RuntimeVersion → ℕ → (ℕ → Bool) → Bool) (offchain_call : E)
    (api : Api E X M (MockRuntimeApi O K)) where
  -- The state machines, and the initialization of a block, balance their transactions.
  pub record Balances : Type 1 where
    pub machines :
        (T : Type 0) (run : Run S C X M (Result ApiError T)) (s : MockRuntimeApi O K)
        → IsLevel v s ((m T).execute run s).1
    pub initializes :
        (at : BlockId) (header : Header) (s : MockRuntimeApi O K)
        → IsLevel v s (api.initialize_block at header s).1

  abbrev pub client : CallApiAt E (MockRuntimeApi O K)
  client =
      client_api m make_hash spec_version wasm_override chain version_at has_api_with offchain_call
        api

  module _ (balances : Balances) where
    initialize_block_fn-IsLevel :
        (at : BlockId) (s : MockRuntimeApi O K) → IsLevel v s (initialize_block_fn api chain at s).1
    initialize_block_fn-IsLevel at s = elim (Result-cases (prepare_environment_block chain at)) [
      | inr (e, q) ↦ ground (arith, q)
      | inl (header, q) ↦
          let level = balances.initializes at header s in
          elim (Option-cases (api.initialize_block at header s).0) [
            | inl failed ↦ ground (arith, q, failed, level)
            | inr (done, made) ↦ ground (arith, q, made, level)
          ]
    ]

    begun-IsLevel :
        (block : InitializeBlock) (at : BlockId) (s : MockRuntimeApi O K)
        → IsLevel v s (begun (initialize_block_fn api chain at) block at s)
    begun-IsLevel block at s = elim (Bool-cases (must_initialize block at)) [
      | inl first ↦ rw first (initialize_block_fn-IsLevel at s)
      | inr later ↦ rw later refl
    ]

    -- So the client balances the transactions in every call of the runtime api.
    pub client-IsBalanced : IsBalanced v client
    unfolding client_api call_api_at
    client-IsBalanced T params s =
        let began = begun-IsLevel params.initialize_block params.at s in
        elim (contextual_call-runs (m T) make_hash spec_version wasm_override
          (initialize_block_fn api chain params.at) params.at (request_of api params) true
          params.initialize_block params.recorder (context_of s)) [
            | inr (e, failed, why) ↦ rw failed began
            | inl (run, (i, init, ran)) ↦ rw ran (
                balances.machines T run (
                  begun (initialize_block_fn api chain params.at) params.initialize_block params.at
                    s)
                ∙ began)
          ]

    module _ {I R G J : Type 0} (laws : IsTransactional v) (scale : Scale I R G)
        (x : BlockExecutor S J) (n : BlockNumber) (sb : SignedBlock) (state : S)
        (got : x.get_block n ≡ returned (some sb))
        (at_parent : x.get_state (hash sb.block.header.parent_hash) ≡ ok state) where
      abbrev pub fresh : MockRuntimeApi O K
      fresh = started v (construct_runtime_api v)

      -- What a machine has run, from no changes on, is what the changes are made of.
      pub record Executed (a : NativeOrEncoded (Unit {0}))
          (run : Run S C X M (Result ApiError (Unit {0}))) : Type 0 where
        pub is_for :
            IsFor
              (m (Unit {0}))
              make_hash
              spec_version
              wasm_override
              (hash sb.block.header.parent_hash)
              (request_of api (execution v client scale x sb))
              false
              true
              run
        pub method : run.request.method ≡ codes "Core_execute_block"
        pub call_data : run.request.call_data ≡ scale.encode_block (block_to_execute sb.block)
        pub answers : ((m (Unit {0})).execute run fresh).0 ≡ ok a
        pub makes :
            (q : O) × (v.commit_transaction ((m (Unit {0})).execute run fresh).1.changes ≡ some q)
            × (execute_block_and_into_storage_changes (executor v client scale x) n
                ≡ returned (
                    Option.map
                      (λ changes. (changes, sb))
                      (v.into_storage_changes q state none sb.block.header.parent_hash
                        ((m (Unit {0})).execute run fresh).1.storage)))

      pub execution-runs :
          (a : NativeOrEncoded (Unit {0}))
          → (client.call_api_at (Unit {0}) (execution v client scale x sb) fresh).0 ≡ ok a
          → (run : Run S C X M (Result ApiError (Unit {0}))) × Executed a run
      unfolding client_api call_api_at
      execution-runs a e =
          elim (contextual_call-runs (m (Unit {0})) make_hash spec_version wasm_override
            (initialize_block_fn api chain (hash sb.block.header.parent_hash))
            (hash sb.block.header.parent_hash) (request_of api (execution v client scale x sb)) true
            (execution v client scale x sb).initialize_block false (context_of fresh)) [
              | inr (x', failed, why) ↦ absurd (ground (arith, failed, e))
              | inl (run, (i, init, ran)) ↦ (
                run,
                record {
                  is_for = i;
                  method = ap (λ r. r.method) i.same_request;
                  call_data = ap (λ r. r.call_data) i.same_request;
                  answers = ground (arith, ran, e);
                  makes = rw ran at (
                      executed-changes v client scale x laws (client-IsBalanced) n sb state got
                        at_parent a e);
                },
              )
            ]
