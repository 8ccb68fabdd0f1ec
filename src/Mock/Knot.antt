-- ===== src/Mock/Knot.antt =====
-- `core_api: self`: the runtime api hands itself to the client, which initializes a block by it.
use sub_archive.Prelude.{
  ℕ, Option, none, some, Bool, Result, ok, err, Outcome, returned, panicked, ◌≡◌, refl, inl, inr,
  false, Result-cases,
}
use sub_archive.Chain.{Bytes, BlockId, Header}
use sub_archive.Executor.VersionCache.{RuntimeVersion}
use sub_archive.Client.Backend.{Blockchain}
use sub_archive.Client.Overrides.{RuntimeCode, Overrides}
use sub_archive.Client.CallExecutor.{Run, Machine, contextual_call}
use sub_archive.Client.Api.{Api, call_api_at}
use sub_archive.Mock.State.{
  ApiError, NativeOrEncoded, MockRuntimeApi, OverlayedChanges, CallApiAt, Scale,
}
use sub_archive.Mock.Call
use sub_archive.Mock.Call.{started, call_params, decoded}
use sub_archive.Mock.Apis.{initialize_block, initialize_method}
use sub_archive.Mock.Object.{client_api}
use sub_archive.Mock.Laws.{IsTransactional, IsLevel, IsBalanced, call_api_at-Transacted, level}
use sub_archive.Mock.Runs.{client-IsBalanced}

-- What the client is told of an initialization; one never panics (`initialize_block-returns`).
abbrev pub initialization :
    {W : Type 0} → Outcome (Result ApiError (Unit {0})) × W → Option (Unit {0}) × W
initialization (returned (ok _), w) = (some tt, w)
initialization (returned (err e), w) = (none, w)
initialization (panicked, w) = (none, w)

initialization-state :
    {W : Type 0} (r : Result ApiError (Unit {0})) (w : W) → (initialization (returned r, w)).1 ≡ w
initialization-state (ok _) w = refl
initialization-state (err e) w = refl

module _ {O K S C : Type 0} (v : OverlayedChanges O K S C) (laws : IsTransactional v)
    {E I R G : Type 0} (c : CallApiAt E (MockRuntimeApi O K)) (balanced : IsBalanced v c)
    (scale : Scale I R G) where
  -- An initialization does not panic, and leaves the open transactions as they were.
  pub initialize_block-returns :
      (at : BlockId) (header : Header) (s : MockRuntimeApi O K)
      → (r : Result ApiError (Unit {0})) × (s' : MockRuntimeApi O K) × (initialize_block v c scale
            at header s
          ≡ (returned r, s'))
        × IsLevel v s s'
  unfolding initialize_block
  initialize_block-returns at header s = elim (Result-cases (c.runtime_version_at at)) [
    | inr (e, q) ↦ (err e, s, rw q refl, refl)
    | inl (version, q) ↦
        let (s', called, t) =
          call_api_at-Transacted v laws c balanced scale.decode_unit (initialize_method version)
            none false at (scale.encode_header header) s in
        (
          decoded v c (initialize_method version) scale.decode_unit
              (c.call_api_at (Unit {0})
                (call_params v c (initialize_method version) none false at
                  (scale.encode_header header) (started v s))
                (started v s)).0,
          record s' { initialized_block = some at },
          rw (q, called) refl,
          level v laws c balanced t,
        )
  ]

module _ {S C X M O K : Type 0} (v : OverlayedChanges O K S C)
    (m : (T : Type 0)
      → Machine S C X M (Result ApiError T) (MockRuntimeApi O K) (NativeOrEncoded T)) where
  -- The state machines balance the transactions that they open, and leave the block that is initialized.
  pub record Machines : Type 1 where
    pub level :
        (T : Type 0) (run : Run S C X M (Result ApiError T)) (s : MockRuntimeApi O K)
        → IsLevel v s ((m T).execute run s).1
    pub same_block :
        (T : Type 0) (run : Run S C X M (Result ApiError T)) (s : MockRuntimeApi O K)
        → ((m T).execute run s).1.initialized_block ≡ s.initialized_block

module _ {S C X M E O K I R G : Type 0} (v : OverlayedChanges O K S C)
    (m : (T : Type 0)
      → Machine S C X M (Result ApiError T) (MockRuntimeApi O K) (NativeOrEncoded T))
    (make_hash : Bytes → Bytes) (spec_version : RuntimeCode → Option ℕ)
    (wasm_override : Option Overrides) (chain : Blockchain)
    (version_at : BlockId → Result ApiError RuntimeVersion)
    (has_api_with : RuntimeVersion → ℕ → (ℕ → Bool) → Bool) (offchain_call : E)
    (scale : Scale I R G) where
  abbrev pub client_of : Api E X M (MockRuntimeApi O K) → CallApiAt E (MockRuntimeApi O K)
  client_of api =
      client_api m make_hash spec_version wasm_override chain version_at has_api_with offchain_call
        api

  -- The api that initializes by the runtime api whose client initializes by `api`.
  unfoldable pub initialized_by : Api E X M (MockRuntimeApi O K) → Api E X M (MockRuntimeApi O K)
  unfolding initialize_block client_api
  initialized_by api = record api {
    initialize_block =
        λ at header s. initialization (initialize_block v (client_of api) scale at header s);
  }

  -- An initialization does not ask for one, so it is the same whatever initializes.
  pub initialized_by-fixed :
      (api : Api E X M (MockRuntimeApi O K))
      → initialized_by (initialized_by api) ≡ initialized_by api
  unfolding initialized_by initialize_block client_api Call.call_api_at call_api_at contextual_call
  initialized_by-fixed api = refl

  module _ (laws : IsTransactional v) (machines : Machines v m)
      (api : Api E X M (MockRuntimeApi O K)) where
    idle : Api E X M (MockRuntimeApi O K)
    idle = record api { initialize_block = λ at header s. (none, s) }

    idle-IsBalanced : IsBalanced v (client_of idle)
    unfolding idle
    idle-IsBalanced =
        client-IsBalanced v m make_hash spec_version wasm_override chain version_at has_api_with
          offchain_call idle
          (record { machines = machines.level; initializes = λ at header s. refl })

    initialized_by-idle : initialized_by api ≡ initialized_by idle
    unfolding initialized_by idle initialize_block client_api Call.call_api_at call_api_at
        contextual_call
    initialized_by-idle = refl

    initialization-IsLevel :
        (at : BlockId) (header : Header) (s : MockRuntimeApi O K)
        → IsLevel v s ((initialized_by idle).initialize_block at header s).1
    unfolding initialized_by
    initialization-IsLevel at header s =
        let (r, s', called, level) =
          initialize_block-returns v laws (client_of idle) idle-IsBalanced scale at header s in
        rw (called, initialization-state r s') level

    pub tied-IsBalanced : IsBalanced v (client_of (initialized_by api))
    tied-IsBalanced =
        client-IsBalanced v m make_hash spec_version wasm_override chain version_at has_api_with
          offchain_call (initialized_by api)
          (record {
            machines = machines.level;
            initializes = rw initialized_by-idle initialization-IsLevel;
          })
