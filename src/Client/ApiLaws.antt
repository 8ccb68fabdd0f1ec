-- ===== src/Client/ApiLaws.antt =====
-- What a call of the runtime api runs, and what it begins with.
use sub_archive.Prelude.{
  ℕ, ◌+◌, [], ◌∷◌, ◌++◌, Option, some, true, false, ok, ◌≡◌, ◌⊎◌, inl, inr, arith, Result-cases,
  Bool-cases, Option-cases,
}
use sub_archive.Chain.{Bytes, BlockId, Header}
use sub_archive.Client.Backend.{Blockchain}
use sub_archive.Client.ChangesTrie.{expect_block_number_from_id, expect_block_hash_from_id}
use sub_archive.Client.Overrides.{RuntimeCode, Overrides}
use sub_archive.Client.CallExecutor.{Run, Machine, Context, must_initialize}
use sub_archive.Client.CallLaws.{IsFor, begun, contextual_call-runs}
use sub_archive.Client.Api.{
  CallApiAtParams, Api, prepare_environment_block, initialize_block_fn, request_of, call_api_at,
}

prepare_environment_block-cases :
    (chain : Blockchain) (at : BlockId) (header : Header)
    → prepare_environment_block chain at ≡ ok header
    → (expect_block_hash_from_id chain at ≡ ok header.parent_hash)
      × ((n : ℕ) × ((expect_block_number_from_id chain at ≡ ok n) × (header.number ≡ n + 1)))
unfolding prepare_environment_block
prepare_environment_block-cases chain at header e =
    elim (Result-cases (expect_block_hash_from_id chain at)) [
      | inr (x, q) ↦ absurd (ground (arith, q, e))
      | inl (h, q) ↦ elim (Result-cases (expect_block_number_from_id chain at)) [
        | inr (x, q') ↦ absurd (ground (arith, q, q', e))
        | inl (n, q') ↦ (ground (arith, q, q', e), (n, (q', ground (arith, q, q', e))))
      ]
    ]

module _ {E X M N W S C A : Type 0} (api : Api E X M W) (chain : Blockchain)
    (m : Machine S C X M N W A) (make_hash : Bytes → Bytes) (spec_version : RuntimeCode → Option ℕ)
    (wasm_override : Option Overrides) where
  -- The changes that the machine is run on: those of the caller, or what the runtime's
  -- `initialize_block` makes of them with a header that follows the block.
  pub data IsPrepared (params : CallApiAtParams E N) (before after : W) : Type 0 where
    as_they_were :
        must_initialize params.initialize_block params.at ≡ false
        → after ≡ before
        → IsPrepared params before after
    initialized :
        (header : Header)
        → must_initialize params.initialize_block params.at ≡ true
        → expect_block_hash_from_id chain params.at ≡ ok header.parent_hash
        → ((n : ℕ) × ((expect_block_number_from_id chain params.at ≡ ok n)
              × (header.number ≡ n + 1)))
        → api.initialize_block params.at header before ≡ (some tt, after)
        → IsPrepared params before after

  begun-IsPrepared :
      (params : CallApiAtParams E N) (w : W)
      → (must_initialize params.initialize_block params.at ≡ false)
        ⊎ ((initialize_block_fn api chain params.at w).0 ≡ ok tt)
      → IsPrepared params w
          (begun (initialize_block_fn api chain params.at) params.initialize_block params.at w)
  begun-IsPrepared params w (inl later) = as_they_were later (ground (arith, later))
  begun-IsPrepared params w (inr succeeded) =
      elim (Bool-cases (must_initialize params.initialize_block params.at)) [
        | inr later ↦ as_they_were later (ground (arith, later))
        | inl first ↦ elim (Result-cases (prepare_environment_block chain params.at)) [
          | inr (x, q) ↦ absurd (ground (arith, q, succeeded))
          | inl (header, q) ↦ elim (Option-cases (api.initialize_block params.at header w).0) [
            | inl failed ↦ absurd (ground (arith, q, failed, succeeded))
            | inr (done, made) ↦
                let (parent, next) = prepare_environment_block-cases chain params.at header q in
                let after : (api.initialize_block params.at header w).1
                    ≡ begun (initialize_block_fn api chain params.at) params.initialize_block
                        params.at w =
                  ground (arith, first, q, made) in
                initialized header first parent next (λ i. (made i, after i))
          ]
        ]
      ]

  -- A call of the api that succeeds has run one state machine, the one for its function and arguments
  -- at its block, with the manager and the extensions of its context; on the caller's changes, or, where the
  -- block has to be initialized, on what the runtime's `initialize_block` made of them with a header of
  -- the next number whose parent is the block; and its answer and the changes are the machine's.
  pub call_api_at-runs :
      (params : CallApiAtParams E N) (c c' : Context (Run S C X M N) W) (a : A)
      → call_api_at api m make_hash spec_version wasm_override chain params c ≡ (ok a, c')
      → (run : Run S C X M N) × ((w : W) × (IsFor m make_hash spec_version wasm_override params.at
              (request_of api params)
              params.recorder
              true
              run
            × IsPrepared params c.changes w
            × (m.execute run w ≡ (ok a, c'.changes))
            × (c'.runs ≡ c.runs ++ run ∷ [])))
  unfolding call_api_at
  call_api_at-runs params c c' a e =
      elim (contextual_call-runs m make_hash spec_version wasm_override
        (initialize_block_fn api chain params.at) params.at (request_of api params) true
        params.initialize_block params.recorder c) [
          | inr (x, failed, why) ↦ absurd (ground (arith, failed, e))
          | inl (run, (i, init, ran)) ↦
              let w =
                begun (initialize_block_fn api chain params.at) params.initialize_block params.at
                  c.changes in
              let answer : (m.execute run w).0 ≡ ok a = ground (arith, ran, e) in
              let after : (m.execute run w).1 ≡ c'.changes = ground (arith, ran, e) in
              (
                run,
                (
                  w,
                  (
                    i,
                    begun-IsPrepared params c.changes init,
                    λ j. (answer j, after j),
                    ground (arith, ran, e),
                  ),
                ),
              )
        ]
