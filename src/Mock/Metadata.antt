-- ===== src/Mock/Metadata.antt =====
-- What runs when the archiver asks a new runtime api for the metadata of a block.
use sub_archive.Prelude.{
  ℕ, ◌+◌, Option, none, some, Bool, true, false, Result, ok, err, map_err, Outcome, returned,
  panicked, ◌≡◌, arith, inl, inr, Result-cases,
}
use sub_archive.Chain.{Bytes, BlockId, Header}
use sub_archive.Executor.VersionCache.{RuntimeVersion}
use sub_archive.Client.Backend.{Blockchain}
use sub_archive.Client.ChangesTrie.{expect_block_number_from_id, expect_block_hash_from_id}
use sub_archive.Client.Overrides.{RuntimeCode, Overrides}
use sub_archive.Client.CallExecutor.{Run, Machine, contextual_call}
use sub_archive.Client.CallLaws.{IsFor}
use sub_archive.Client.Api.{Api, CallApiAtParams, call_api_at, request_of}
use sub_archive.Client.ApiLaws.{IsPrepared, as_they_were, initialized, call_api_at-runs}
use sub_archive.Prelude.Text.{codes}
use sub_archive.Mock.State.{
  ApiError, application, NativeOrEncoded, MockRuntimeApi, OverlayedChanges, CallApiAt, Scale,
}
use sub_archive.Mock.Call
use sub_archive.Mock.Call.{started, call_params, decoded}
use sub_archive.Mock.Apis.{initialize_block, initialize_method, metadata}
use sub_archive.Mock.Object.{client_api, context_of}
use sub_archive.Mock.Laws.{IsTransactional, IsBalanced, call_api_at-Transacted, after_success}
use sub_archive.Mock.Knot.{initialization, client_of, initialized_by, Machines, tied-IsBalanced}

initialization-some :
    {W : Type 0} (r : Outcome (Result ApiError (Unit {0}))) (w after : W)
    → initialization (r, w) ≡ (some tt, after)
    → ◌≡◌ {A = Outcome (Result ApiError (Unit {0})) × W} (r, w) (returned (ok tt), after)
initialization-some (returned (ok tt)) w after e = ground (arith, e)
initialization-some (returned (err x)) w after e = absurd (ground (arith, e))
initialization-some panicked w after e = absurd (ground (arith, e))

map_err-ok : {D F A : Type 0} (f : D → F) (r : Result D A) (a : A) → map_err f r ≡ ok a → r ≡ ok a
map_err-ok f (ok x) a e = ground (arith, e)
map_err-ok f (err x) a e = absurd (ground (arith, e))

module _ {O K S C : Type 0} (v : OverlayedChanges O K S C) (laws : IsTransactional v)
    {E I R G : Type 0} (c : CallApiAt E (MockRuntimeApi O K)) (balanced : IsBalanced v c)
    (scale : Scale I R G) where
  -- A block that was initialized with success counts as initialized.
  initialize_block-marks :
      (at : BlockId) (header : Header) (s w : MockRuntimeApi O K)
      → initialize_block v c scale at header s ≡ (returned (ok tt), w)
      → w.initialized_block ≡ some at
  unfolding initialize_block
  initialize_block-marks at header s w e = elim (Result-cases (c.runtime_version_at at)) [
    | inr (x, q) ↦ absurd (ground (arith, q, e))
    | inl (version, q) ↦
        let (s', called, t) =
          call_api_at-Transacted v laws c balanced scale.decode_unit (initialize_method version)
            none false at (scale.encode_header header) s in
        ground (arith, q, called, e)
  ]

module _ {S C X M E O K I R G : Type 0} (v : OverlayedChanges O K S C)
    (m : (T : Type 0)
      → Machine S C X M (Result ApiError T) (MockRuntimeApi O K) (NativeOrEncoded T))
    (make_hash : Bytes → Bytes) (spec_version : RuntimeCode → Option ℕ)
    (wasm_override : Option Overrides) (chain : Blockchain)
    (version_at : BlockId → Result ApiError RuntimeVersion)
    (has_api_with : RuntimeVersion → ℕ → (ℕ → Bool) → Bool) (offchain_call : E)
    (scale : Scale I R G) (api : Api E X M (MockRuntimeApi O K)) where
  -- The client's api, which initializes by the runtime api, and the client with it.
  abbrev pub core_api : Api E X M (MockRuntimeApi O K)
  core_api =
      initialized_by v m make_hash spec_version wasm_override chain version_at has_api_with
        offchain_call scale api

  abbrev pub tied : CallApiAt E (MockRuntimeApi O K)
  tied =
      client_of v m make_hash spec_version wasm_override chain version_at has_api_with offchain_call
        scale core_api

  initialize_block-tied :
      (at : BlockId) (header : Header) (s after : MockRuntimeApi O K)
      → core_api.initialize_block at header s ≡ (some tt, after)
      → initialize_block v tied scale at header s ≡ (returned (ok tt), after)
  unfolding initialized_by initialize_block client_api Call.call_api_at call_api_at contextual_call
  initialize_block-tied at header s after e =
      initialization-some (initialize_block v tied scale at header s).0
        (initialize_block v tied scale at header s).1 after e

  -- A call that succeeds has run a machine, on what the initialization made of the changes, if the block
  -- had to be initialized.
  tied-runs :
      (T : Type 0) (params : CallApiAtParams E (Result ApiError T)) (s : MockRuntimeApi O K)
      (a : NativeOrEncoded T)
      → (tied.call_api_at T params s).0 ≡ ok a
      → (run : Run S C X M (Result ApiError T)) × ((w : MockRuntimeApi O K) × (IsFor
              (m T)
              make_hash
              spec_version
              wasm_override
              params.at
              (request_of core_api params)
              params.recorder
              true
              run
            × IsPrepared core_api chain (m T) make_hash spec_version wasm_override params s w
            × ((m T).execute run w ≡ (ok a, (tied.call_api_at T params s).1))))
  unfolding client_api
  tied-runs T params s a e =
      let called =
        call_api_at core_api (m T) make_hash spec_version wasm_override chain params
          (context_of s) in
      let ok_there = map_err-ok (λ x. application) called.0 a e in
      let (run, (w, (is_for, prepared, ran, runs))) =
        call_api_at-runs core_api chain (m T) make_hash spec_version wasm_override params
          (context_of s) called.1 a (λ i. (ok_there i, called.1)) in
      (run, (w, (is_for, prepared, ran)))

  module _ (laws : IsTransactional v) (machines : Machines v m) (at : BlockId)
      (s s' : MockRuntimeApi O K) (meta : Bytes) where
    -- How a call for the metadata went on an object that had initialized no block.
    pub record Answered : Type 0 where
      pub run : Run S C X M (Result ApiError Bytes)
      pub header : Header
      pub begun : MockRuntimeApi O K
      pub parent : expect_block_hash_from_id chain at ≡ ok header.parent_hash
      pub next : (k : ℕ) × ((expect_block_number_from_id chain at ≡ ok k) × (header.number ≡ k + 1))
      pub first : initialize_block v tied scale at header (started v s) ≡ (returned (ok tt), begun)
      pub is_for :
          IsFor
            (m Bytes)
            make_hash
            spec_version
            wasm_override
            at
            (request_of core_api (
              call_params v tied
                (codes "Metadata_metadata")
                none
                true
                at
                scale.encode_unit
                (started v s)))
            false
            true
            run
      pub answer :
          (a : NativeOrEncoded Bytes) × ((((m Bytes).execute run begun).0 ≡ ok a)
            × (decoded v tied (codes "Metadata_metadata") scale.decode_bytes (ok a) ≡ ok meta))
      pub marked : s'.initialized_block ≡ some at

    pub metadata-Answered :
        s.initialized_block ≡ none
        → metadata v tied scale at s ≡ (returned (ok meta), s')
        → Answered
    unfolding metadata
    metadata-Answered new e =
        let params =
          call_params v tied {T = Bytes} (codes "Metadata_metadata") none true at scale.encode_unit
            (started v s) in
        let balanced =
          tied-IsBalanced v m make_hash spec_version wasm_override chain version_at has_api_with
            offchain_call scale laws machines api in
        let (s1, called, t) =
          call_api_at-Transacted v laws tied balanced scale.decode_bytes (codes "Metadata_metadata")
            none true at scale.encode_unit s in
        elim (Result-cases (tied.call_api_at Bytes params (started v s)).0) [
          | inr (x, q) ↦ absurd (ground (arith, called, q, e))
          | inl (a, q) ↦
              let (run, (w, (is_for, prepared, ran))) = tied-runs Bytes params (started v s) a q in
              let (o, committed, kept) = after_success v laws tied balanced a q t in
              elim prepared [
                | as_they_were later same ↦ absurd (ground (arith, new, later))
                | initialized header due parent next made ↦
                    let first = initialize_block-tied at header (started v s) w made in
                    let marked =
                      initialize_block-marks v laws tied balanced scale at header (started v s) w
                        first in
                    let kept_block = machines.same_block Bytes run w in
                    record {
                      run = run;
                      header = header;
                      begun = w;
                      parent = parent;
                      next = next;
                      first = first;
                      is_for = is_for;
                      answer = (a, (ground (arith, ran), ground (arith, called, q, e)));
                      marked = ground (arith, called, e, kept, ran, kept_block, marked);
                    }
              ]
        ]
