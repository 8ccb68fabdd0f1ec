-- ===== src/Mock/Call.antt =====
-- `_call_api_at` and `ApiExt` of archive/runtime/src/mock.rs: a call runs in a transaction of the overlay.
use sub_archive.Prelude.{
  ℕ, Option, none, some, Bool, true, false, Result, ok, err, Outcome, returned, panicked, nat_beq,
  if◌then◌else◌, ok_or,
}
use sub_archive.Chain.{Bytes, BlockId, Hash}
use sub_archive.Executor.VersionCache.{RuntimeVersion}
use sub_archive.Executor.Block.{StorageChanges}
use sub_archive.Client.CallExecutor.{skip, run_first}
use sub_archive.Client.Api.{CallApiAtParams}
use sub_archive.Mock.State.{
  ApiError, failed_to_decode_return_value, NativeOrEncoded, native, encoded, MockRuntimeApi,
  OverlayedChanges, CallApiAt,
}

-- `TransactionOutcome`
pub data TransactionOutcome (R : Type 0) : Type 0 where
  commit : R → TransactionOutcome R
  rollback : R → TransactionOutcome R

abbrev pub into_inner : {R : Type 0} → TransactionOutcome R → R
into_inner (commit r) = r
into_inner (rollback r) = r

abbrev pub commits : {R : Type 0} → TransactionOutcome R → Bool
commits (commit r) = true
commits (rollback r) = false

abbrev pub is_ok : {T U : Type 0} → Result T U → Bool
is_ok (ok a) = true
is_ok (err e) = false

abbrev pub unwrap_or : {E : Type 0} → E → Option E → E
unwrap_or e none = e
unwrap_or e (some x) = x

-- `expect` on what a transaction's end answers.
abbrev pub expect :
    {O K : Type 0} → MockRuntimeApi O K → Option O → Outcome (Unit {0}) × MockRuntimeApi O K
expect s none = (panicked, s)
expect s (some changes) = (returned tt, record s { changes = changes })

abbrev pub after : {A W : Type 0} → A → Outcome (Unit {0}) × W → Outcome A × W
after a (returned _, w) = (returned a, w)
after a (panicked, w) = (panicked, w)

module _ {O K S C : Type 0} (v : OverlayedChanges O K S C) where
  unfoldable pub commit_or_rollback :
      Bool → MockRuntimeApi O K → Outcome (Unit {0}) × MockRuntimeApi O K
  commit_or_rollback true s = expect s (v.commit_transaction s.changes)
  commit_or_rollback false s = expect s (v.rollback_transaction s.changes)

  -- What a call in the transaction answers, and the end of the transaction.
  abbrev transacted :
      {R : Type 0}
      → Outcome (TransactionOutcome R) × MockRuntimeApi O K
      → Outcome R × MockRuntimeApi O K
  transacted (panicked, s) = (panicked, s)
  transacted (returned res, s) = after (into_inner res) (commit_or_rollback (commits res) s)

  abbrev pub started : MockRuntimeApi O K → MockRuntimeApi O K
  started s = record s { changes = v.start_transaction s.changes }

  unfoldable pub execute_in_transaction :
      {R : Type 0}
      → (MockRuntimeApi O K → Outcome (TransactionOutcome R) × MockRuntimeApi O K)
      → MockRuntimeApi O K
      → Outcome R × MockRuntimeApi O K
  unfolding commit_or_rollback
  execute_in_transaction call s = transacted (call (started s))

  -- block import prepare_block_storage_changes() will invoke this method after execute_block()
  unfoldable pub into_storage_changes :
      S → Option C → Hash → MockRuntimeApi O K → Option StorageChanges × MockRuntimeApi O K
  into_storage_changes backend changes_trie_state parent_hash s = (
    v.into_storage_changes s.changes backend changes_trie_state parent_hash s.storage,
    record s { initialized_block = none; changes = v.default; storage = v.no_transaction },
  )

  module _ {E : Type 0} (c : CallApiAt E (MockRuntimeApi O K)) where
    -- The flag is whether the block is initialized first. The code has another flag, which it ignores.
    abbrev pub call_params :
        {T : Type 0}
        → Bytes
        → Option E
        → Bool
        → BlockId
        → Bytes
        → MockRuntimeApi O K
        → CallApiAtParams E (Result ApiError T)
    call_params method context init_block at args s = record {
      at = at;
      function = method;
      arguments = args;
      initialize_block = if init_block then run_first s.initialized_block else skip;
      native_call = none;
      context = unwrap_or c.offchain_call context;
      recorder = false;
    }

    -- The end of the transaction, and then the answer.
    abbrev pub finished :
        {T : Type 0}
        → Result ApiError T × MockRuntimeApi O K
        → Outcome (Result ApiError T) × MockRuntimeApi O K
    finished (res, s) = after res (commit_or_rollback (is_ok res) s)

    unfoldable pub call_api_at_native_code :
        (T : Type 0)
        → Bytes
        → Option E
        → Bool
        → BlockId
        → Bytes
        → MockRuntimeApi O K
        → Outcome (Result ApiError (NativeOrEncoded T)) × MockRuntimeApi O K
    unfolding commit_or_rollback
    call_api_at_native_code T method context init_block at args s =
        finished
          (c.call_api_at T (call_params method context init_block at args (started s)) (started s))

    abbrev pub decoded :
        {T : Type 0}
        → Bytes
        → (Bytes → Option T)
        → Result ApiError (NativeOrEncoded T)
        → Result ApiError T
    decoded method decode (err e) = err e
    decoded method decode (ok (native n)) = ok n
    decoded method decode (ok (encoded r)) = ok_or (failed_to_decode_return_value method) (decode r)

    abbrev pub answered :
        {T : Type 0}
        → Bytes
        → (Bytes → Option T)
        → Outcome (Result ApiError (NativeOrEncoded T)) × MockRuntimeApi O K
        → Outcome (Result ApiError T) × MockRuntimeApi O K
    answered method decode (panicked, s) = (panicked, s)
    answered method decode (returned res, s) = (returned (decoded method decode res), s)

    unfoldable pub call_api_at :
        {T : Type 0}
        → (Bytes → Option T)
        → Bytes
        → Option E
        → Bool
        → BlockId
        → Bytes
        → MockRuntimeApi O K
        → Outcome (Result ApiError T) × MockRuntimeApi O K
    unfolding call_api_at_native_code
    call_api_at {T} decode method context init_block at args s =
        answered method decode (call_api_at_native_code T method context init_block at args s)

module _ {E W : Type 0} (c : CallApiAt E W) where
  abbrev has : ℕ → (ℕ → Bool) → Result ApiError RuntimeVersion → Result ApiError Bool
  has id pred (err e) = err e
  has id pred (ok v) = ok (c.has_api_with v id pred)

  unfoldable pub has_api_with : ℕ → BlockId → (ℕ → Bool) → Result ApiError Bool
  has_api_with id at pred = has id pred (c.runtime_version_at at)

  unfoldable pub has_api : ℕ → ℕ → BlockId → Result ApiError Bool
  has_api id version at = has id (λ v. nat_beq v version) (c.runtime_version_at at)
