-- ===== src/Tests/Calls.antt =====
-- Calls of a runtime whose states are numbers: the machine adds one to the changes.
use sub_archive.Prelude.{ℕ, ◌+◌, [], ◌∷◌, none, some, true, false, ok, Result, ◌≡◌, ◌⊎◌, refl}
use sub_archive.Prelude.Assoc.{lookup}
use sub_archive.Chain.{hash, ChainError}
use sub_archive.Client.Overrides.{check_override, get}
use sub_archive.Client.CallExecutor.{
  Request, Run, Machine, Context, run_first, runtime_version, state_machine, contextual_call,
}
use sub_archive.Client.CallLaws.{IsFor, code_at-IsSameVersion}
use sub_archive.Client.Api.{
  Api, CallApiAtParams, request_of, prepare_environment_block, call_api_at,
}
use sub_archive.Client.ApiLaws.{IsPrepared, call_api_at-runs}
use sub_archive.Tests.Tries.{chain}
use sub_archive.Tests.Overrides.{
  make_hash, spec_version, listed, overrides, onchain, overriding, listed_is_taken,
}

abbrev machine : Machine ℕ ℕ ℕ ℕ ℕ ℕ ℕ
machine = record {
  changes_tries_state_at_block = λ id. ok 0;
  state_at = λ id. ok 3;
  as_trie_backend = λ s. some s;
  runtime_code_of = λ s. some onchain;
  read_version = λ s trie code. spec_version code;
  execute = λ run w. (ok w, w + 1);
  into_encoded = λ a. a ∷ [];
  default_changes = 0;
  prove_execution_on_trie_backend = λ s name args code w. (ok ([], []), w);
}

abbrev request : Request ℕ ℕ ℕ
request = record { method = []; call_data = []; extensions = none; manager = 0; native_call = none }

abbrev initialize_block_fn : ℕ → Result ChainError (Unit {0}) × ℕ
initialize_block_fn w = (ok tt, w + 10)

abbrev context : Context (Run ℕ ℕ ℕ ℕ ℕ) ℕ
context = record { changes = 0; runs = [] }

abbrev run : Run ℕ ℕ ℕ ℕ ℕ
run = record {
  state = 3;
  changes_trie_state = 0;
  request = request;
  code = overriding;
  recording = false;
  caching = true;
}

-- Another block was initialized last, so this one is, and then the machine runs.
initialized_and_run :
    contextual_call machine make_hash spec_version
      (some overrides)
      initialize_block_fn
      (hash 1)
      request
      true
      (run_first (some (hash 2)))
      false
      context
    ≡ (ok 10, record { changes = 11; runs = run ∷ [] })
unfolding contextual_call state_machine check_override get lookup runtime_version
initialized_and_run = refl

run-IsFor : IsFor machine make_hash spec_version (some overrides) (hash 1) request false true run
unfolding check_override get lookup runtime_version
run-IsFor = record {
  state = 3;
  at_block = refl;
  on_base = refl;
  trie = refl;
  same_request = refl;
  checked = refl;
  records = refl;
  caches = refl;
}

code_at-IsSameVersion_example :
    (some onchain ≡ some overriding)
    ⊎ ((spec : ℕ) × ((runtime_version machine (hash 1) ≡ ok spec)
          × (spec_version (record overriding { heap_pages = some 128 }) ≡ some spec)))
code_at-IsSameVersion_example =
    code_at-IsSameVersion machine make_hash spec_version true (some listed) overrides (hash 1)
      request false true run listed_is_taken run-IsFor

-- The runtime's `initialize_block` adds ten, and the header follows the block.
abbrev api : Api ℕ ℕ ℕ ℕ
api = record {
  manager_and_extensions = λ at context. (context, 0);
  initialize_block = λ at header w. (some tt, w + 10);
}

abbrev params : CallApiAtParams ℕ ℕ
params = record {
  at = hash 1;
  function = [];
  arguments = [];
  initialize_block = run_first (some (hash 2));
  native_call = none;
  context = 6;
  recorder = false;
}

abbrev api_run : Run ℕ ℕ ℕ ℕ ℕ
api_run = record run { request = request_of api params }

api_is_called :
    call_api_at api machine make_hash spec_version (some overrides) chain params context
    ≡ (ok 10, record { changes = 11; runs = api_run ∷ [] })
unfolding call_api_at prepare_environment_block contextual_call state_machine check_override get
    lookup runtime_version
api_is_called = refl

call_api_at-runs_example :
    (r : Run ℕ ℕ ℕ ℕ ℕ) × ((w : ℕ) × (IsFor machine make_hash spec_version
          (some overrides)
          (hash 1)
          (request_of api params)
          false
          true
          r
        × IsPrepared api chain machine make_hash spec_version (some overrides) params 0 w
        × (machine.execute r w ≡ (ok 10, 11))
        × (api_run ∷ [] ≡ r ∷ [])))
call_api_at-runs_example =
    call_api_at-runs api chain machine make_hash spec_version (some overrides) params context
      (record { changes = 11; runs = api_run ∷ [] }) 10 api_is_called
