-- ===== src/Tests/MockData.antt =====
-- A runtime api whose overlay lists the methods that ran, with a client whose machines add theirs to it.
use sub_archive.Prelude.{
  ℕ, List, [], ◌∷◌, Option, none, some, Bool, false, Result, ok, err, ◌≡◌, refl,
}
use sub_archive.Chain.{Bytes, BlockId}
use sub_archive.Executor.VersionCache.{RuntimeVersion}
use sub_archive.Executor.Block.{StorageChanges}
use sub_archive.Client.CallExecutor.{Machine}
use sub_archive.Client.Api.{Api}
use sub_archive.Mock.State.{
  ApiError, application, NativeOrEncoded, encoded, MockRuntimeApi, OverlayedChanges, CallApiAt,
  Scale,
}
use sub_archive.Mock.Laws.{IsTransactional, IsBalanced}
use sub_archive.Tests.Data.{version}
use sub_archive.Tests.Overrides.{onchain, spec_version}

pub record Layers : Type 0 where
  pub now : StorageChanges
  pub saved : List StorageChanges

abbrev close : StorageChanges → List StorageChanges → Option Layers
close now [] = none
close now (layer ∷ rest) = some (record { now = now; saved = rest })

abbrev reopen : List StorageChanges → Option Layers
reopen [] = none
reopen (layer ∷ rest) = some (record { now = layer; saved = rest })

abbrev pub overlay : OverlayedChanges Layers ℕ ℕ ℕ
overlay = record {
  default = record { now = []; saved = [] };
  no_transaction = 0;
  start_transaction = λ o. record { now = o.now; saved = o.now ∷ o.saved };
  commit_transaction = λ o. close o.now o.saved;
  rollback_transaction = λ o. reopen o.saved;
  into_storage_changes = λ o s trie parent cache. some o.now;
}

abbrev pub State : Type 0
State = MockRuntimeApi Layers ℕ

commit-reopen :
    (now : StorageChanges) (saved : List StorageChanges) (p : Layers)
    → reopen saved ≡ some p
    → (q : Layers) × (close now saved ≡ some q) × (reopen q.saved ≡ reopen p.saved)
commit-reopen now [] p e = absurd (cc)
commit-reopen now (layer ∷ rest) p e = (record { now = now; saved = rest }, refl, cc)

pub overlay-IsTransactional : IsTransactional overlay
overlay-IsTransactional = record {
  rollback-start = λ o. refl;
  commit-opened = λ o p e. commit-reopen o.now o.saved p e;
}

abbrev pub noted : Bytes → State → State
noted method s = record s {
  changes = record { now = (method, none) ∷ s.changes.now; saved = s.changes.saved };
}

abbrev pub scale : Scale ℕ ℕ ℕ
scale = record {
  encode_unit = [];
  encode_block = λ block. block.header.number ∷ [];
  encode_header = λ header. header.number ∷ [];
  encode_inherents = λ block data'. [];
  encode_seed = λ seed. [];
  decode_unit = λ bytes. some tt;
  decode_version = λ bytes. some version;
  decode_bytes = λ bytes. some bytes;
  decode_check = λ bytes. none;
  decode_configuration = λ bytes. none;
}

-- A client that notes each call and answers it, and one that notes it and fails.
abbrev pub answering : CallApiAt ℕ State
answering = record {
  call_api_at = λ T params s. (ok (encoded (1 ∷ [])), noted params.function s);
  runtime_version_at = λ at. ok version;
  has_api_with = λ v id p. false;
  offchain_call = 0;
}

abbrev pub failing : CallApiAt ℕ State
failing = record answering {
  call_api_at = λ T params s. (err application, noted params.function s);
}

pub answering-IsBalanced : IsBalanced overlay answering
answering-IsBalanced T params s = refl

pub failing-IsBalanced : IsBalanced overlay failing
failing-IsBalanced T params s = refl

abbrev pub machines : (T : Type 0) → Machine ℕ ℕ ℕ ℕ (Result ApiError T) State (NativeOrEncoded T)
machines T = record {
  changes_tries_state_at_block = λ id. ok 0;
  state_at = λ id. ok 3;
  as_trie_backend = λ s. some s;
  runtime_code_of = λ s. some onchain;
  read_version = λ s trie code. spec_version code;
  execute = λ run s. (ok (encoded (run.request.call_data)), noted run.request.method s);
  into_encoded = λ a. [];
  default_changes = record { initialized_block = none; changes = overlay.default; storage = 0 };
  prove_execution_on_trie_backend = λ s name args code w. (ok ([], []), w);
}

abbrev pub idle_api : Api ℕ ℕ ℕ State
idle_api = record {
  manager_and_extensions = λ at context. (context, 0);
  initialize_block = λ at header s. (none, s);
}

abbrev pub version_at : BlockId → Result ApiError RuntimeVersion
version_at at = ok version

abbrev pub has_api_with : RuntimeVersion → ℕ → (ℕ → Bool) → Bool
has_api_with v id p = false
