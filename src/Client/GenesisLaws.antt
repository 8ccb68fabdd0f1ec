-- ===== src/Client/GenesisLaws.antt =====
-- What a new client writes to its backend.
use sub_archive.Prelude.{
  List, [], ◌∷◌, Option, none, some, Result, ok, err, returned, ◌≡◌, ◌⊎◌, inl, inr, refl, arith,
  Result-cases, Option-cases,
}
use sub_archive.Chain.{Bytes, Hash, BlockNumber, Header, number, ChainError}
use sub_archive.Client.Backend.{Op, begin_state_operation, reset_storage, set_block_data, final}
use sub_archive.Client.Rules
use sub_archive.Client.Operation.{Importing, Accepts}
use sub_archive.Client.Lock.{Backend}
use sub_archive.Client.Genesis.{
  construct_genesis_block, new_notifies, NewClient, genesis_operation, initialize, new,
  new_client_on,
}

module _ {S : Type 0} (b : Backend S) (trie_root : List Bytes → Hash) (root_of : Bytes → Hash) where
  -- The calls that write the genesis block: the state first, then the block, as a final one: number 0,
  -- on the zero hash, with the root of the state, that of no extrinsics, no digest and an empty body.
  abbrev pub genesis_calls : Bytes → List Op
  genesis_calls genesis_storage =
      begin_state_operation 0
      ∷ reset_storage genesis_storage
      ∷ set_block_data
          record {
            parent_hash = 0;
            number = 0;
            state_root = root_of genesis_storage;
            extrinsics_root = trie_root [];
            digest = [];
          }
          (some []) none final
      ∷ []

  -- The backend `s` as a start leaves it.
  pub data IsInitialized (build_storage : Option Bytes) (s s' : S) : Type 0 where
    there :
        (h : Header)
        → (b.blockchain s).header (number 0) ≡ ok (some h)
        → s' ≡ s
        → IsInitialized build_storage s s'
    written :
        (genesis_storage : Bytes)
        → (b.blockchain s).header (number 0) ≡ ok none
        → build_storage ≡ some genesis_storage
        → b.commit_operation (genesis_calls genesis_storage) s ≡ (ok tt, s')
        → IsInitialized build_storage s s'

  abbrev untouched : Importing
  untouched = record {
    op = [];
    notify_imported = none;
    notify_finalized = [];
    importing_block = none;
  }

  genesis_operation-cases :
      (accepts : Accepts) (genesis_storage : Bytes)
      → (genesis_operation b trie_root root_of accepts genesis_storage untouched
          ≡ (returned (ok tt), record untouched { op = genesis_calls genesis_storage }))
        ⊎ ((e : ChainError) × ((i : Importing) × (genesis_operation b trie_root root_of accepts
                  genesis_storage untouched
                ≡ (returned (err e), i))))
  unfolding genesis_operation
  genesis_operation-cases accepts g = elim (Result-cases (accepts [] (begin_state_operation 0))) [
    | inr (e, q) ↦ inr (e, (untouched, rw q refl))
    | inl (_, q) ↦ elim (Result-cases (accepts (begin_state_operation 0 ∷ []) (reset_storage g))) [
      | inr (e, q') ↦
          inr (e, (record untouched { op = begin_state_operation 0 ∷ [] }, rw (q, q') refl))
      | inl (_, q') ↦
          elim (Result-cases (
            accepts (begin_state_operation 0 ∷ reset_storage g ∷ []) (
              set_block_data (construct_genesis_block trie_root (root_of g)).header (some []) none
                final))) [
                  | inr (e, q'') ↦ inr (
                    e,
                    (
                      record untouched { op = begin_state_operation 0 ∷ reset_storage g ∷ [] },
                      rw (q, q', q'') refl,
                    ),
                  )
                  | inl (_, q'') ↦ inl (rw (q, q', q'') refl)
                ]
    ]
  ]

  initialize-IsInitialized :
      (build_storage : Option Bytes) (s s' : S)
      → initialize b trie_root root_of build_storage s ≡ (ok tt, s')
      → IsInitialized build_storage s s'
  unfolding initialize
  initialize-IsInitialized build_storage s s' e =
      elim (Result-cases ((b.blockchain s).header (number 0))) [
        | inr (x, q) ↦ absurd (ground (arith, q, e))
        | inl (some h, q) ↦ there h q (ground (arith, q, e))
        | inl (none, q) ↦ elim (Option-cases build_storage) [
          | inl missing ↦ absurd (ground (arith, q, missing, e))
          | inr (g, q') ↦ elim (Result-cases (b.begin_operation s)) [
            | inr (x, q'') ↦ absurd (ground (arith, q, q', q'', e))
            | inl (_, q'') ↦ elim (genesis_operation-cases (b.accepts s) g) [
              | inr (x, (i, failed)) ↦ absurd (ground (arith, q, q', q'', failed, e))
              | inl done ↦ written g q q' (ground (arith, q, q', q'', done, e))
            ]
          ]
        ]
      ]

  new_client_on-cases :
      (fork_blocks : Option (List (BlockNumber × Hash))) (bad_blocks : Option (List Hash))
      (r : Result ChainError (Unit {0})) (s s' : S) (c : NewClient S)
      → new_client_on b trie_root root_of fork_blocks bad_blocks (r, s) ≡ (ok c, s')
      → (r ≡ ok tt)
        × ((s ≡ s')
            × (c ≡ record {
              node = record { backend = s'; importing_block = none; notifies = new_notifies };
              block_rules = Rules.new fork_blocks bad_blocks;
            }))
  new_client_on-cases fork_blocks bad_blocks (err x) s s' c e = absurd (ground (arith, e))
  new_client_on-cases fork_blocks bad_blocks (ok tt) s s' c e =
      (refl, (ground (arith, e), ground (arith, e)))

  -- A client that is made has its backend as it was, if this has a block 0, or after the commit of
  -- exactly three calls: the state's, its storage's, and that of a final block 0 without a parent, a
  -- digest or a body, with the roots of that storage and of no extrinsics; no block is being imported, nobody listens, and its
  -- rules are those that were given.
  pub new-IsInitialized :
      (build_storage : Option Bytes) (fork_blocks : Option (List (BlockNumber × Hash)))
      (bad_blocks : Option (List Hash)) (s s' : S) (c : NewClient S)
      → new b trie_root root_of build_storage fork_blocks bad_blocks s ≡ (ok c, s')
      → IsInitialized build_storage s s'
        × (c ≡ record {
          node = record { backend = s'; importing_block = none; notifies = new_notifies };
          block_rules = Rules.new fork_blocks bad_blocks;
        })
  unfolding new
  new-IsInitialized build_storage fork_blocks bad_blocks s s' c e =
      let made = initialize b trie_root root_of build_storage s in
      let (done, (same, c_is)) = new_client_on-cases fork_blocks bad_blocks made.0 made.1 s' c e in
      (initialize-IsInitialized build_storage s s' (λ i. (done i, same i)), c_is)

  -- Where a backend that has committed a block 0 as final has a block 0, the next start leaves it as it
  -- is, whatever genesis storage it is given.
  pub new-starts_again :
      (build_storage build_storage' : Option Bytes)
      (fork_blocks fork_blocks' : Option (List (BlockNumber × Hash)))
      (bad_blocks bad_blocks' : Option (List Hash)) (s s' : S) (c : NewClient S)
      → ((g : Bytes) (before after : S)
          → b.commit_operation (genesis_calls g) before ≡ (ok tt, after)
          → (b.blockchain after).header (number 0)
            ≡ ok (some (construct_genesis_block trie_root (root_of g)).header))
      → new b trie_root root_of build_storage fork_blocks bad_blocks s ≡ (ok c, s')
      → (new b trie_root root_of build_storage' fork_blocks' bad_blocks' s').1 ≡ s'
  unfolding new initialize
  new-starts_again build_storage build_storage' fork_blocks fork_blocks' bad_blocks bad_blocks' s s'
        c keeps e =
      elim (new-IsInitialized build_storage fork_blocks bad_blocks s s' c e).0 [
        | there h q same ↦
            let found : (b.blockchain s').header (number 0) ≡ ok (some h) = rw same q in
            ground (arith, found)
        | written g q q' committed ↦ ground (arith, keeps g s s' committed)
      ]
