-- ===== src/Executor/Execution.antt =====
-- What an execution of a block by the executor is.
use sub_archive.Prelude.{
  List, [], ◌∷◌, ◌++◌, some, ok, returned, ◌≡◌, inl, inr, refl, arith, ap, sym, ◌∙◌, Outcome-cases,
  Result-cases, Option-cases,
}
use sub_archive.Chain.{DigestItem, Block, SignedBlock, BlockNumber, hash}
use sub_archive.Executor.Block.{
  BlockExecutor, StorageChanges, pop, block_to_execute, execute_block_and_into_storage_changes,
}

-- The block `ran` is the block `b` without its seal, the last item of its digest, if it has one.
pub data IsUnsealed (b ran : Block) : Type 0 where
  sealed :
      (items : List DigestItem) (seal : DigestItem)
      → b.header.digest ≡ items ++ seal ∷ []
      → ran ≡ record b { header = record b.header { digest = items } }
      → IsUnsealed b ran
  bare : b.header.digest ≡ [] → ran ≡ b → IsUnsealed b ran

pop-cases :
    (x : DigestItem) (xs : List DigestItem)
    → (seal : DigestItem) × (x ∷ xs ≡ pop (x ∷ xs) ++ seal ∷ [])
pop-cases x [] = (x, refl)
pop-cases x (y ∷ xs) = let (seal, e) = pop-cases y xs in (seal, λ i. x ∷ e i)

to_execute-IsUnsealed :
    (b : Block) (digest : List DigestItem)
    → b.header.digest ≡ digest
    → IsUnsealed b (block_to_execute b)
to_execute-IsUnsealed b [] e =
    let with_digest : List DigestItem → Block =
      λ d. record b { header = record b.header { digest = d } } in
    bare e (ap (λ d. with_digest (pop d)) e ∙ ap with_digest (sym e))
to_execute-IsUnsealed b (x ∷ xs) e =
    let (seal, popped) = pop-cases x xs in sealed (pop (x ∷ xs)) seal (e ∙ popped) (rw e refl)

module _ {S J : Type 0} (x : BlockExecutor S J) (n : BlockNumber) where
  -- The backend had the block under the number and its parent's state; the block without its seal was
  -- executed at its parent, and the changes are what the runtime's object made of that, on that state.
  pub record IsExecution (sb : SignedBlock) (main_sc : StorageChanges) : Type 0 where
    pub found : x.get_block n ≡ returned (some sb)
    pub state : S
    pub has_state : x.get_state (hash sb.block.header.parent_hash) ≡ ok state
    pub ran : Block
    pub unsealed : IsUnsealed sb.block ran
    pub recorded : x.client.Recorded
    pub runs : x.client.execute_block (hash sb.block.header.parent_hash) ran ≡ returned recorded
    pub yields :
        x.client.into_storage_changes recorded state sb.block.header.parent_hash ≡ some main_sc

  with_state :
      (main_sc : StorageChanges) (sb : SignedBlock) (state : S)
      → execute_block_and_into_storage_changes x n ≡ returned (some (main_sc, sb))
      → x.get_block n ≡ returned (some sb)
      → x.get_state (hash sb.block.header.parent_hash) ≡ ok state
      → IsExecution sb main_sc
  unfolding execute_block_and_into_storage_changes
  with_state main_sc sb state e f g =
      elim (Outcome-cases
        (x.client.execute_block (hash sb.block.header.parent_hash) (block_to_execute sb.block))) [
          | inl p ↦ absurd (ground (arith, f, g, p, e))
          | inr (recorded, p) ↦ record {
            found = f;
            state = state;
            has_state = g;
            ran = block_to_execute sb.block;
            unsealed = to_execute-IsUnsealed sb.block sb.block.header.digest refl;
            recorded = recorded;
            runs = p;
            yields = ground (arith, f, g, p, e);
          }
        ]

  pub executes-IsExecution :
      (main_sc : StorageChanges) (sb : SignedBlock)
      → execute_block_and_into_storage_changes x n ≡ returned (some (main_sc, sb))
      → IsExecution sb main_sc
  unfolding execute_block_and_into_storage_changes
  executes-IsExecution main_sc sb e = elim (Outcome-cases (x.get_block n)) [
    | inl p ↦ absurd (ground (arith, p, e))
    | inr (o, p) ↦ elim (Option-cases o) [
      | inl missing ↦ absurd (ground (arith, p, missing, e))
      | inr (sb', there) ↦ elim (Result-cases (x.get_state (hash sb'.block.header.parent_hash))) [
        | inr (why, g) ↦ absurd (ground (arith, p, there, g, e))
        | inl (state, g) ↦
            elim (Outcome-cases (
              x.client.execute_block (hash sb'.block.header.parent_hash)
                (block_to_execute sb'.block))) [
                  | inl dead ↦ absurd (ground (arith, p, there, g, dead, e))
                  | inr (recorded, ran) ↦
                      let same : sb' ≡ sb = ground (arith, p, there, g, ran, e) in
                      with_state main_sc sb state e (rw (there, same) at p) (rw same at g)
                ]
      ]
    ]
  ]
