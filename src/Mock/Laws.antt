-- ===== src/Mock/Laws.antt =====
-- The transactions of a call, and what a call that fails leaves.
use sub_archive.Prelude.{
  Option, some, Bool, Result, ok, err, returned, ◌≡◌, arith, inl, inr, Result-cases, ◌∙◌, refl,
}
use sub_archive.Chain.{Bytes, BlockId}
use sub_archive.Client.Api.{CallApiAtParams}
use sub_archive.Mock.State.{ApiError, NativeOrEncoded, MockRuntimeApi, OverlayedChanges, CallApiAt}
use sub_archive.Mock.Call.{
  commit_or_rollback, started, call_params, call_api_at_native_code, call_api_at, decoded,
}

module _ {O K S C : Type 0} (v : OverlayedChanges O K S C) where
  -- What sp_state_machine says of transactions: a rollback undoes what was changed since the start, and
  -- where it may be made, a commit may, which leaves what is below as it is.
  pub record IsTransactional : Type 0 where
    pub rollback-start : (o : O) → v.rollback_transaction (v.start_transaction o) ≡ some o
    pub commit-opened :
        (o p : O)
        → v.rollback_transaction o ≡ some p
        → (q : O) × (v.commit_transaction o ≡ some q)
          × (v.rollback_transaction q ≡ v.rollback_transaction p)

  -- The open transactions of one overlay, and what they would go back to, are those of another.
  abbrev pub IsLevel : MockRuntimeApi O K → MockRuntimeApi O K → Type 0
  IsLevel s s' = v.rollback_transaction s'.changes ≡ v.rollback_transaction s.changes

  -- The client balances the transactions that it opens in a call.
  abbrev pub IsBalanced : {E : Type 0} → CallApiAt E (MockRuntimeApi O K) → Type 1
  IsBalanced {E} c =
      (T : Type 0) (params : CallApiAtParams E (Result ApiError T)) (s : MockRuntimeApi O K)
      → IsLevel s (c.call_api_at T params s).1

  module _ (laws : IsTransactional) {E : Type 0} (c : CallApiAt E (MockRuntimeApi O K))
      (balanced : IsBalanced c) where
    -- A call in a transaction, which leaves the open transactions as they were: where the client fails,
    -- nothing is left changed, and where it does not, what it changed is kept.
    pub data Transacted (T : Type 0) (params : CallApiAtParams E (Result ApiError T))
        (s s' : MockRuntimeApi O K) : Type 0 where
      undone :
          (e : ApiError)
          → (c.call_api_at T params (started v s)).0 ≡ err e
          → s' ≡ record (c.call_api_at T params (started v s)).1 { changes = s.changes }
          → IsLevel s s'
          → Transacted T params s s'
      kept :
          (a : NativeOrEncoded T) (q : O)
          → (c.call_api_at T params (started v s)).0 ≡ ok a
          → v.commit_transaction (c.call_api_at T params (started v s)).1.changes ≡ some q
          → s' ≡ record (c.call_api_at T params (started v s)).1 { changes = q }
          → IsLevel s s'
          → Transacted T params s s'

    module _ {T : Type 0} {params : CallApiAtParams E (Result ApiError T)}
        {s s' : MockRuntimeApi O K} where
      pub level : Transacted T params s s' → IsLevel s s'
      level (undone e fails same l) = l
      level (kept a q succeeds committed same l) = l

      pub after_failure :
          (e : ApiError)
          → (c.call_api_at T params (started v s)).0 ≡ err e
          → Transacted T params s s'
          → s' ≡ record (c.call_api_at T params (started v s)).1 { changes = s.changes }
      after_failure e fails (undone e' fails' same l) = same
      after_failure e fails (kept a q succeeds committed same l) =
          absurd (ground (arith, fails, succeeds))

      pub after_success :
          (a : NativeOrEncoded T)
          → (c.call_api_at T params (started v s)).0 ≡ ok a
          → Transacted T params s s'
          → (q : O) × (v.commit_transaction (c.call_api_at T params (started v s)).1.changes
              ≡ some q)
            × (s' ≡ record (c.call_api_at T params (started v s)).1 { changes = q })
      after_success a succeeds (undone e fails same l) = absurd (ground (arith, fails, succeeds))
      after_success a succeeds (kept a' q succeeds' committed same l) = (q, committed, same)

    pub native_code-Transacted :
        (T : Type 0) (method : Bytes) (context : Option E) (init : Bool) (at : BlockId)
        (args : Bytes) (s : MockRuntimeApi O K)
        → (s' : MockRuntimeApi O K) × (call_api_at_native_code v c T method context init at args s
            ≡ (
              returned
                  (c.call_api_at T
                    (call_params v c method context init at args (started v s))
                    (started v s)).0,
              s',
            ))
          × Transacted T (call_params v c method context init at args (started v s)) s s'
    unfolding call_api_at_native_code commit_or_rollback
    native_code-Transacted T method context init at args s =
        let params = call_params v c method context init at args (started v s) in
        let s1 = (c.call_api_at T params (started v s)).1 in
        let opened : v.rollback_transaction s1.changes ≡ some s.changes =
          balanced T params (started v s) ∙ laws.rollback-start s.changes in
        elim (Result-cases (c.call_api_at T params (started v s)).0) [
          | inr (e, q) ↦
              (record s1 { changes = s.changes }, ground (arith, q, opened), undone e q refl refl)
          | inl (a, q) ↦
              let (o, committed, below) = laws.commit-opened s1.changes s.changes opened in
              (
                record s1 { changes = o },
                ground (arith, q, committed),
                kept a o q committed refl below,
              )
        ]

    -- A call of the runtime api does not panic. It answers what the client answers, decoded; it leaves
    -- the open transactions as they were; and where the client fails it leaves the changes as they were.
    pub call_api_at-Transacted :
        {T : Type 0} (decode : Bytes → Option T) (method : Bytes) (context : Option E) (init : Bool)
        (at : BlockId) (args : Bytes) (s : MockRuntimeApi O K)
        → (s' : MockRuntimeApi O K) × (call_api_at v c decode method context init at args s ≡ (
          returned (
              decoded v c method decode
                (c.call_api_at T
                  (call_params v c method context init at args (started v s))
                  (started v s)).0),
          s',
        ))
          × Transacted T (call_params v c method context init at args (started v s)) s s'
    unfolding call_api_at
    call_api_at-Transacted {T} decode method context init at args s =
        let (s', called, t) = native_code-Transacted T method context init at args s in
        (s', rw called refl, t)
