-- ===== src/Client/FinalityLaws.antt =====
-- `apply_finality_with_block_hash` finalizes in order, and tells of the newest blocks.
use sub_archive.Prelude.{
  List, [], ◌∷◌, ◌++◌, Option, none, Bool, true, ok, err, returned, panicked, ◌≡◌, ◌≢◌, refl, arith,
  if◌then◌else◌, inl, inr, Result-cases, nat_beq_iff, ap, sym,
}
use mathlib.Core.List.{append_assoc, append-nil}
use sub_archive.Chain.{Hash, Justification, ChainError}
use sub_archive.Client.Backend.{Blockchain, Op, mark_finalized}
use sub_archive.Client.Operation.{Importing, Accepts}
use sub_archive.Client.Finality.{all_but_last, is_last, mark_each, mark_route, to_notify}

-- The blocks that the calls finalize, in order.
unfoldable pub finalized_in : List Op → List Hash
finalized_in [] = []
finalized_in (mark_finalized h j ∷ ops) = h ∷ finalized_in ops
finalized_in (_ ∷ ops) = finalized_in ops

pub finalized_in-append :
    (xs ys : List Op) → finalized_in (xs ++ ys) ≡ finalized_in xs ++ finalized_in ys
unfolding finalized_in
finalized_in-append [] ys = refl
finalized_in-append (mark_finalized h j ∷ xs) ys = ap (λ l. h ∷ l) (finalized_in-append xs ys)
finalized_in-append (_ ∷ xs) ys = finalized_in-append xs ys

all_but_last-append :
    (h : Hash) (hs : List Hash) → is_last h hs ≡ true → all_but_last hs ++ h ∷ [] ≡ hs
all_but_last-append h [] e = absurd (ground arith)
all_but_last-append h (k ∷ []) e = ground (arith, nat_beq_iff k h)
all_but_last-append h (k ∷ j ∷ rest) e = ap (λ l. k ∷ l) (all_but_last-append h (j ∷ rest) e)

module _ (chain : Blockchain) (accepts : Accepts) where
  mark_each-refused :
      (h : Hash) (hs : List Hash) (s : Importing) (e : ChainError)
      → accepts s.op (mark_finalized h none) ≡ err e
      → mark_each chain accepts (h ∷ hs) s ≡ (returned (err e), s)
  unfolding mark_each
  mark_each-refused h hs s e q = ground (arith, q)

  mark_each-taken :
      (h : Hash) (hs : List Hash) (s : Importing)
      → accepts s.op (mark_finalized h none) ≡ ok tt
      → mark_each chain accepts (h ∷ hs) s
        ≡ mark_each chain accepts hs (record s { op = s.op ++ mark_finalized h none ∷ [] })
  unfolding mark_each
  mark_each-taken h hs s q = ground (arith, q)

  -- The steps of a success.
  mark_each-ok :
      (hs : List Hash) (s : Importing)
      → (mark_each chain accepts hs s).0 ≡ returned (ok tt)
      → (finalized_in (mark_each chain accepts hs s).1.op ≡ finalized_in s.op ++ hs)
        × ((mark_each chain accepts hs s).1.notify_finalized ≡ s.notify_finalized)
  unfolding mark_each finalized_in
  mark_each-ok [] s e = (sym (append-nil _), refl)
  mark_each-ok (h ∷ hs) s e = elim (Result-cases (accepts s.op (mark_finalized h none))) [
    | inr (x, q) ↦ absurd (ground (arith, mark_each-refused h hs s x q))
    | inl (tt, q) ↦ ground (
      arith,
      mark_each-taken h hs s q,
      mark_each-ok hs (record s { op = s.op ++ mark_finalized h none ∷ [] }),
      finalized_in-append s.op (mark_finalized h none ∷ []),
      append_assoc (finalized_in s.op) (h ∷ []) hs,
    )
  ]

  pub mark_each-ne-panicked :
      (hs : List Hash) (s : Importing) → (mark_each chain accepts hs s).0 ≢ panicked
  unfolding mark_each
  mark_each-ne-panicked [] s e = ground arith
  mark_each-ne-panicked (h ∷ hs) s e = elim (Result-cases (accepts s.op (mark_finalized h none))) [
    | inr (x, q) ↦ ground (arith, mark_each-refused h hs s x q)
    | inl (tt, q) ↦ ground (
      arith,
      mark_each-taken h hs s q,
      mark_each-ne-panicked hs (record s { op = s.op ++ mark_finalized h none ∷ [] }),
    )
  ]

  all_marked :
      (block : Hash) (j : Option Justification) (enacted before ops : List Hash)
      → is_last block enacted ≡ true
      → ops ≡ before ++ all_but_last enacted
      → ops ++ block ∷ [] ≡ before ++ enacted
  all_marked block j enacted before ops l e = ground (
    arith,
    e,
    append_assoc before (all_but_last enacted) (block ∷ []),
    all_but_last-append block enacted l,
  )

  pub mark_route-ok :
      (block : Hash) (j : Option Justification) (notify : Bool) (enacted : List Hash)
      (s : Importing)
      → (mark_route chain accepts block j notify enacted s).0 ≡ returned (ok tt)
      → (finalized_in (mark_route chain accepts block j notify enacted s).1.op
          ≡ finalized_in s.op ++ enacted)
        × ((mark_route chain accepts block j notify enacted s).1.notify_finalized
            ≡ s.notify_finalized ++ (if notify then to_notify enacted else []))
  unfolding mark_route finalized_in
  mark_route-ok block j notify enacted s e = ground (
    arith,
    e,
    append-nil s.notify_finalized,
    mark_each-ok (all_but_last enacted) s,
    finalized_in-append (mark_each chain accepts (all_but_last enacted) s).1.op
        (mark_finalized block j ∷ []),
    all_marked block j enacted (finalized_in s.op)
        (finalized_in (mark_each chain accepts (all_but_last enacted) s).1.op),
  )
