-- ===== src/Client/StreamLaws.antt =====
-- What becomes of auxiliary data.
use sub_archive.Prelude.{inl, inr, List, [], ◌∷◌, none, ok, returned, ◌≡◌, arith, Result-cases}
use sub_archive.Chain.{Bytes}
use sub_archive.Client.Backend.{insert_aux as aux}
use sub_archive.Client.Notifies.{notify_finalized}
use sub_archive.Client.Lock.{Backend, Node, lock_import_and_run}
use sub_archive.Client.Streams.{aux_entries, insert_aux}

-- Auxiliary data that is inserted with success has been committed as one call, the entries before the keys to
-- delete; and no block counts as being imported after it.
pub insert_aux-commits :
    {S : Type 0} (b : Backend S) (insert : List (Bytes × Bytes)) (delete : List Bytes)
    (n n' : Node S)
    → insert_aux b insert delete n ≡ (returned (ok tt), n')
    → (b.commit_operation (aux (aux_entries insert delete) ∷ []) n.backend ≡ (ok tt, n'.backend))
      × (n'.importing_block ≡ none)
unfolding insert_aux lock_import_and_run notify_finalized
insert_aux-commits b insert delete n n' e =
    let entries = aux_entries insert delete in
    elim (Result-cases (b.begin_operation n.backend)) [
      | inr (x, q) ↦ absurd (ground (arith, q, e))
      | inl (begun, q) ↦ elim (Result-cases (b.accepts n.backend [] (aux entries))) [
        | inr (x, q') ↦ absurd (ground (arith, q, q', e))
        | inl (accepted, q') ↦
            elim (Result-cases (b.commit_operation (aux entries ∷ []) n.backend).0) [
              | inr (x, c) ↦ absurd (ground (arith, q, q', c, e))
              | inl (committed, c) ↦
                  let kept : (b.commit_operation (aux entries ∷ []) n.backend).1 ≡ n'.backend =
                    ground (arith, q, q', c, e) in
                  (λ i. (c i, kept i), ground (arith, q, q', c, e))
            ]
      ]
    ]
