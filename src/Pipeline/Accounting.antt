-- ===== src/Pipeline/Accounting.antt =====
-- What becomes of each block that the executor has been through.
use sub_archive.Prelude.{
  List, [], ◌∷◌, ◌++◌, Bool, true, false, returned, ok, ◌≡◌, ◌≢◌, ◌⊎◌, inl, inr, arith, elem, refl,
  ◌||◌, elem-append, nat_beq, nat_beq_iff, Bool-cases,
}
use sub_archive.Prelude.Int.{int_eq}
use sub_archive.Prelude.Assoc.{contains_key}
use sub_archive.Chain.{BlockNumber}
use sub_archive.Postgres.Model.{BlockModel}
use sub_archive.Kafka.Payload.{BlockPayload}
use sub_archive.Notifier.Task.{Notifier}
use sub_archive.Notifier.Archive.{ArchiveSendMsg, archive as store}
use sub_archive.Notifier.Monotone.{archive-keeps, archive-bind}
use sub_archive.Notifier.Failure.{archive_stored}
use sub_archive.Executor.Block.{BlockExecutor}
use sub_archive.Executor.VersionCache.{Versions}
use sub_archive.Executor.Archive.{Sent, archive}
use sub_archive.Executor.Sends.{archive_sends, numbers}
use sub_archive.Pipeline.System.{
  System, Step, import, execute, execute_panic, compare_next, stored, failed, store_panic, init,
  Reach, here, next, heard, unheard,
}

module _ {J : Type 0} where
  abbrev is_stored : Notifier J → BlockNumber → Bool
  is_stored notifier k = contains_key (notifier.db.bind k) notifier.db.tables.blocks

  -- Block `k` waits for the archiver, is stored, or is one that the archiver failed to store.
  abbrev accounted : List (ArchiveSendMsg J) → Notifier J → List BlockNumber → BlockNumber → Bool
  accounted queue notifier lost k = elem k (numbers queue) || is_stored notifier k || elem k lost

  IsAccounted : System J → Type 0
  IsAccounted s =
      (k : BlockNumber)
      → elem k s.done ≡ true
      → k ≢ 0
      → accounted s.archiver_queue s.notifier s.lost k ≡ true

  numbers-append : (xs ys : List (ArchiveSendMsg J)) → numbers (xs ++ ys) ≡ numbers xs ++ numbers ys
  numbers-append [] ys = refl
  numbers-append ((m, p) ∷ xs) ys = rw (numbers-append xs ys)

  numbers_sent :
      {S : Type 0} (x : BlockExecutor S J) (n : BlockNumber) (versions : Versions) (a : Sent J)
      → archive x n versions ≡ (returned tt, a)
      → n ≢ 0
      → elem n (numbers a.to_archiver) ≡ true
  numbers_sent x n versions a h nz = ground (arith, archive_sends x n versions)

  is_stored-archive :
      (m : BlockModel J) (p : BlockPayload) (s : Notifier J) (k : BlockNumber)
      → is_stored s k ≡ true
      → is_stored (store m p s).1 k ≡ true
  is_stored-archive m p s k h = rw (archive-bind m p s) (archive-keeps m p s (s.db.bind k) h)

  is_stored_now :
      (m : BlockModel J) (p : BlockPayload) (s : Notifier J)
      → (store m p s).0 ≡ returned (ok tt)
      → is_stored (store m p s).1 m.block_num ≡ true
  is_stored_now m p s h = rw (archive-bind m p s) (ground (arith, archive_stored m p s h))

  accounted-sent :
      (queue msgs : List (ArchiveSendMsg J)) (s : Notifier J) (lost : List BlockNumber)
      (k : BlockNumber)
      → (accounted queue s lost k ≡ true) ⊎ (elem k (numbers msgs) ≡ true)
      → accounted (queue ++ msgs) s lost k ≡ true
  accounted-sent queue msgs s lost k h =
      rw (numbers-append queue msgs) (ground (arith, elem-append k (numbers queue) (numbers msgs)))

  accounted-stored :
      (m : BlockModel J) (p : BlockPayload) (rest : List (ArchiveSendMsg J)) (s : Notifier J)
      (lost : List BlockNumber) (k : BlockNumber)
      → (store m p s).0 ≡ returned (ok tt)
      → accounted ((m, p) ∷ rest) s lost k ≡ true
      → accounted rest (store m p s).1 lost k ≡ true
  accounted-stored m p rest s lost k e h =
      ground (arith, is_stored_now m p s e, is_stored-archive m p s k, nat_beq_iff k m.block_num)

  accounted-heard :
      (alive : Bool) (queue msgs : List (ArchiveSendMsg J)) (s : Notifier J)
      (lost : List BlockNumber) (k : BlockNumber)
      → (accounted queue s lost k ≡ true) ⊎ (elem k (numbers msgs) ≡ true)
      → accounted (heard alive queue msgs) s (unheard alive (numbers msgs) lost) k ≡ true
  accounted-heard true queue msgs s lost k h = accounted-sent queue msgs s lost k h
  accounted-heard false queue msgs s lost k h = ground (arith, h, elem-append k (numbers msgs) lost)

  accounted-dropped :
      (m : BlockModel J) (p : BlockPayload) (rest : List (ArchiveSendMsg J)) (s : Notifier J)
      (lost : List BlockNumber) (k : BlockNumber)
      → accounted ((m, p) ∷ rest) s lost k ≡ true
      → accounted [] (store m p s).1 (m.block_num ∷ numbers rest ++ lost) k ≡ true
  accounted-dropped m p rest s lost k h = ground (
    arith,
    is_stored-archive m p s k,
    nat_beq_iff k m.block_num,
    elem-append k (numbers rest) lost,
  )

  accounted-failed :
      (m : BlockModel J) (p : BlockPayload) (rest : List (ArchiveSendMsg J)) (s : Notifier J)
      (lost : List BlockNumber) (k : BlockNumber)
      → accounted ((m, p) ∷ rest) s lost k ≡ true
      → accounted rest (store m p s).1 (m.block_num ∷ lost) k ≡ true
  accounted-failed m p rest s lost k h =
      ground (arith, is_stored-archive m p s k, nat_beq_iff k m.block_num)

  Step-IsAccounted : {s t : System J} → Step s t → IsAccounted s → IsAccounted t
  unfolding IsAccounted
  Step-IsAccounted (import best metadata_at) i = i
  Step-IsAccounted {s} (execute S x n rest a alive q e) i = λ k m nz.
      accounted-heard s.archiver_alive s.archiver_queue a.to_archiver s.notifier s.lost k
        (elim (Bool-cases (nat_beq k n)) [
          | inl same ↦
              let e' = (nat_beq_iff k n).0 same in
              inr (rw e' (numbers_sent x n s.versions a e (rw e' at nz)))
          | inr differs ↦ inl (i k (ground (arith, differs)) nz)
        ])
  Step-IsAccounted (execute_panic S x n rest a alive q e) i = i
  Step-IsAccounted (compare_next n rest q) i = i
  Step-IsAccounted {s} (stored m p rest alive q e) i =
      λ k d nz. accounted-stored m p rest s.notifier s.lost k e (rw q at (i k d nz))
  Step-IsAccounted {s} (failed m p rest e alive q r) i =
      λ k d nz. accounted-failed m p rest s.notifier s.lost k (rw q at (i k d nz))
  Step-IsAccounted {s} (store_panic m p rest alive q e) i =
      λ k d nz. accounted-dropped m p rest s.notifier s.lost k (rw q at (i k d nz))

  Reach-IsAccounted :
      {start best : BlockNumber} {notifier : Notifier J} {t : System J}
      → Reach (init start best notifier) t
      → IsAccounted t
  unfolding IsAccounted
  Reach-IsAccounted here = λ k d nz. absurd (ground arith)
  Reach-IsAccounted (next r st) = Step-IsAccounted st (Reach-IsAccounted r)

  -- Nothing waits for an archiver that is dead.
  IsHeeded : System J → Type 0
  IsHeeded s = (s.archiver_alive ≡ true) ⊎ (s.archiver_queue ≡ [])

  Step-IsHeeded : {s t : System J} → Step s t → IsHeeded s → IsHeeded t
  unfolding IsHeeded
  Step-IsHeeded (import best metadata_at) i = i
  Step-IsHeeded {s} (execute S x n rest a alive q e) i = elim (Bool-cases s.archiver_alive) [
    | inl lives ↦ inl lives
    | inr dead ↦ inr (ground (arith, dead, i))
  ]
  Step-IsHeeded (execute_panic S x n rest a alive q e) i = i
  Step-IsHeeded (compare_next n rest q) i = i
  Step-IsHeeded (stored m p rest alive q e) i = inl alive
  Step-IsHeeded (failed m p rest e alive q r) i = inl alive
  Step-IsHeeded (store_panic m p rest alive q e) i = inr refl

  Reach-IsHeeded :
      {start best : BlockNumber} {notifier : Notifier J} {t : System J}
      → Reach (init start best notifier) t
      → IsHeeded t
  unfolding IsHeeded
  Reach-IsHeeded here = inl refl
  Reach-IsHeeded (next r st) = Step-IsHeeded st (Reach-IsHeeded r)

  -- In every reachable state, each block but the genesis block that the executor has been through waits
  -- for the archiver, which lives, is stored, or is lost: the archiver took its message and failed to store
  -- it, or was dead before it could take it.
  pub executed_blocks_accounted :
      {start best : BlockNumber} {notifier : Notifier J} {t : System J} (k : BlockNumber)
      → Reach (init start best notifier) t
      → elem k t.done ≡ true
      → k ≢ 0
      → ((elem k (numbers t.archiver_queue) ≡ true) × (t.archiver_alive ≡ true))
        ⊎ (contains_key (t.notifier.db.bind k) t.notifier.db.tables.blocks ≡ true)
        ⊎ (elem k t.lost ≡ true)
  unfolding IsAccounted IsHeeded
  executed_blocks_accounted k r d nz = ground (arith, Reach-IsAccounted r k d nz, Reach-IsHeeded r)
