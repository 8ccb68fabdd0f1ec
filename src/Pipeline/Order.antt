-- ===== src/Pipeline/Order.antt =====
-- The executor goes through the chain in order, with one number under way at a time.
use sub_archive.Prelude.{
  ◌+◌, ◌≤◌, List, [], ◌∷◌, ◌++◌, Bool, true, false, returned, ◌≡◌, ◌⊎◌, arith, elem, refl, length,
  Bool-cases, inl, inr,
}
use sub_archive.Chain.{BlockNumber}
use sub_archive.Notifier.Task.{Notifier}
use sub_archive.Executor.Block.{BlockExecutor}
use sub_archive.Executor.VersionCache.{Versions}
use sub_archive.Executor.Archive.{Sent, archive}
use sub_archive.Executor.Sends.{archive_sends}
use sub_archive.Pipeline.Comparer.{compare}
use sub_archive.Pipeline.Walk.{Follows, IsWalk, no_gaps, walk-ge}
use sub_archive.Pipeline.System.{
  System, Step, import, execute, execute_panic, compare_next, stored, failed, store_panic, init,
  Reach, here, next, heard,
}

abbrev pub IsNewest : BlockNumber → List BlockNumber → Type 0
IsNewest n [] = ⊥
IsNewest n (m ∷ older) = m ≡ n

-- Where the one number under way is: `e` and `c` are the queues of the executor and the comparer.
pub data Token (start : BlockNumber) (e c done : List BlockNumber) (alive : Bool) : Type 0 where
  at_executor :
      (n : BlockNumber) → e ≡ n ∷ [] → c ≡ [] → Follows start n done → Token start e c done alive
  at_comparer :
      (n : BlockNumber) → e ≡ [] → c ≡ n ∷ [] → IsNewest n done → Token start e c done alive
  nowhere : e ≡ [] → c ≡ [] → alive ≡ false → Token start e c done alive

pub record IsOrdered {J : Type 0} (start : BlockNumber) (s : System J) : Type 0 where
  pub token : Token start s.executor_queue s.comparer_queue s.done s.executor_alive
  pub walk : IsWalk start s.done

pub sends_number :
    {S J : Type 0} (x : BlockExecutor S J) (n : BlockNumber) (versions : Versions) (a : Sent J)
    → archive x n versions ≡ (returned tt, a)
    → a.to_comparer ≡ n ∷ []
sends_number x n versions a h = ground (arith, archive_sends x n versions)

compare-Follows :
    (start n best : BlockNumber) (done : List BlockNumber)
    → IsNewest n done
    → Follows start (compare n best) done
unfolding compare
compare-Follows start n best [] h = absurd h
compare-Follows start n best (m ∷ older) h = ground arith

module _ {start : BlockNumber} {e c done : List BlockNumber} {alive : Bool} where
  pub Token-execute :
      (n : BlockNumber) (rest to_comparer : List BlockNumber)
      → e ≡ n ∷ rest
      → to_comparer ≡ n ∷ []
      → Token start e c done alive
      → Token start rest (c ++ to_comparer) (n ∷ done) alive × Follows start n done
  Token-execute n rest to_comparer q t (at_executor m q' r f) =
      (at_comparer n (ground arith) (ground arith) refl, ground arith)
  Token-execute n rest to_comparer q t (at_comparer m q' r f) = absurd (ground arith)
  Token-execute n rest to_comparer q t (nowhere q' r f) = absurd (ground arith)

  Token-panic :
      (n : BlockNumber) (rest : List BlockNumber)
      → e ≡ n ∷ rest
      → Token start e c done alive
      → Token start [] c done false
  Token-panic n rest q (at_executor m q' r f) = nowhere refl r refl
  Token-panic n rest q (at_comparer m q' r f) = absurd (ground arith)
  Token-panic n rest q (nowhere q' r f) = absurd (ground arith)

  Token-compare :
      (n best : BlockNumber) (rest : List BlockNumber)
      → c ≡ n ∷ rest
      → Token start e c done alive
      → Token start (heard alive e (compare n best ∷ [])) rest done alive
  Token-compare n best rest q (at_executor m q' r f) = absurd (ground arith)
  Token-compare n best rest q (at_comparer m q' r f) =
      let same : (n ≡ m) = ground arith in
      elim (Bool-cases alive) [
        | inl lives ↦
            at_executor (compare n best) (ground (arith, lives)) (ground arith)
              (compare-Follows start n best done (rw same f))
        | inr dead ↦ nowhere (ground (arith, dead)) (ground arith) dead
      ]
  Token-compare n best rest q (nowhere q' r f) = absurd (ground arith)

  Token-count :
      Token start e c done alive
      → (length e + length c ≤ 1) × ((alive ≡ false) ⊎ (length e + length c ≡ 1))
  Token-count (at_executor n q r f) = ground (arith, q, r)
  Token-count (at_comparer n q r f) = ground (arith, q, r)
  Token-count (nowhere q r dead) = ground (arith, q, r)

module _ {J : Type 0} {start : BlockNumber} where
  pub Step-IsOrdered : {s t : System J} → Step s t → IsOrdered start s → IsOrdered start t
  Step-IsOrdered (import best metadata_at) i = record { token = i.token; walk = i.walk }
  Step-IsOrdered {s} (execute S x n rest a alive q e) i =
      let (token, follows) =
        Token-execute n rest a.to_comparer q (sends_number x n s.versions a e) i.token in
      record { token = token; walk = (follows, i.walk) }
  Step-IsOrdered (execute_panic S x n rest a alive q e) i = record {
    token = Token-panic n rest q i.token;
    walk = i.walk;
  }
  Step-IsOrdered {s} (compare_next n rest q) i = record {
    token = Token-compare n s.best rest q i.token;
    walk = i.walk;
  }
  Step-IsOrdered (stored m p rest alive q e) i = record { token = i.token; walk = i.walk }
  Step-IsOrdered (failed m p rest e alive q r) i = record { token = i.token; walk = i.walk }
  Step-IsOrdered (store_panic m p rest alive q e) i = record { token = i.token; walk = i.walk }

  pub Reach-IsOrdered :
      {best : BlockNumber} {notifier : Notifier J} {t : System J}
      → Reach (init start best notifier) t
      → IsOrdered start t
  Reach-IsOrdered here = record { token = at_executor start refl refl refl; walk = tt }
  Reach-IsOrdered (next r st) = Step-IsOrdered st (Reach-IsOrdered r)

  module _ {best : BlockNumber} {notifier : Notifier J} {t : System J} where
    -- In every reachable state the executor has been through every number from the first one to the
    -- newest one, whatever order the tasks ran in.
    pub executor_no_gaps :
        (n k : BlockNumber) (older : List BlockNumber)
        → Reach (init start best notifier) t
        → t.done ≡ n ∷ older
        → start ≤ k
        → k ≤ n
        → elem k t.done ≡ true
    executor_no_gaps n k older r e lo hi =
        rw e (no_gaps start n older k (rw e at (Reach-IsOrdered r).walk) lo hi)

    -- The executor never goes below the number that it started with.
    pub executor_from_start :
        (k : BlockNumber) → Reach (init start best notifier) t → elem k t.done ≡ true → start ≤ k
    executor_from_start k r m = walk-ge start k t.done (Reach-IsOrdered r).walk m

    -- While the executor's task lives, exactly one number is under way between the executor and the
    -- comparer, so the loop between them never stops and never forks; at no time is there more.
    pub one_number_under_way :
        Reach (init start best notifier) t
        → (length t.executor_queue + length t.comparer_queue ≤ 1)
          × ((t.executor_alive ≡ false) ⊎ (length t.executor_queue + length t.comparer_queue ≡ 1))
    one_number_under_way r = Token-count (Reach-IsOrdered r).token
