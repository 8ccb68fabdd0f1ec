-- ===== src/Pipeline/Bound.antt =====
-- The numbers that the executor may be at.
use sub_archive.Prelude.{
  ◌+◌, ltb, if◌then◌else◌, refl, ◌≤◌, List, [], ◌∷◌, true, ◌≡◌, ◌⊎◌, arith, elem, inl, inr, All,
  All-append, All-map, nat_beq, nat_beq_iff, Bool-cases,
}
use sub_archive.Chain.{BlockNumber}
use sub_archive.Notifier.Task.{Notifier}
use sub_archive.Pipeline.Comparer.{compare}
use sub_archive.Pipeline.Order.{sends_number, executor_from_start}
use sub_archive.Pipeline.Turns.{Ever, Ever-now, All-heard}
use sub_archive.Pipeline.System.{
  System, Step, import, execute, execute_panic, compare_next, stored, failed, store_panic, init,
  Reach, here, next,
}

module _ {J : Type 0} (start : BlockNumber) {begun t : System J} (run : Reach begun t) where
  -- The first number, which may be configured, or one that the backend has had.
  abbrev IsWithin : BlockNumber → Type 0
  IsWithin n = (n ≤ start) ⊎ Ever (λ u. n ≤ u.best) run

  record IsBounded (s : System J) : Type 0 where
    at_executor : All IsWithin s.executor_queue
    at_comparer : All IsWithin s.comparer_queue
    before : All IsWithin s.done

  compare-IsWithin : (n : BlockNumber) → IsWithin n → IsWithin (compare n t.best)
  unfolding compare
  compare-IsWithin n h = elim (Bool-cases (ltb n t.best)) [
    | inl behind ↦
        let sent : (if ltb n t.best then n + 1 else n) ≡ n + 1 = rw behind refl in
        inr (rw sent (Ever-now (λ u. n + 1 ≤ u.best) run (ground (arith, behind))))
    | inr there ↦ let sent : (if ltb n t.best then n + 1 else n) ≡ n = rw there refl in rw sent h
  ]

  member-IsWithin :
      (k : BlockNumber) (ns : List BlockNumber) → All IsWithin ns → elem k ns ≡ true → IsWithin k
  member-IsWithin k [] all m = absurd (ground arith)
  member-IsWithin k (n ∷ ns) all m = elim (Bool-cases (nat_beq k n)) [
    | inl same ↦ rw ((nat_beq_iff k n).0 same) all.0
    | inr other ↦ member-IsWithin k ns all.1 (ground (arith, other))
  ]

module _ {J : Type 0} (start : BlockNumber) {begun t u : System J} (run : Reach begun t)
    (st : Step t u) where
  IsWithin-earlier : (n : BlockNumber) → IsWithin start run n → IsWithin start (next run st) n
  IsWithin-earlier n (inl first) = inl first
  IsWithin-earlier n (inr had) = inr (inl had)

  within_later :
      (ns : List BlockNumber) → All (IsWithin start run) ns → All (IsWithin start (next run st)) ns
  within_later = All-map IsWithin-earlier

  IsBounded-earlier : IsBounded start run t → IsBounded start (next run st) t
  IsBounded-earlier i = record {
    at_executor = within_later t.executor_queue i.at_executor;
    at_comparer = within_later t.comparer_queue i.at_comparer;
    before = within_later t.done i.before;
  }

module _ {J : Type 0} {start : BlockNumber} {begun t : System J} (run : Reach begun t) where
  Step-IsBounded :
      {u : System J} (st : Step t u)
      → IsBounded start run t
      → IsBounded start (next run st) t
      → IsBounded start (next run st) u
  Step-IsBounded (import best metadata_at) i j = record {
    at_executor = j.at_executor;
    at_comparer = j.at_comparer;
    before = j.before;
  }
  Step-IsBounded (execute S x n rest a alive q e) i j =
      let taken = rw q at j.at_executor in
      record {
        at_executor = taken.1;
        at_comparer =
            rw (sends_number x n t.versions a e)
              (All-append _ t.comparer_queue (n ∷ []) j.at_comparer (taken.0, tt));
        before = (taken.0, j.before);
      }
  Step-IsBounded (execute_panic S x n rest a alive q e) i j = record {
    at_executor = tt;
    at_comparer = j.at_comparer;
    before = j.before;
  }
  Step-IsBounded (compare_next n rest q) i j =
      let before = rw q at i.at_comparer in
      let taken = rw q at j.at_comparer in
      record {
        at_executor =
            All-heard _ t.executor_alive t.executor_queue (compare n t.best ∷ []) j.at_executor (
              IsWithin-earlier start run (compare_next n rest q) (compare n t.best)
                  (compare-IsWithin start run n before.0),
              tt,
            );
        at_comparer = taken.1;
        before = j.before;
      }
  Step-IsBounded (stored m p rest alive q e) i j = record {
    at_executor = j.at_executor;
    at_comparer = j.at_comparer;
    before = j.before;
  }
  Step-IsBounded (failed m p rest e alive q r) i j = record {
    at_executor = j.at_executor;
    at_comparer = j.at_comparer;
    before = j.before;
  }
  Step-IsBounded (store_panic m p rest alive q e) i j = record {
    at_executor = j.at_executor;
    at_comparer = j.at_comparer;
    before = j.before;
  }

module _ {J : Type 0} {start best : BlockNumber} {notifier : Notifier J} where
  Reach-IsBounded :
      {t : System J} (run : Reach (init start best notifier) t) → IsBounded start run t
  Reach-IsBounded here = record {
    at_executor = (inl (omega arith), tt);
    at_comparer = tt;
    before = tt;
  }
  Reach-IsBounded (next run st) =
      let i = Reach-IsBounded run in Step-IsBounded run st i (IsBounded-earlier start run st i)

  -- In every reachable state, each number that the executor has been through is at least the number that it
  -- started with, and unless it is that number, the backend's best number has been as great in some state
  -- of the run.
  pub executor_within_best :
      {t : System J} (k : BlockNumber) (run : Reach (init start best notifier) t)
      → elem k t.done ≡ true
      → (start ≤ k) × ((k ≡ start) ⊎ Ever (λ u. k ≤ u.best) run)
  executor_within_best {t} k run m =
      let at_least = executor_from_start k run m in
      (
        at_least,
        elim (member-IsWithin start run k t.done (Reach-IsBounded run).before m) [
          | inl le ↦ inl (omega (arith, at_least, le))
          | inr had ↦ inr had
        ],
      )
