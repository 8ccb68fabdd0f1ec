-- ===== src/Pipeline/Progress.antt =====
-- How the executor gets on, however the tasks are interleaved.
use sub_archive.Prelude.{ℕ, ◌+◌, ◌≤◌, List, [], ◌∷◌, Bool, true, ◌≡◌, arith, elem, length, refl}
use sub_archive.Chain.{BlockNumber}
use sub_archive.Notifier.Task.{Notifier}
use sub_archive.Pipeline.Walk.{Follows, IsWalk, no_gaps}
use sub_archive.Pipeline.Order
use sub_archive.Pipeline.Order.{
  IsOrdered, Token, Token-execute, Step-IsOrdered, Reach-IsOrdered, sends_number,
}
use sub_archive.Pipeline.System.{
  System, Step, import, execute, execute_panic, compare_next, stored, failed, store_panic, init,
  Reach, here, next,
}
use sub_archive.Pipeline.Turns.{Always, Always-now}
use sub_archive.Pipeline.Ahead.{
  newest, IsAhead, at_executor, at_comparer, nowhere, Follows-le-newest, IsAhead-execute,
  IsAhead-panic, IsAhead-compare, IsAhead-reached,
}

record IsOnWay {J : Type 0} (start k from before : ℕ) (s : System J) : Type 0 where
  ordered : IsOrdered start s
  ahead : IsAhead k from before s.executor_queue s.comparer_queue s.done
  some_done : 1 ≤ length s.done

-- What is under way to the executor may come next.
under_way :
    {J : Type 0} (start p : BlockNumber) (rest : List BlockNumber) (s : System J)
    → IsOrdered start s
    → s.executor_queue ≡ p ∷ rest
    → Follows start p s.done
under_way start p rest s i q = (Token-execute p rest (p ∷ []) q refl i.token).1

module _ {J : Type 0} {start k from before : ℕ} where
  Step-IsOnWay :
      {s t : System J}
      → Step s t
      → k ≤ s.best
      → IsOnWay start k from before s
      → IsOnWay start k from before t
  Step-IsOnWay {s} (import best metadata_at) has i = record {
    ordered = Step-IsOrdered (import best metadata_at) i.ordered;
    ahead = i.ahead;
    some_done = i.some_done;
  }
  Step-IsOnWay {s} (execute S x n rest a alive q e) has i = record {
    ordered = Step-IsOrdered (execute S x n rest a alive q e) i.ordered;
    ahead =
        IsAhead-execute start n rest a.to_comparer q (sends_number x n s.versions a e)
          (under_way start n rest s i.ordered q) i.ahead;
    some_done = omega (arith, i.some_done);
  }
  Step-IsOnWay {s} (execute_panic S x n rest a alive q e) has i = record {
    ordered = Step-IsOrdered (execute_panic S x n rest a alive q e) i.ordered;
    ahead =
        IsAhead-panic n rest q
          (Follows-le-newest start n s.done (under_way start n rest s i.ordered q) i.some_done)
          i.ahead;
    some_done = i.some_done;
  }
  Step-IsOnWay {s} (compare_next n rest q) has i = record {
    ordered = Step-IsOrdered (compare_next n rest q) i.ordered;
    ahead = IsAhead-compare n s.best rest s.executor_alive q has i.ahead;
    some_done = i.some_done;
  }
  Step-IsOnWay (stored m p rest alive q e) has i = record {
    ordered = Step-IsOrdered (stored m p rest alive q e) i.ordered;
    ahead = i.ahead;
    some_done = i.some_done;
  }
  Step-IsOnWay (failed m p rest e alive q r) has i = record {
    ordered = Step-IsOrdered (failed m p rest e alive q r) i.ordered;
    ahead = i.ahead;
    some_done = i.some_done;
  }
  Step-IsOnWay (store_panic m p rest alive q e) has i = record {
    ordered = Step-IsOrdered (store_panic m p rest alive q e) i.ordered;
    ahead = i.ahead;
    some_done = i.some_done;
  }

  Reach-IsOnWay :
      {s t : System J} (run : Reach s t)
      → Always (λ u. k ≤ u.best) run
      → IsOnWay start k from before s
      → IsOnWay start k from before t
  Reach-IsOnWay here has i = i
  Reach-IsOnWay (next run st) has i =
      Step-IsOnWay st (Always-now (λ u. k ≤ u.best) run has.0) (Reach-IsOnWay run has.0 i)

begins-IsAhead :
    (k from start : ℕ) (e c done older : List BlockNumber) (alive : Bool)
    → Token start e c done alive
    → done ≡ from ∷ older
    → IsAhead k from (length done) e c done
begins-IsAhead k from start e c done older alive (Order.at_executor n q r f) d =
    at_executor n q r (ground (arith, rw d at f))
begins-IsAhead k from start e c done older alive (Order.at_comparer n q r f) d =
    at_comparer n q r (ground (arith, rw d at f)) (ground (arith, rw d at f))
begins-IsAhead k from start e c done older alive (Order.nowhere q r dead) d =
    nowhere q r (ground (arith, d))

newest-done :
    (start k : ℕ) (done : List BlockNumber)
    → IsWalk start done
    → 1 ≤ length done
    → start ≤ k
    → k ≤ newest done
    → elem k done ≡ true
newest-done start k [] w some_done lo hi = absurd (omega (arith, some_done))
newest-done start k (n ∷ older) w some_done lo hi = no_gaps start n older k w lo hi

-- Let the executor have been through `from` last, and let the backend's best number be `k` or more from then
-- on. Whatever the tasks do, in whatever order, the executor has been through `k` once it has taken
-- `k + 1 - from` more turns.
pub executor_reaches :
    {J : Type 0} {start best : BlockNumber} {notifier : Notifier J} {s t : System J}
    (from k : BlockNumber) (older : List BlockNumber)
    → Reach (init start best notifier) s
    → s.done ≡ from ∷ older
    → start ≤ k
    → (run : Reach s t) → Always (λ u. k ≤ u.best) run
    → length s.done + k + 1 ≤ from + length t.done
    → elem k t.done ≡ true
executor_reaches {J} {start} {s = s} {t = t} from k older r d lo run has turns =
    let i = Reach-IsOrdered r in
    let at_s : IsOnWay start k from (length s.done) s = record {
      ordered = i;
      ahead = begins-IsAhead k from start _ _ s.done older _ i.token d;
      some_done = rw d (omega arith);
    } in
    let at_t = Reach-IsOnWay run has at_s in
    newest-done start k t.done at_t.ordered.walk at_t.some_done lo (
      IsAhead-reached
        (λ p q.
          Follows-le-newest start p t.done (under_way start p [] t at_t.ordered q) at_t.some_done)
        turns at_t.ahead)
