-- ===== src/Pipeline/Turns.antt =====
-- The states and the turns of the executor in a run of the tasks.
use sub_archive.Prelude.{
  List, ◌∷◌, returned, panicked, ◌≡◌, ◌⊎◌, inr, Bool, true, false, All, All-append,
}
use sub_archive.Chain.{BlockNumber}
use sub_archive.Executor.Block.{BlockExecutor}
use sub_archive.Executor.Archive.{Sent, archive}
use sub_archive.Pipeline.System.{heard, System, Step, execute, execute_panic, Reach, here, next}

-- In the run, the executor took the number `n`, with what its backends then answered.
pub data IsTurnAt {J : Type 0} {begun : System J} (S : Type 0) (x : BlockExecutor S J)
    (n : BlockNumber) : (t : System J) → Reach begun t → Type 1 where
  newest :
      {t : System J} (r : Reach begun t) (rest : List BlockNumber) (a : Sent J)
      (alive : t.executor_alive ≡ true) (q : t.executor_queue ≡ n ∷ rest)
      (e : archive x n t.versions ≡ (returned tt, a))
      → IsTurnAt S x n _ (next r (execute S x n rest a alive q e))
  newest_panic :
      {t : System J} (r : Reach begun t) (rest : List BlockNumber) (a : Sent J)
      (alive : t.executor_alive ≡ true) (q : t.executor_queue ≡ n ∷ rest)
      (e : archive x n t.versions ≡ (panicked, a))
      → IsTurnAt S x n _ (next r (execute_panic S x n rest a alive q e))
  earlier :
      {t u : System J} (r : Reach begun t) (st : Step t u)
      → IsTurnAt S x n t r
      → IsTurnAt S x n u (next r st)

abbrev pub IsTurn :
    {J : Type 0} (S : Type 0)
    → BlockExecutor S J
    → BlockNumber
    → {begun t : System J} → Reach begun t
    → Type 1
IsTurn S x n {t = t} run = IsTurnAt S x n t run

module _ {J : Type 0} (P : System J → Type 0) where
  -- `P` holds in some state of the run, and in each of them.
  abbrev pub Ever : {begun t : System J} → Reach begun t → Type 0
  Ever {begun} here = P begun
  Ever (next {t} {u} run st) = Ever run ⊎ P u

  abbrev pub Always : {begun t : System J} → Reach begun t → Type 0
  Always {begun} here = P begun
  Always (next {t} {u} run st) = Always run × P u

  pub Ever-now : {begun t : System J} (run : Reach begun t) → P t → Ever run
  Ever-now here h = h
  Ever-now (next run st) h = inr h

  pub Always-now : {begun t : System J} (run : Reach begun t) → Always run → P t
  Always-now here h = h
  Always-now (next run st) h = h.1

-- What holds of a queue and of what is sent holds of the queue after it.
pub All-heard {ℓ κ} :
    {A : Type ℓ} (P : A → Type κ) (alive : Bool) (queue msgs : List A)
    → All P queue
    → All P msgs
    → All P (heard alive queue msgs)
All-heard P true queue msgs h g = All-append P queue msgs h g
All-heard P false queue msgs h g = h
