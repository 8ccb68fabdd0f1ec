-- ===== src/Pipeline/Ahead.antt =====
-- How far the executor is ahead of the turns it has taken, for the progress of the tasks.
use sub_archive.Prelude.{
  false, true, Bool, ℕ, ◌+◌, ◌≤◌, List, [], ◌∷◌, ◌++◌, ◌≡◌, arith, inl, inr, Bool-cases, leb,
  length, refl,
}
use sub_archive.Chain.{BlockNumber}
use sub_archive.Pipeline.Comparer.{compare}
use sub_archive.Pipeline.System.{heard}
use sub_archive.Pipeline.Walk.{Follows}

-- The number that the executor has been through last.
abbrev pub newest : List BlockNumber → BlockNumber
newest [] = 0
newest (n ∷ older) = n

-- From a state with `before` turns of the executor and the newest number `from`: either `k` is
-- reached, or each further turn has brought the executor one number on. `e` and `c` are the queues.
pub data IsAhead (k from before : ℕ) (e c done : List BlockNumber) : Type 0 where
  reached : k ≤ newest done → IsAhead k from before e c done
  at_executor :
      (p : BlockNumber)
      → e ≡ p ∷ []
      → c ≡ []
      → from + length done ≤ before + p
      → IsAhead k from before e c done
  at_comparer :
      (n : BlockNumber)
      → e ≡ []
      → c ≡ n ∷ []
      → n ≡ newest done
      → from + length done ≤ before + n + 1
      → IsAhead k from before e c done
  nowhere :
      e ≡ []
      → c ≡ []
      → from + length done ≤ before + newest done + 1
      → IsAhead k from before e c done

newest-le-Follows :
    (start n : BlockNumber) (done : List BlockNumber) → Follows start n done → newest done ≤ n
newest-le-Follows start n [] f = omega arith
newest-le-Follows start n (m ∷ older) f = ground arith

pub Follows-le-newest :
    (start n : BlockNumber) (done : List BlockNumber)
    → Follows start n done
    → 1 ≤ length done
    → n ≤ newest done + 1
Follows-le-newest start n [] f some_done = absurd (omega (arith, some_done))
Follows-le-newest start n (m ∷ older) f some_done = ground arith

module _ {k from before : ℕ} {e c done : List BlockNumber} where
  pub IsAhead-execute :
      (start n : BlockNumber) (rest to_comparer : List BlockNumber)
      → e ≡ n ∷ rest
      → to_comparer ≡ n ∷ []
      → Follows start n done
      → IsAhead k from before e c done
      → IsAhead k from before rest (c ++ to_comparer) (n ∷ done)
  IsAhead-execute start n rest to q t f (reached h) =
      reached (omega (arith, newest-le-Follows start n done f, h))
  IsAhead-execute start n rest to q t f (at_executor p q' r h) =
      at_comparer n (ground arith) (ground arith) refl (ground arith)
  IsAhead-execute start n rest to q t f (at_comparer m q' r same h) = absurd (ground arith)
  IsAhead-execute start n rest to q t f (nowhere q' r h) = absurd (ground arith)

  pub IsAhead-panic :
      (n : BlockNumber) (rest : List BlockNumber)
      → e ≡ n ∷ rest
      → n ≤ newest done + 1
      → IsAhead k from before e c done
      → IsAhead k from before [] c done
  IsAhead-panic n rest q le (reached h) = reached h
  IsAhead-panic n rest q le (at_executor p q' r h) = nowhere refl r (ground arith)
  IsAhead-panic n rest q le (at_comparer m q' r same h) = absurd (ground arith)
  IsAhead-panic n rest q le (nowhere q' r h) = absurd (ground arith)

  pub IsAhead-compare :
      (n best : BlockNumber) (rest : List BlockNumber) (alive : Bool)
      → c ≡ n ∷ rest
      → k ≤ best
      → IsAhead k from before e c done
      → IsAhead k from before (heard alive e (compare n best ∷ [])) rest done
  unfolding compare
  IsAhead-compare n best rest alive q le (reached h) = reached h
  IsAhead-compare n best rest alive q le (at_executor p q' r h) = absurd (ground arith)
  IsAhead-compare n best rest false q le (at_comparer m q' r same h) =
      nowhere q' (ground arith) (ground (arith, same, h))
  IsAhead-compare n best rest true q le (at_comparer m q' r same h) = elim (Bool-cases (leb k m)) [
    | inl there ↦ reached (ground (arith, there))
    | inr below ↦ at_executor (compare n best) (ground arith) (ground arith) (ground (arith, below))
  ]
  IsAhead-compare n best rest alive q le (nowhere q' r h) = absurd (ground arith)

  -- After that many turns `k` is reached.
  pub IsAhead-reached :
      ((p : BlockNumber) → e ≡ p ∷ [] → p ≤ newest done + 1)
      → before + k + 1 ≤ from + length done
      → IsAhead k from before e c done
      → k ≤ newest done
  IsAhead-reached bound turns (reached h) = h
  IsAhead-reached bound turns (at_executor p q r h) = omega (arith, bound p q, turns, h)
  IsAhead-reached bound turns (at_comparer n q r same h) = ground (arith, turns, h, same)
  IsAhead-reached bound turns (nowhere q r h) = omega (arith, turns, h)
