-- ===== src/Pipeline/Walk.antt =====
-- Histories of block numbers, the newest first, that grow by the same number or the next one.
use sub_archive.Prelude.{
  ℕ, ◌+◌, ◌≤◌, List, [], ◌∷◌, true, ◌≡◌, ◌⊎◌, inl, inr, arith, elem, nat_beq, Bool-cases, leb,
  leb→le, nat_beq_iff, false,
}

-- `n` may come next in the history.
abbrev pub Follows : ℕ → ℕ → List ℕ → Type 0
Follows start n [] = n ≡ start
Follows start n (last ∷ older) = (n ≡ last) ⊎ (n ≡ last + 1)

abbrev pub IsWalk : ℕ → List ℕ → Type 0
IsWalk start [] = Unit
IsWalk start (n ∷ older) = Follows start n older × IsWalk start older

Follows-bounds :
    (start n last : ℕ) (older : List ℕ)
    → Follows start n (last ∷ older)
    → (last ≤ n) × (n ≤ last + 1)
Follows-bounds start n last older h = omega arith

elem_tail : (k n : ℕ) (older : List ℕ) → elem k older ≡ true → elem k (n ∷ older) ≡ true
elem_tail k n older h = rw h (ground arith)

elem_head : (k n : ℕ) (older : List ℕ) → k ≡ n → elem k (n ∷ older) ≡ true
elem_head k n older e = rw ((nat_beq_iff k n).1 e) (ground arith)

above_last : (k n last : ℕ) → leb k last ≡ false → k ≤ n → n ≤ last + 1 → k ≡ n
above_last k n last h hi hi' = ground arith

-- A walk leaves no number out between its start and its newest number.
pub no_gaps :
    (start n : ℕ) (older : List ℕ) (k : ℕ)
    → IsWalk start (n ∷ older)
    → start ≤ k
    → k ≤ n
    → elem k (n ∷ older) ≡ true
no_gaps start n [] k w lo hi = ground arith
no_gaps start n (last ∷ older) k w lo hi = elim (Bool-cases (leb k last)) [
  | inl earlier ↦
      elem_tail k n (last ∷ older) (no_gaps start last older k w.1 lo (leb→le k last earlier))
  | inr newest ↦
      let (_, hi') = Follows-bounds start n last older w.0 in
      elem_head k n (last ∷ older) (above_last k n last newest hi hi')
]

start-le : (start n : ℕ) (older : List ℕ) → IsWalk start (n ∷ older) → start ≤ n
start-le start n [] w = omega arith
start-le start n (last ∷ older) w =
    omega (arith, Follows-bounds start n last older w.0, start-le start last older w.1)

-- A walk never goes below its start.
pub walk-ge : (start k : ℕ) (h : List ℕ) → IsWalk start h → elem k h ≡ true → start ≤ k
walk-ge start k [] w m = absurd (ground arith)
walk-ge start k (n ∷ older) w m = elim (Bool-cases (nat_beq k n)) [
  | inl same ↦ rw ((nat_beq_iff k n).0 same) (start-le start n older w)
  | inr differs ↦ walk-ge start k older w.1 (ground (arith, differs))
]
