-- ===== src/Kafka/Key.antt =====
-- `to_string` of a `u32`: the key under which the producer files a message.
use sub_archive.Prelude.{
  ℕ, zero, suc, ◌+◌, ◌-◌, ◌*◌, ◌/◌, ◌%◌, ◌^◌, ◌<◌, ◌≡◌, refl, [], ◌∷◌, ◌++◌, arith, ltb,
  if◌then◌else◌, Bool-cases, inl, inr,
}
use native.Mathlib.Nat.{pow-suc}
use sub_archive.Chain.{Bytes}

-- The decimal digits of `n`, at most `fuel` of them, as ASCII.
decimal : ℕ → ℕ → Bytes
decimal zero n = []
decimal (suc fuel) n =
    let rest = decimal fuel (n / 10) ++ (48 + n % 10) ∷ [] in
    if ltb n 10 then (48 + n) ∷ [] else rest

-- A `u32` has at most ten digits.
unfoldable pub to_string : ℕ → Bytes
unfolding decimal
to_string n = decimal 10 n

-- The number that a text of digits denotes.
unfoldable pub from_digits : ℕ → Bytes → ℕ
from_digits acc [] = acc
from_digits acc (c ∷ rest) = from_digits (acc * 10 + (c - 48)) rest

from_digits-append :
    (acc : ℕ) (xs : Bytes) (c : ℕ)
    → from_digits acc (xs ++ c ∷ []) ≡ from_digits acc xs * 10 + (c - 48)
unfolding from_digits
from_digits-append acc [] c = refl
from_digits-append acc (x ∷ xs) c = from_digits-append (acc * 10 + (x - 48)) xs c

from_digits-decimal : (fuel n : ℕ) → n < 10 ^ fuel → from_digits 0 (decimal fuel n) ≡ n
unfolding decimal from_digits
from_digits-decimal zero n h = omega arith
from_digits-decimal (suc fuel) n h = elim (Bool-cases (ltb n 10)) [
  | inl small ↦ rw small (omega arith)
  | inr large ↦ rw large (
      omega (
        arith,
        from_digits-append 0 (decimal fuel (n / 10)) (48 + n % 10),
        from_digits-decimal fuel (n / 10) (omega (arith, pow-suc 10 fuel)),
      ))
]

-- The key of a message determines its number: read as a decimal number, the text of a `u32` is that
-- number again.
pub from_digits-to_string : (n : ℕ) → n < 2 ^ 32 → from_digits 0 (to_string n) ≡ n
unfolding to_string
from_digits-to_string n h = from_digits-decimal 10 n (omega arith)
