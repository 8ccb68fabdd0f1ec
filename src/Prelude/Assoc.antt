-- ===== src/Prelude/Assoc.antt =====
-- Rust's `HashMap` and the rows of a keyed table, as association lists with one entry for a key.
use mathlib.Core.Path.{◌≡◌, refl}
use mathlib.Core.Bool.{Bool, true, false, ◌||◌}
use mathlib.Core.Option.{Option, none, some}
use mathlib.Core.List.{List, [], ◌∷◌}
use native.Mathlib.Omega.{arith}
use sub_archive.Prelude.Lists.{All}
use sub_archive.Prelude.Tests.{PartialEq, ◌==◌, if◌then◌else◌}

abbrev pub is_some {ℓ} : {A : Type ℓ} → Option A → Bool
is_some none = false
is_some (some a) = true

module _ {ℓ} {K V : Type ℓ} ⦃e : PartialEq K⦄ where
  unfoldable pub lookup : K → List (K × V) → Option V
  lookup key [] = none
  lookup key ((k, v) ∷ rest) = if k == key then some v else lookup key rest

  -- `HashMap::insert`: a value that stands at the key is replaced.
  unfoldable pub insert : K → V → List (K × V) → List (K × V)
  insert key new [] = (key, new) ∷ []
  insert key new ((k, v) ∷ rest) =
      if k == key then (key, new) ∷ rest else (k, v) ∷ insert key new rest

  abbrev pub contains_key : K → List (K × V) → Bool
  contains_key k m = is_some (lookup k m)

  -- No key stands twice.
  abbrev pub IsKeyed : List (K × V) → Type 0
  IsKeyed [] = Unit
  IsKeyed ((k, v) ∷ m) = (contains_key k m ≡ false) × IsKeyed m

  pub lookup-insert :
      (k key : K) (new : V) (m : List (K × V))
      → lookup key (insert k new m) ≡ (if k == key then some new else lookup key m)
  unfolding lookup insert
  lookup-insert k key new [] = refl
  lookup-insert k key new ((j, old) ∷ m) =
      ground (arith, e.eq_iff k key, e.eq_iff j k, e.eq_iff j key, lookup-insert k key new m)

  pub contains_key-insert :
      (k j : K) (v : V) (m : List (K × V))
      → contains_key j (insert k v m) ≡ (k == j || contains_key j m)
  contains_key-insert k j v m = ground (arith, lookup-insert k j v m)

  pub insert-insert : (k : K) (v : V) (m : List (K × V)) → insert k v (insert k v m) ≡ insert k v m
  unfolding insert
  insert-insert k v [] = ground (arith, e.eq_iff k k)
  insert-insert k v ((i, w) ∷ m) = ground (arith, e.eq_iff k k, e.eq_iff i k, insert-insert k v m)

  pub insert-IsKeyed : (k : K) (v : V) (m : List (K × V)) → IsKeyed m → IsKeyed (insert k v m)
  unfolding insert lookup
  insert-IsKeyed k v [] h = (refl, tt)
  insert-IsKeyed k v ((i, w) ∷ m) h =
      ground (arith, e.eq_iff i k, e.eq_iff k i, insert-IsKeyed k v m, contains_key-insert k i v m)

  pub insert-All :
      (P : K × V → Type 0) (k : K) (v : V) (m : List (K × V))
      → All P m
      → P (k, v)
      → All P (insert k v m)
  unfolding insert
  insert-All P k v [] h p = (p, tt)
  insert-All P k v ((i, w) ∷ m) h p = ground (arith, insert-All P k v m)

  pub lookup-All :
      (P : K × V → Type 0) (k : K) (v : V) (m : List (K × V))
      → All P m
      → lookup k m ≡ some v
      → P (k, v)
  unfolding lookup
  lookup-All P k v [] h q = absurd (ground arith)
  lookup-All P k v ((i, w) ∷ m) h q = ground (arith, e.eq_iff i k, lookup-All P k v m h.1)
