-- ===== src/Postgres/MaxBlock.antt =====
-- `max_block_num` is the greatest stored number: no row is missed, and the cast from `i32` loses
-- nothing.
use sub_archive.Prelude.{
  ◌↔◌, ℕ, List, [], ◌∷◌, Option, none, some, true, ◌≡◌, refl, arith, All, Option-cases, inl, inr,
  ◌<◌,
}
use sub_archive.Prelude.Int.{ℤ, pos, int_eq, int_beq_iff, leb_ℤ}
use sub_archive.Prelude.Assoc.{lookup, contains_key}
use sub_archive.Postgres.Tables.{
  MetadataRow, BlockRow, Tables, IsBlockRow, IsConsistent, has_partition,
}
use sub_archive.Postgres.Statements.{max_column, select_max, max_with}

le_max_with : (a : ℤ) (o : Option ℤ) → leb_ℤ a (max_with a o) ≡ true
le_max_with a o = ground arith

le_max_with-some : (a b : ℤ) → leb_ℤ b (max_with a (some b)) ≡ true
le_max_with-some a b = ground arith

leb_ℤ_trans : (a b c : ℤ) → leb_ℤ a b ≡ true → leb_ℤ b c ≡ true → leb_ℤ a c ≡ true
leb_ℤ_trans a b c h k = ground arith

module _ {J : Type 0} where
  max_column-none : (rows : List (ℤ × BlockRow J)) → max_column rows ≡ none → rows ≡ []
  unfolding max_column
  max_column-none [] e = refl
  max_column-none (p ∷ rows) e = absurd (ground arith)

  max_column-le :
      (metadatas : List (ℤ × MetadataRow)) (rows : List (ℤ × BlockRow J)) (n k : ℤ)
      → All (IsBlockRow metadatas) rows
      → max_column rows ≡ some n
      → contains_key k rows ≡ true
      → leb_ℤ k n ≡ true
  unfolding max_column lookup
  max_column-le metadatas [] n k h e c = absurd (ground arith)
  max_column-le metadatas ((j, row) ∷ rows) n k h e c = elim (Option-cases (max_column rows)) [
    | inl empty ↦ ground (arith, empty, max_column-none rows empty, int_beq_iff j k, h.0.own_key)
    | inr (m, e') ↦ ground (
      arith,
      e',
      max_column-le metadatas rows m k h.1 e',
      int_beq_iff j k,
      h.0.own_key,
      le_max_with row.block_num (some m),
      le_max_with-some row.block_num m,
      leb_ℤ_trans k m n,
    )
  ]

  max_column-stored :
      (metadatas : List (ℤ × MetadataRow)) (rows : List (ℤ × BlockRow J)) (n : ℤ)
      → All (IsBlockRow metadatas) rows
      → max_column rows ≡ some n
      → (contains_key n rows ≡ true) × (has_partition n ≡ true)
  unfolding max_column lookup
  max_column-stored metadatas [] n h e = absurd (ground arith)
  max_column-stored metadatas ((j, row) ∷ rows) n h e = elim (Option-cases (max_column rows)) [
    | inl empty ↦ ground (arith, empty, int_beq_iff j n, h.0.own_key, h.0.stored_in)
    | inr (m, e') ↦ ground (
      arith,
      e',
      max_column-stored metadatas rows m h.1 e',
      int_beq_iff j n,
      h.0.own_key,
      h.0.stored_in,
    )
  ]

  -- On tables that meet their constraints, the number that MAX yields as a `u32` is stored, and no
  -- stored number is greater.
  pub select_max-IsMax :
      (t : Tables J) (n : ℕ) (k : ℤ)
      → IsConsistent t
      → select_max t ≡ some n
      → contains_key k t.blocks ≡ true
      → (contains_key (pos n) t.blocks ≡ true) × (leb_ℤ k (pos n) ≡ true) × (n < 10000000)
  unfolding select_max
  select_max-IsMax t n k c e s = elim (Option-cases (max_column t.blocks)) [
    | inl empty ↦ absurd (ground (arith, empty))
    | inr (m, e') ↦ ground (
      arith,
      e',
      max_column-stored t.metadatas t.blocks m c.block_rows e',
      max_column-le t.metadatas t.blocks m k c.block_rows e' s,
    )
  ]

  -- `max_block_num` is `None` exactly when no block is stored.
  pub select_max-none : (t : Tables J) → (select_max t ≡ none) ↔ (t.blocks ≡ [])
  unfolding select_max max_column
  select_max-none t = (λ e. max_column-none t.blocks (ground arith), λ e. rw e)
