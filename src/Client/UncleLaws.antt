-- ===== src/Client/UncleLaws.antt =====
-- What `uncles` answers: children of the block's ancestors that are not on its own line.
use sub_archive.Prelude.{
  ℕ, zero, suc, List, [], ◌∷◌, ◌++◌, some, true, false, Result, ok, ◌≡◌, refl, arith, nat_beq,
  nat_beq_iff, inl, inr, elem, Result-cases, Bool-cases, All, All-append,
}
use std.Path.{subst}
use sub_archive.Chain.{Hash, Header, hash, ChainError}
use sub_archive.Client.Backend.{Blockchain}
use sub_archive.Client.Uncles.{others, load_header, collect_uncles, uncles}

-- `h` is the block `target` or an ancestor of it, by the headers of the blockchain.
pub data IsOnLine (chain : Blockchain) (target : Hash) : Hash → Type 0 where
  itself : IsOnLine chain target target
  parent :
      (h : Hash) (header : Header)
      → IsOnLine chain target h
      → chain.header (hash h) ≡ ok (some header)
      → IsOnLine chain target header.parent_hash

-- A child of the parent of a block on the line, and not that block.
pub record IsUncle (chain : Blockchain) (target uncle : Hash) : Type 0 where
  pub on_line : Hash
  pub header : Header
  pub siblings : List Hash
  pub line : IsOnLine chain target on_line
  pub known : chain.header (hash on_line) ≡ ok (some header)
  pub children : chain.children header.parent_hash ≡ ok siblings
  pub listed : elem uncle siblings ≡ true
  pub differs : nat_beq uncle on_line ≡ false

ok-injective :
    (r : Result ChainError (List Hash)) (xs ys : List Hash) → r ≡ ok xs → r ≡ ok ys → xs ≡ ys
ok-injective r xs ys e e' = ground (arith, e, e')

module _ (chain : Blockchain) where
  load_header-ok :
      (h : Hash) (header : Header)
      → load_header chain h ≡ ok header
      → chain.header (hash h) ≡ ok (some header)
  unfolding load_header
  load_header-ok h header e = ground arith

  others-All :
      (target h : Hash) (header : Header) (siblings rest : List Hash)
      → IsOnLine chain target h
      → chain.header (hash h) ≡ ok (some header)
      → chain.children header.parent_hash ≡ ok siblings
      → ((u : Hash) → elem u rest ≡ true → elem u siblings ≡ true)
      → All (IsUncle chain target) (others h rest)
  others-All target h header siblings [] line known children sub = tt
  others-All target h header siblings (u ∷ rest) line known children sub =
      elim (Bool-cases (nat_beq u h)) [
        | inl same ↦ rw same (
            others-All target h header siblings rest line known children
              (λ v i. sub v (ground (arith, i))))
        | inr other ↦ rw other (
          record {
            on_line = h;
            header = header;
            siblings = siblings;
            line = line;
            known = known;
            children = children;
            listed = sub u (ground (arith, nat_beq_iff u u));
            differs = other;
          },
          others-All target h header siblings rest line known children
              (λ v i. sub v (ground (arith, i))),
        )
      ]

  collect_uncles-All :
      (n : ℕ) (target h : Hash) (header ancestor : Header) (before result : List Hash)
      → IsOnLine chain target h
      → chain.header (hash h) ≡ ok (some header)
      → chain.header (hash header.parent_hash) ≡ ok (some ancestor)
      → All (IsUncle chain target) before
      → collect_uncles chain n h header.parent_hash ancestor before ≡ ok result
      → All (IsUncle chain target) result
  unfolding collect_uncles
  collect_uncles-All zero target h header ancestor before result line known above all e =
      subst (All (IsUncle chain target)) (ok-injective _ before result refl e) all
  collect_uncles-All (suc n) target h header ancestor before result line known above all e =
      elim (Result-cases (chain.children header.parent_hash)) [
        | inr (x, q) ↦ absurd (ground (arith, q, e))
        | inl (siblings, q) ↦
            let more =
              All-append (IsUncle chain target) before (others h siblings) all
                (others-All target h header siblings siblings line known q (λ u i. i)) in
            elim (Bool-cases (nat_beq chain.info.genesis_hash header.parent_hash)) [
              | inl first ↦
                  subst (All (IsUncle chain target))
                    (ok-injective _ (before ++ others h siblings) result (ground (arith, q, first))
                      e)
                    more
              | inr above_first ↦ elim (Result-cases (load_header chain ancestor.parent_hash)) [
                | inr (x, q') ↦ absurd (ground (arith, q, q', e, above_first))
                | inl (next, q') ↦
                    collect_uncles-All n target header.parent_hash ancestor next
                      (before ++ others h siblings) result (parent h header line known) above
                      (load_header-ok ancestor.parent_hash next q') more
                      (ground (arith, q, q', e, above_first))
              ]
            ]
      ]

  -- Every block that `uncles` answers is a child of the parent of the block or of one of its
  -- ancestors, and is not that block or ancestor itself.
  pub uncles-All :
      (target : Hash) (generations : ℕ) (result : List Hash)
      → uncles chain target generations ≡ ok result
      → All (IsUncle chain target) result
  unfolding uncles
  uncles-All target generations result e =
      elim (Bool-cases (nat_beq chain.info.genesis_hash target)) [
        | inl first ↦
            subst (All (IsUncle chain target)) (ok-injective _ [] result (ground (arith, first)) e)
              tt
        | inr other ↦ elim (Result-cases (load_header chain target)) [
          | inr (x, q) ↦ absurd (ground (arith, q, e, other))
          | inl (current, q) ↦ elim (Result-cases (load_header chain current.parent_hash)) [
            | inr (x, q') ↦ absurd (ground (arith, q, q', e, other))
            | inl (ancestor, q') ↦
                collect_uncles-All generations target target current ancestor [] result itself
                  (load_header-ok target current q) (load_header-ok current.parent_hash ancestor q')
                  tt (ground (arith, q, q', e, other))
          ]
        ]
      ]
