-- ===== src/Client/RootRecord.antt =====
-- The roots that the recorder of a proof keeps.
use sub_archive.Prelude.{
  ℕ, List, [], ◌∷◌, ◌++◌, Option, none, some, Result, ok, err, ltb, nat_beq, nat_eq, nat_beq_iff,
  if◌then◌else◌, ◌≡◌, inl, inr, refl, arith, Result-cases, ◌∙◌,
}
use mathlib.Core.List.{append_assoc, append-nil}
use sub_archive.Prelude.Assoc.{lookup}
use sub_archive.Chain.{Bytes, Hash, BlockNumber, ChainError}
use sub_archive.Client.ChangesTrie.{Active, Query}
use sub_archive.Client.Proofs.{
  Access, done, ask_root, ProofStorage, btree_insert, recorded, with_recorder, prove_each, extended,
}

-- The roots that a computation is answered, the latest first; and its value, without a recorder.
abbrev pub Root : Type 0
Root = BlockNumber × Hash → BlockNumber → Option (Option Hash)

abbrev pub seen_next :
    BlockNumber → Option (Option Hash) → List (BlockNumber × Hash) → List (BlockNumber × Hash)
seen_next block (some (some h)) seen = (block, h) ∷ seen
seen_next block (some none) seen = seen
seen_next block none seen = seen

unfoldable pub answered :
    {A : Type 0} → Root → Access A → List (BlockNumber × Hash) → List (BlockNumber × Hash)
answered root (done r) seen = seen
answered root (ask_root anchor block continue) seen =
    answered root (continue (root anchor block)) (seen_next block (root anchor block) seen)

unfoldable pub value : {A : Type 0} → Root → Access A → Option A
value root (done r) = r
value root (ask_root anchor block continue) = value root (continue (root anchor block))

-- The same over the configurations.
unfoldable pub values :
    ProofStorage → (Active → Result ChainError Query) → List Active → Option (List Bytes)
values s ask [] = some []
values s ask (c ∷ configs) =
    let later = values s ask configs in
    elim (ask c) [
      | err e ↦ none
      | ok query ↦ elim (value s.root (s.key_changes_proof_in query)) [
        | none ↦ none
        | some proof ↦ elim later [ none ↦ none | some rest ↦ some (proof ++ rest) ]
      ]
    ]

unfoldable pub answered_each :
    ProofStorage
    → (Active → Result ChainError Query)
    → List Active
    → List (BlockNumber × Hash)
    → List (BlockNumber × Hash)
answered_each s ask [] seen = seen
answered_each s ask (c ∷ configs) seen =
    answered_each s ask configs (elim (ask c) [
      | err e ↦ seen
      | ok query ↦ answered s.root (s.key_changes_proof_in query) seen
    ])

lookup-btree_insert :
    {V : Type 0} (k : ℕ) (v : V) (m : List (ℕ × V)) (j : ℕ)
    → lookup j (btree_insert k v m) ≡ (if nat_beq k j then some v else lookup j m)
unfolding lookup btree_insert
lookup-btree_insert k v [] j = refl
lookup-btree_insert k v ((i, w) ∷ m) j = ground (arith, lookup-btree_insert k v m j)

-- The recorded roots are the latest answers for the blocks below `min`.
abbrev pub IsRecord : BlockNumber → List (BlockNumber × Hash) → List (BlockNumber × Hash) → Type 0
IsRecord min seen roots =
    (k : BlockNumber) → lookup k roots ≡ (if ltb k min then lookup k seen else none)

pub nothing_recorded : (min : BlockNumber) → IsRecord min [] []
unfolding lookup
nothing_recorded min k = ground arith

recorded-IsRecord :
    (min block : BlockNumber) (answer : Option (Option Hash))
    (seen roots : List (BlockNumber × Hash))
    → IsRecord min seen roots
    → IsRecord min (seen_next block answer seen) (recorded min block answer roots)
unfolding lookup
recorded-IsRecord min block (some (some h)) seen roots i k =
    ground (arith, i k, lookup-btree_insert block h roots k, nat_beq_iff block k)
recorded-IsRecord min block (some none) seen roots i k = i k
recorded-IsRecord min block none seen roots i k = i k

with_recorder-IsRecord :
    {A : Type 0} (root : Root) (min : BlockNumber) (p : Access A)
    (seen roots : List (BlockNumber × Hash))
    → IsRecord min seen roots
    → ((with_recorder root min p roots).0 ≡ value root p)
      × IsRecord min (answered root p seen) (with_recorder root min p roots).1
unfolding answered with_recorder value
with_recorder-IsRecord root min (done r) seen roots i = (refl, i)
with_recorder-IsRecord root min (ask_root anchor block continue) seen roots i =
    with_recorder-IsRecord root min (continue (root anchor block))
      (seen_next block (root anchor block) seen) (recorded min block (root anchor block) roots)
      (recorded-IsRecord min block (root anchor block) seen roots i)

-- One configuration.
extended-cases :
    (proof out : List Bytes) (step : Option (List Bytes) × List (BlockNumber × Hash))
    (roots : List (BlockNumber × Hash))
    (more : List Bytes
      → List (BlockNumber × Hash)
      → Result ChainError (List Bytes × List (BlockNumber × Hash)))
    → extended proof step more ≡ ok (out, roots)
    → (range : List Bytes) × ((step.0 ≡ some range)
        × (more (proof ++ range) step.1 ≡ ok (out, roots)))
extended-cases proof out (none, kept) roots more e = absurd (ground (arith, e))
extended-cases proof out (some range, kept) roots more e = (range, (refl, e))

pub prove_each-IsRecord :
    (s : ProofStorage) (min : BlockNumber) (ask : Active → Result ChainError Query)
    (configs : List Active) (proof out : List Bytes) (roots roots' seen : List (BlockNumber × Hash))
    → IsRecord min seen roots
    → prove_each s min ask configs proof roots ≡ ok (out, roots')
    → (rest : List Bytes) × ((values s ask configs ≡ some rest)
        × (out ≡ proof ++ rest)
        × IsRecord min (answered_each s ask configs seen) roots')
unfolding prove_each values answered_each
prove_each-IsRecord s min ask [] proof out roots roots' seen i e =
    ([], (refl, ground (arith, e, append-nil proof), λ k. ground (arith, e, i k)))
prove_each-IsRecord s min ask (c ∷ configs) proof out roots roots' seen i e =
    elim (Result-cases (ask c)) [
      | inr (x, q) ↦ absurd (ground (arith, q, e))
      | inl (query, q) ↦
          let p = s.key_changes_proof_in query in
          let (range, (got, more)) =
            extended-cases proof out (with_recorder s.root min p roots) roots'
              (prove_each s min ask configs) (ground (arith, q, e)) in
          let (same, kept) = with_recorder-IsRecord s.root min p seen roots i in
          let (rest, (found, out_is, record')) =
            prove_each-IsRecord s min ask configs (proof ++ range) out
              (with_recorder s.root min p roots).1 roots' (answered s.root p seen) kept more in
          (
            range ++ rest,
            (
              ground (arith, q, same, got, found),
              out_is ∙ append_assoc proof range rest,
              rw q record',
            ),
          )
    ]
