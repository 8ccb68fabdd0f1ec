-- ===== src/Client/KeyChanges.antt =====
-- What the queries of the changes tries answer: the changes of a key, and the range in which they can be
-- found.
use sub_archive.Prelude.{
  ℕ, Bool-cases, ltb, ◌≤◌, ◌<◌, ◌+◌, sym, List, [], ◌∷◌, ◌++◌, Option, none, some, true, ok, err,
  ◌≡◌, ◌⊎◌, inl, inr, refl, arith, Result-cases, Option-cases, ◌∙◌,
}
use std.Path.{subst}
use mathlib.Core.List.{append_assoc, append-nil}
use sub_archive.Chain.{Bytes, Hash, BlockNumber, BlockId}
use sub_archive.Client.Backend.{Blockchain}
use sub_archive.Client.ChangesTrie.{
  Active, Query, TrieStorage, expect_block_number_from_id, expect_block_hash_from_id, descend,
  require_changes_trie, max_key_changes_range, key_changes, key_changes_each, query, last_config,
  max,
}
use sub_archive.Client.TrieLaws.{GoesBack, IsWalk, descend-Ends, descend-lenient, IsWalk-last}

-- The block that a configuration is read on, for the blocks up to `n`, of the hash `h`: its own last one,
-- where it ended before `n`, and else that block.
pub data IsAnchor (n : BlockNumber) (h : Hash) (c : Active) (anchor : BlockNumber × Hash)
    : Type 0 where
  ended_before :
      (end_number : BlockNumber) (end_hash : Hash)
      → c.end ≡ some (end_number, end_hash)
      → end_number < n
      → anchor ≡ (end_number, end_hash)
      → IsAnchor n h c anchor
  ended_later :
      (end_number : BlockNumber) (end_hash : Hash)
      → c.end ≡ some (end_number, end_hash)
      → n ≤ end_number
      → anchor ≡ (n, h)
      → IsAnchor n h c anchor
  lasts : c.end ≡ none → anchor ≡ (n, h) → IsAnchor n h c anchor

-- What is asked about one configuration: the blocks from `first` on that are after the one it began with.
pub record IsQuery (chain : Blockchain) (first n : BlockNumber) (h : Hash)
    (storage_key : Option Bytes) (key : Bytes) (c : Active) (q : Query) : Type 0 where
  pub asks : q.active ≡ c
  pub from_first : first ≤ q.range_first
  pub after_began : c.zero_number < q.range_first
  pub no_later : (q.range_first ≡ first) ⊎ (q.range_first ≡ c.zero_number + 1)
  pub anchored : IsAnchor n h c q.anchor
  pub best : q.best_number ≡ chain.info.best_number
  pub of_child : q.storage_key ≡ storage_key
  pub of_key : q.key ≡ key

module _ (chain : Blockchain) (first n : BlockNumber) (h : Hash) (storage_key : Option Bytes)
    (key : Bytes) where
  query-IsAnchor : (c : Active) → IsAnchor n h c (query chain first n h storage_key key c).anchor
  query-IsAnchor c = elim (Option-cases c.end) [
    | inl none_yet ↦ lasts none_yet (rw none_yet refl)
    | inr ((m, e), ends) ↦ elim (Bool-cases (ltb m n)) [
      | inl before ↦ ended_before m e ends (ground (arith, before)) (rw (ends, before) refl)
      | inr later ↦ ended_later m e ends (ground (arith, later)) (rw (ends, later) refl)
    ]
  ]

  query-IsQuery :
      (c : Active)
      → IsQuery chain first n h storage_key key c (query chain first n h storage_key key c)
  query-IsQuery c = record {
    asks = refl;
    from_first = ground arith;
    after_began = ground arith;
    no_later = ground arith;
    anchored = query-IsAnchor c;
    best = refl;
    of_child = refl;
    of_key = refl;
  }

-- The answers to such queries, one for each configuration, one after the other.
abbrev pub Answers :
    TrieStorage → (Active → Query → Type 0) → List Active → List (BlockNumber × ℕ) → Type 0
Answers storage asks [] out = out ≡ []
Answers storage asks (c ∷ configs) out =
    (q : Query) × ((found : List (BlockNumber × ℕ)) × ((rest : List (BlockNumber × ℕ)) × (asks c q
          × (storage.key_changes_in q ≡ some found)
          × Answers storage asks configs rest
          × (out ≡ found ++ rest))))

key_changes_each-Answers :
    (storage : TrieStorage) (asks : Active → Query → Type 0) (ask : Active → Query)
    (right : (c : Active) → asks c (ask c)) (configs : List Active)
    (result out : List (BlockNumber × ℕ))
    → key_changes_each storage ask configs result ≡ ok out
    → (rest : List (BlockNumber × ℕ)) × (Answers storage asks configs rest × (out ≡ result ++ rest))
unfolding key_changes_each
key_changes_each-Answers storage asks ask right [] result out e =
    ([], (refl, ground (arith, e, append-nil result)))
key_changes_each-Answers storage asks ask right (c ∷ configs) result out e =
    elim (Option-cases (storage.key_changes_in (ask c))) [
      | inl q ↦ absurd (ground (arith, q, e))
      | inr (found, q) ↦
          let (rest, (answers, out_is)) =
            key_changes_each-Answers storage asks ask right configs (result ++ found) out
              (ground (arith, q, e)) in
          (
            found ++ rest,
            (
              (ask c, (found, (rest, (right c, q, answers, refl)))),
              out_is ∙ append_assoc result found rest,
            ),
          )
    ]

module _ (chain : Blockchain) (storage : TrieStorage) where
  -- A success has read the header of the last block, and the changes of each configuration.
  key_changes-parts :
      (fuel : ℕ) (first : BlockNumber) (last : BlockId) (storage_key : Option Bytes) (key : Bytes)
      (out : List (BlockNumber × ℕ))
      → key_changes chain (some storage) fuel first last storage_key key ≡ some (ok out)
      → (n : BlockNumber) × ((h : Hash) × ((configs : List Active) × ((expect_block_number_from_id
                  chain last
                ≡ ok n)
              × (expect_block_hash_from_id chain last ≡ ok h)
              × (descend chain storage first true fuel h [] ≡ some (ok configs))
              × (key_changes_each storage (query chain first n h storage_key key) configs []
                  ≡ ok out))))
  unfolding key_changes require_changes_trie
  key_changes-parts fuel first last storage_key key out e =
      elim (Result-cases (expect_block_number_from_id chain last)) [
        | inr (x, q) ↦ absurd (ground (arith, q, e))
        | inl (n, q) ↦ elim (Result-cases (expect_block_hash_from_id chain last)) [
          | inr (x, r) ↦ absurd (ground (arith, q, r, e))
          | inl (h, r) ↦ elim (Option-cases (descend chain storage first true fuel h [])) [
            | inl out_of ↦ absurd (ground (arith, q, r, out_of, e))
            | inr (err x, d) ↦ absurd (ground (arith, q, r, d, e))
            | inr (ok configs, d) ↦ (n, (h, (configs, (q, r, d, ground (arith, q, r, d, e)))))
          ]
        ]
      ]

  starts_from :
      (fuel : ℕ) (first : BlockNumber) (last : BlockId) (n : BlockNumber) (h : Hash)
      (configs : List Active) (c : Active)
      → expect_block_number_from_id chain last ≡ ok n
      → expect_block_hash_from_id chain last ≡ ok h
      → first ≤ n
      → descend chain storage first true fuel h [] ≡ some (ok configs)
      → last_config configs ≡ some c
      → c.zero_number < first
      → (start : BlockNumber) × ((max_key_changes_range chain (some storage) fuel first last
            ≡ some (ok (some (start, last))))
          × ((start < first) ⊎ (start ≡ storage.oldest_pruned_digest_range_end)))
  unfolding max_key_changes_range require_changes_trie
  starts_from fuel first last n h configs c q r fits d found lt =
      let lenient = descend-lenient chain storage first fuel h [] configs d in
      (
        max c.zero_number storage.oldest_pruned_digest_range_end,
        (ground (arith, q, r, fits, lenient, found), ground (arith, lt)),
      )

  module _ (depth : Hash → ℕ) (back : GoesBack chain storage depth) where
    descend-IsWalk :
        (fuel : ℕ) (first : BlockNumber) (h : Hash) (configs : List Active)
        → depth h < fuel
        → descend chain storage first true fuel h [] ≡ some (ok configs)
        → IsWalk chain storage first h configs
    descend-IsWalk fuel first h configs enough d =
        elim (descend-Ends chain storage first depth fuel h [] back enough) [
          | inr (x, d') ↦ absurd (ground (arith, d, d'))
          | inl (walked, (d', walk)) ↦
              let same : walked ≡ configs = ground (arith, d, d') in
              subst (IsWalk chain storage first h) same walk
        ]

    -- A success of `key_changes` has walked back through the configurations to the first that began
    -- before `first`, and answers the changes under each of them, in that order: in the blocks after the one
    -- that it began with, from `first` on, as of the last block, or of its own last one if it ended before.
    pub key_changes-reads :
        (fuel : ℕ) (first : BlockNumber) (last : BlockId) (storage_key : Option Bytes) (key : Bytes)
        (out : List (BlockNumber × ℕ))
        → ((h : Hash) → expect_block_hash_from_id chain last ≡ ok h → depth h < fuel)
        → key_changes chain (some storage) fuel first last storage_key key ≡ some (ok out)
        → (n : BlockNumber) × ((h : Hash) × ((configs : List Active) × ((expect_block_number_from_id
                    chain last
                  ≡ ok n)
                × (expect_block_hash_from_id chain last ≡ ok h)
                × IsWalk chain storage first h configs
                × Answers storage (IsQuery chain first n h storage_key key) configs out)))
    key_changes-reads fuel first last storage_key key out enough e =
        let (n, (h, (configs, (q, r, d, each)))) =
          key_changes-parts fuel first last storage_key key out e in
        let (rest, (answers, out_is)) =
          key_changes_each-Answers storage (IsQuery chain first n h storage_key key) _
            (query-IsQuery chain first n h storage_key key) configs [] out each in
        (
          n,
          (
            h,
            (
              configs,
              (
                q,
                r,
                descend-IsWalk fuel first h configs (enough h r) d,
                rw (sym out_is) at answers,
              ),
            ),
          ),
        )

    -- Where `key_changes` succeeds on a range that is not empty, `max_key_changes_range` answers that
    -- there are changes tries, up to the same block, from before `first` or from what is pruned.
    pub max_key_changes_range-agrees :
        (fuel : ℕ) (first : BlockNumber) (last : BlockId) (storage_key : Option Bytes) (key : Bytes)
        (out : List (BlockNumber × ℕ))
        → ((h : Hash) → expect_block_hash_from_id chain last ≡ ok h → depth h < fuel)
        → ((n : BlockNumber) → expect_block_number_from_id chain last ≡ ok n → first ≤ n)
        → key_changes chain (some storage) fuel first last storage_key key ≡ some (ok out)
        → (start : BlockNumber) × ((max_key_changes_range chain (some storage) fuel first last
              ≡ some (ok (some (start, last))))
            × ((start < first) ⊎ (start ≡ storage.oldest_pruned_digest_range_end)))
    unfolding max_key_changes_range require_changes_trie
    max_key_changes_range-agrees fuel first last storage_key key out enough fits e =
        let (n, (h, (configs, (q, r, d, each)))) =
          key_changes-parts fuel first last storage_key key out e in
        let (c, (found, lt)) =
          IsWalk-last chain storage first (descend-IsWalk fuel first h configs (enough h r) d) in
        starts_from fuel first last n h configs c q r (fits n q) d found lt
