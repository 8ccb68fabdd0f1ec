-- ===== src/Executor/Changes.antt =====
-- The map of storage changes that a message carries.
use sub_archive.Prelude.{
  ◌≢◌, List, Bool-cases, inl, inr, nat_eq, [], ◌∷◌, Option, none, some, ◌≡◌, arith, bytes_eq, ◌==◌,
  if◌then◌else◌, refl, ◌∙◌,
}
use mathlib.Core.List.{foldl}
use sub_archive.Prelude.Assoc.{lookup, insert, lookup-insert, IsKeyed, insert-IsKeyed}
use sub_archive.Chain.{Bytes, BlockNumber}
use sub_archive.Kafka.Payload.{StorageMap}
use sub_archive.Executor.Block.{BlockExecutor, StorageChanges, collect, storages_map, some_values}

abbrev or_else : Option (Option Bytes) → Option (Option Bytes) → Option (Option Bytes)
or_else none o = o
or_else (some v) o = some v

-- The last change of a key in a list of changes.
unfoldable pub last_change : Bytes → StorageChanges → Option (Option Bytes)
last_change k [] = none
last_change k ((j, v) ∷ rest) = or_else (last_change k rest) (if j == k then some v else none)

fold_changes : StorageMap → StorageChanges → StorageMap
fold_changes m changes = foldl (λ m p. insert p.0 p.1 m) m changes

fold_changes-lookup :
    (k : Bytes) (m : StorageMap) (changes : StorageChanges)
    → lookup k (fold_changes m changes) ≡ or_else (last_change k changes) (lookup k m)
unfolding fold_changes last_change
fold_changes-lookup k m [] = refl
fold_changes-lookup k m ((j, v) ∷ rest) =
    ground (arith, fold_changes-lookup k (insert j v m) rest, lookup-insert j k v m)

fold_changes-IsKeyed :
    (m : StorageMap) (changes : StorageChanges) → IsKeyed m → IsKeyed (fold_changes m changes)
unfolding fold_changes
fold_changes-IsKeyed m [] h = h
fold_changes-IsKeyed m ((j, v) ∷ rest) h =
    fold_changes-IsKeyed (insert j v m) rest (insert-IsKeyed j v m h)

-- The map that a message carries holds each key once, with its last change, and no other key.
pub collect-IsLast :
    (changes : StorageChanges) (k : Bytes)
    → IsKeyed (collect changes) × (lookup k (collect changes) ≡ last_change k changes)
unfolding collect fold_changes lookup
collect-IsLast changes k =
    (fold_changes-IsKeyed [] changes tt, fold_changes-lookup k [] changes ∙ ground arith)

-- The last value that a key is put under in a list.
unfoldable pub last_put : Bytes → List (Bytes × Bytes) → Option (Option Bytes)
last_put k [] = none
last_put k ((j, v) ∷ rest) = or_else (last_put k rest) (if j == k then some (some v) else none)

last_change-some_values :
    {S J : Type 0} (x : BlockExecutor S J) (k : Bytes) (top : List (Bytes × Bytes))
    → last_change k (some_values x top) ≡ last_put k top
unfolding last_change last_put
last_change-some_values x k [] = refl
last_change-some_values x k ((j, v) ∷ rest) = ground (arith, last_change-some_values x k rest)

-- The changes that the message of block `n` carries: of the genesis block what its storage has, and of
-- any other what the execution changed; each key once, with what it was changed to last.
pub data Carries {S J : Type 0} (x : BlockExecutor S J) (n : BlockNumber) (main_sc : StorageChanges)
    (changes : StorageMap) : Type 0 where
  genesis :
      n ≡ 0
      → IsKeyed changes
      → ((k : Bytes) → lookup k changes ≡ last_put k x.genesis_top)
      → Carries x n main_sc changes
  executed :
      n ≢ 0
      → IsKeyed changes
      → ((k : Bytes) → lookup k changes ≡ last_change k main_sc)
      → Carries x n main_sc changes

pub storages_map-Carries :
    {S J : Type 0} (x : BlockExecutor S J) (n : BlockNumber) (main_sc : StorageChanges)
    → Carries x n main_sc (storages_map x n main_sc)
unfolding storages_map
storages_map-Carries x n main_sc = elim (Bool-cases (n == 0)) [
  | inl zeroth ↦
      let top = some_values x x.genesis_top in
      let map_is : (if n == 0 then collect top else collect main_sc) ≡ collect top =
        rw zeroth refl in
      genesis (ground (arith, zeroth)) (rw map_is (collect-IsLast top []).0)
        (λ k. rw map_is ((collect-IsLast top k).1 ∙ last_change-some_values x k x.genesis_top))
  | inr later ↦
      let top = some_values x x.genesis_top in
      let map_is : (if n == 0 then collect top else collect main_sc) ≡ collect main_sc =
        rw later refl in
      executed (λ e. absurd (ground (arith, later, e))) (rw map_is (collect-IsLast main_sc []).0)
        (λ k. rw map_is (collect-IsLast main_sc k).1)
]
