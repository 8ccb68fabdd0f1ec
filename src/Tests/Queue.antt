-- ===== src/Tests/Queue.antt =====
-- The producer and the secondary database.
use sub_archive.Prelude.{
  ℕ, zero, suc, ◌*◌, ◌/◌, ◌≤◌, [], ◌∷◌, none, some, ok, returned, ◌≡◌, ◌⊎◌, refl, arith, string_eq,
  nat_eq,
}
use sub_archive.Prelude.Assoc.{lookup}
use sub_archive.Kafka.Key.{to_string}
use sub_archive.Kafka.Payload.{MetadataPayload, block}
use sub_archive.Traits.RocksDb.{Database, memory_budget, column_budget, get}
use sub_archive.Traits.Budget.{memory_budget-le, memory_budget-lookup, sum_budget}
use sub_archive.Traits.CatchUp.{get-was_read}
use sub_archive.Traits.LocalDb.{LocalBackend, get_block}
use sub_archive.Tests.Data.{signed_block}

to_string_test : to_string 1203 ≡ 49 ∷ 50 ∷ 48 ∷ 51 ∷ []
unfolding to_string
to_string_test = refl

-- Block 4 and the metadata of version 7, to a broker that answers.
abbrev metadata_7 : MetadataPayload
metadata_7 = record { spec_version = 7; block_num = 4; block_hash = 4; meta = 9 ∷ [] }

-- nine tenths, rounded down
abbrev scale : ℕ → ℕ
scale n = n * 9 / 10

memory_budget-le_example : sum_budget (memory_budget scale 128) ≤ 128
memory_budget-le_example = memory_budget-le scale 128 (omega arith)

memory_budget-lookup_example : lookup 1 (memory_budget scale 128) ≡ some (column_budget scale 128 1)
memory_budget-lookup_example = memory_budget-lookup scale 128 1 (omega arith)

-- A secondary that has not caught up (0) misses what it has after it has caught up (1).
abbrev secondary : Database ℕ (Unit {0})
secondary = record {
  read = λ d col key. elim d [ zero ↦ ok none | suc _ ↦ ok (some (9 ∷ [])) ];
  catch_up = λ d. ok 1;
}

get-was_read_example :
    (secondary.read 1 1 [] ≡ ok (some (9 ∷ [])))
    ⊎ (secondary.read (get secondary 1 1 []).1 1 [] ≡ ok (some (9 ∷ [])))
      × (secondary.catch_up 1 ≡ ok (get secondary 1 1 []).1)
unfolding get
get-was_read_example = get-was_read secondary 1 1 [] (9 ∷ []) refl

abbrev backend : LocalBackend (Unit {0})
backend = record {
  header = λ id. ok (some (signed_block 4).block.header);
  body = λ id. ok (some []);
  justifications = λ id. ok none;
  state_at = λ id. ok tt;
}

block_is_found : get_block backend 4 ≡ returned (some (signed_block 4))
unfolding get_block
block_is_found = refl
