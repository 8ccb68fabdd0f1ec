-- ===== src/Runtime/Weights.antt =====
-- `RuntimeBlockWeights`, `RuntimeBlockLength` and the parameters of time of runtime/src/lib.rs.
use sub_archive.Prelude.{
  ℕ, ◌+◌, ◌-◌, ◌*◌, ◌^◌, ◌≤◌, ◌<◌, Option, some, ◌≡◌, arith, refl, Outcome, ◌/◌, Bool, true, false,
  if◌then◌else◌,
}
use sub_archive.Runtime.Constants.{
  Perbill, average_on_initialize_ratio, normal_dispatch_ratio, maximum_block_weight, deposit,
  archive_deposit, slot_duration, millisecs_per_block,
}
use sub_archive.Chain.{BlockNumber}

abbrev pub block_hash_count : BlockNumber
block_hash_count = 2400

abbrev pub expected_block_time : ℕ
expected_block_time = millisecs_per_block

abbrev pub minimum_period : ℕ
minimum_period = slot_duration / 2

abbrev pub ss58_prefix : ℕ
ss58_prefix = 42

-- `DispatchClass`, of frame_support
pub data DispatchClass : Type 0 where
  normal : DispatchClass
  operational : DispatchClass
  mandatory : DispatchClass

pub record ClassWeights : Type 0 where
  pub base_extrinsic : Option ℕ
  pub max_total : Option ℕ
  pub reserved : Option ℕ

abbrev pub Weights : Type 0
Weights = DispatchClass → ClassWeights

abbrev all_classes : DispatchClass → Bool
all_classes c = true

abbrev is_normal : DispatchClass → Bool
is_normal DispatchClass.normal = true
is_normal DispatchClass.operational = false
is_normal DispatchClass.mandatory = false

abbrev is_operational : DispatchClass → Bool
is_operational DispatchClass.normal = false
is_operational DispatchClass.operational = true
is_operational DispatchClass.mandatory = false

-- `for_class`: the closure is run on the weights of each of the classes.
abbrev for_class : (DispatchClass → Bool) → (ClassWeights → ClassWeights) → Weights → Weights
for_class classes set w c = if classes c then set (w c) else w c

-- `BlockWeightsBuilder`, of frame_system, as the code sets it.
pub record BlockWeightsBuilder (P : Type 0) : Type 0 where
  pub base_block : ℕ
  pub per_class : Weights
  pub init_cost : Option P

-- What frame_system and frame_support give: a new builder and `build_or_panic`, and the weights of a
-- second, of an extrinsic and of a block.
pub record Frame (P W : Type 0) : Type 0 where
  pub perbill : Perbill P
  pub builder : BlockWeightsBuilder P
  pub build_or_panic : BlockWeightsBuilder P → Outcome W
  pub weight_per_second : ℕ
  pub extrinsic_base_weight : ℕ
  pub block_execution_weight : ℕ

module _ {P W : Type 0} (f : Frame P W) where
  abbrev pub maximum : ℕ
  maximum = maximum_block_weight f.weight_per_second

  -- The weight that normal extrinsics may have in all.
  abbrev pub normal_weight : ℕ
  normal_weight = f.perbill.part_of (normal_dispatch_ratio f.perbill) maximum

  unfoldable pub per_class : Weights
  per_class =
      for_class is_operational
        (λ w. record w { max_total = some maximum; reserved = some (maximum - normal_weight) })
        (for_class is_normal (λ w. record w { max_total = some normal_weight })
          (for_class all_classes (λ w. record w { base_extrinsic = some f.extrinsic_base_weight })
            f.builder.per_class))

  unfoldable pub runtime_block_weights : Outcome W
  unfolding per_class
  runtime_block_weights = f.build_or_panic record {
    base_block = f.block_execution_weight;
    per_class = per_class;
    init_cost = some (average_on_initialize_ratio f.perbill);
  }

  abbrev pub runtime_block_length : ℕ × P
  runtime_block_length = (5 * 1024 * 1024, normal_dispatch_ratio f.perbill)

  -- The condition of `const_assert!`.
  abbrev pub RatiosAgree : Type 0
  RatiosAgree =
      f.perbill.deconstruct (average_on_initialize_ratio f.perbill)
      ≤ f.perbill.deconstruct (normal_dispatch_ratio f.perbill)

  -- Where a part of a weight is at most the weight, the normal extrinsics and what is reserved for the
  -- operational ones make up the whole of a block, which is what the operational ones may have in all;
  -- each class has the base weight, and the mandatory one keeps the builder's limits.
  per_class-parts :
      f.perbill.part_of (normal_dispatch_ratio f.perbill) maximum ≤ maximum
      → (normal_weight + (maximum - normal_weight) ≡ maximum)
        × ((per_class DispatchClass.normal).max_total ≡ some normal_weight)
        × ((per_class DispatchClass.operational).max_total ≡ some maximum)
        × ((per_class DispatchClass.operational).reserved ≡ some (maximum - normal_weight))
        × ((c : DispatchClass) → (per_class c).base_extrinsic ≡ some f.extrinsic_base_weight)
        × ((per_class DispatchClass.mandatory).max_total
            ≡ (f.builder.per_class DispatchClass.mandatory).max_total)
  unfolding per_class
  per_class-parts le = (omega arith, refl, refl, refl, base, refl)
    where
      base : (c : DispatchClass) → (per_class c).base_extrinsic ≡ some f.extrinsic_base_weight
      base DispatchClass.normal = refl
      base DispatchClass.operational = refl
      base DispatchClass.mandatory = refl

-- The deposits for any numbers of 32 bits are not too large for a balance, and the archive's is the lower.
deposit-exact :
    (items bytes : ℕ)
    → items < 2 ^ 32
    → bytes < 2 ^ 32
    → (deposit items bytes ≡ items * 200000000000 + bytes * 10000000)
      × (archive_deposit items bytes ≡ items * 1000000000 + bytes * 1000000)
      × (archive_deposit items bytes ≤ deposit items bytes)
unfolding deposit archive_deposit
deposit-exact items bytes hi hb = (omega arith, omega arith, omega arith)
