-- ===== src/Runtime/Constants.antt =====
-- runtime/src/constants.rs: money, time, and the configuration of BABE and of the weights.
use sub_archive.Prelude.{ℕ, ◌+◌, ◌*◌, ◌/◌, ◌%◌, ◌^◌}
use sub_archive.Chain.{BlockNumber}

-- `Balance` is a `u128`.
abbrev u128_mod : ℕ
u128_mod = 2 ^ 128

abbrev pub dots : ℕ
dots = 1000000000000

abbrev pub dollars : ℕ
dollars = dots / 100

abbrev pub cents : ℕ
cents = dollars / 100

abbrev pub millicents : ℕ
millicents = cents / 1000

unfoldable pub deposit : ℕ → ℕ → ℕ
deposit items bytes = (items * 20 * dollars + bytes * 100 * millicents) % u128_mod

unfoldable pub archive_deposit : ℕ → ℕ → ℕ
archive_deposit items bytes = (items * 10 * cents + bytes * 10 * millicents) % u128_mod

abbrev pub millisecs_per_block : ℕ
millisecs_per_block = 3000

abbrev pub secs_per_block : ℕ
secs_per_block = millisecs_per_block / 1000

abbrev pub slot_duration : ℕ
slot_duration = millisecs_per_block

-- 1 in 4 blocks (on average, not counting collisions) will be primary BABE blocks.
abbrev pub primary_probability : ℕ × ℕ
primary_probability = (1, 4)

abbrev pub minutes : BlockNumber
minutes = 60 / secs_per_block

abbrev pub hours : BlockNumber
hours = minutes * 60

abbrev pub days : BlockNumber
days = hours * 24

abbrev pub epoch_duration_in_blocks : BlockNumber
epoch_duration_in_blocks = 10 * minutes

-- The code multiplies by a quotient of floats, which is one here.
abbrev pub epoch_duration_in_slots : ℕ
epoch_duration_in_slots = epoch_duration_in_blocks * millisecs_per_block / slot_duration

pub data AllowedSlots : Type 0 where
  primary_slots : AllowedSlots
  primary_and_secondary_plain_slots : AllowedSlots
  primary_and_secondary_vrf_slots : AllowedSlots

pub record BabeEpochConfiguration : Type 0 where
  pub c : ℕ × ℕ
  pub allowed_slots : AllowedSlots

abbrev pub babe_genesis_epoch_config : BabeEpochConfiguration
babe_genesis_epoch_config = record {
  c = primary_probability;
  allowed_slots = AllowedSlots.primary_and_secondary_plain_slots;
}

-- `Perbill`: the parts of a percentage, and a part of a weight.
pub record Perbill (P : Type 0) : Type 0 where
  pub from_percent : ℕ → P
  pub deconstruct : P → ℕ
  pub part_of : P → ℕ → ℕ

module _ {P : Type 0} (perbill : Perbill P) where
  abbrev pub average_on_initialize_ratio : P
  average_on_initialize_ratio = perbill.from_percent 10

  abbrev pub normal_dispatch_ratio : P
  normal_dispatch_ratio = perbill.from_percent 75

-- Given `WEIGHT_PER_SECOND`.
abbrev pub maximum_block_weight : ℕ → ℕ
maximum_block_weight weight_per_second = 2 * weight_per_second
