-- ===== src/Runtime/Apis.antt =====
-- The version and the apis of runtime/src/lib.rs. A call returns an answer of a pallet or of the
-- executive, which are parameters.
use Prim.Native.String.{String}
use sub_archive.Prelude.{ℕ, List, Option, none, some, ◌≡◌, refl}
use sub_archive.Chain.{Bytes, Header, Block, Extrinsic}
use sub_archive.Runtime.Constants.{AllowedSlots, babe_genesis_epoch_config, epoch_duration_in_slots}

-- `RuntimeVersion`, of sp_version, without the versions of the apis.
pub record RuntimeVersion : Type 0 where
  pub spec_name : String
  pub impl_name : String
  pub authoring_version : ℕ
  pub spec_version : ℕ
  pub impl_version : ℕ
  pub transaction_version : ℕ

-- `VERSION`
abbrev pub current : RuntimeVersion
current = record {
  spec_name = "archive";
  impl_name = "patracts-archive";
  authoring_version = 10;
  spec_version = 265;
  impl_version = 1;
  transaction_version = 2;
}

-- `NativeVersion`, where `A` says who can author with it.
pub record NativeVersion (A : Type 0) : Type 0 where
  pub runtime_version : RuntimeVersion
  pub can_author_with : A

abbrev pub native_version : {A : Type 0} → A → NativeVersion A
native_version nobody = record { runtime_version = current; can_author_with = nobody }

-- `BabeGenesisConfiguration`; an authority and its weight are `A`, and randomness is bytes.
pub record BabeGenesisConfiguration (A : Type 0) : Type 0 where
  pub slot_duration : ℕ
  pub epoch_length : ℕ
  pub c : ℕ × ℕ
  pub genesis_authorities : List A
  pub randomness : Bytes
  pub allowed_slots : AllowedSlots

-- The executive and the pallets, on the state `W` of the chain: `R` is the result of an extrinsic, `I` the
-- inherent data, `K` what their check finds, `A` and `B` the authorities of BABE and of GRANDPA, `Q` an
-- epoch, `P` a proof of a key's owner, and `V` and `V'` equivocations.
pub record Pallets (W R I K A B Q P V V' : Type 0) : Type 0 where
  pub execute_block : Block → W → W
  pub initialize_block : Header → W → W
  pub apply_extrinsic : Extrinsic → W → R × W
  pub finalize_block : W → Header × W
  pub create_extrinsics : I → W → List Extrinsic
  pub check_extrinsics : I → Block → W → K
  pub metadata : Bytes
  pub grandpa_authorities : W → List B
  pub grandpa_report : V → P → W → Option (Unit {0}) × W
  pub babe_slot_duration : W → ℕ
  pub babe_authorities : W → List A
  pub babe_randomness : W → Bytes
  pub babe_current_epoch_start : W → ℕ
  pub babe_current_epoch : W → Q
  pub babe_next_epoch : W → Q
  pub babe_report : V' → P → W → Option (Unit {0}) × W
  -- SCALE decoding of an opaque proof
  pub decode_proof : Bytes → Option P
  pub generate_keys : Option Bytes → W → Bytes × W
  pub decode_into_raw_public_keys : Bytes → Option (List (Bytes × Bytes))

module _ {W R I K A B Q P V V' : Type 0} (pallets : Pallets W R I K A B Q P V V') where
  abbrev pub core_version : RuntimeVersion
  core_version = current

  abbrev pub core_execute_block : Block → W → W
  core_execute_block block w = pallets.execute_block block w

  abbrev pub core_initialize_block : Header → W → W
  core_initialize_block header w = pallets.initialize_block header w

  abbrev pub metadata : Bytes
  metadata = pallets.metadata

  abbrev pub apply_extrinsic : Extrinsic → W → R × W
  apply_extrinsic extrinsic w = pallets.apply_extrinsic extrinsic w

  abbrev pub finalize_block : W → Header × W
  finalize_block w = pallets.finalize_block w

  abbrev pub inherent_extrinsics : I → W → List Extrinsic
  inherent_extrinsics inherents w = pallets.create_extrinsics inherents w

  abbrev pub check_inherents : Block → I → W → K
  check_inherents block inherents w = pallets.check_extrinsics inherents block w

  abbrev pub grandpa_authorities : W → List B
  grandpa_authorities w = pallets.grandpa_authorities w

  abbrev reported :
      {U : Type 0} → (U → P → W → Option (Unit {0}) × W) → U → Option P → W → Option (Unit {0}) × W
  reported report equivocation none w = (none, w)
  reported report equivocation (some proof) w = report equivocation proof w

  -- `submit_report_equivocation_unsigned_extrinsic` of `GrandpaApi`
  unfoldable pub submit_grandpa_report : V → Bytes → W → Option (Unit {0}) × W
  submit_grandpa_report equivocation_proof key_owner_proof w =
      reported pallets.grandpa_report equivocation_proof (pallets.decode_proof key_owner_proof) w

  -- `generate_key_ownership_proof` of `GrandpaApi`, and of `BabeApi`
  abbrev pub grandpa_key_ownership_proof : Option Bytes
  grandpa_key_ownership_proof = none

  abbrev pub babe_key_ownership_proof : Option Bytes
  babe_key_ownership_proof = none

  unfoldable pub configuration : W → BabeGenesisConfiguration A
  configuration w = record {
    slot_duration = pallets.babe_slot_duration w;
    epoch_length = epoch_duration_in_slots;
    c = babe_genesis_epoch_config.c;
    genesis_authorities = pallets.babe_authorities w;
    randomness = pallets.babe_randomness w;
    allowed_slots = babe_genesis_epoch_config.allowed_slots;
  }

  abbrev pub current_epoch_start : W → ℕ
  current_epoch_start w = pallets.babe_current_epoch_start w

  abbrev pub current_epoch : W → Q
  current_epoch w = pallets.babe_current_epoch w

  abbrev pub next_epoch : W → Q
  next_epoch w = pallets.babe_next_epoch w

  -- `submit_report_equivocation_unsigned_extrinsic` of `BabeApi`
  unfoldable pub submit_babe_report : V' → Bytes → W → Option (Unit {0}) × W
  submit_babe_report equivocation_proof key_owner_proof w =
      reported pallets.babe_report equivocation_proof (pallets.decode_proof key_owner_proof) w

  abbrev pub generate_session_keys : Option Bytes → W → Bytes × W
  generate_session_keys seed w = pallets.generate_keys seed w

  abbrev pub decode_session_keys : Bytes → Option (List (Bytes × Bytes))
  decode_session_keys encoded = pallets.decode_into_raw_public_keys encoded

  -- A report whose proof cannot be decoded is refused, and changes nothing.
  submit_report-undecodable :
      (v : V) (v' : V') (proof : Bytes) (w : W)
      → pallets.decode_proof proof ≡ none
      → (submit_grandpa_report v proof w ≡ (none, w)) × (submit_babe_report v' proof w ≡ (none, w))
  unfolding submit_grandpa_report submit_babe_report
  submit_report-undecodable v v' proof w e = (rw e refl, rw e refl)
