-- ===== src/Facts/Types.antt =====
-- tapestry-os/include/tapestry/csm.h, "Position" and "Shared facts": the records of the replicated
-- fact table and its constants.  A bit of `flags` is read by division and remainder.
use tapestry.Prelude.{ℕ, ◌+◌, ◌*◌, ◌/◌, ◌%◌, Bool, false, ◌&&◌, List, ◌==◌, replicate}
use tapestry.Prelude.Floats.{FloatOps}

-- The Kconfig values (csm.h takes them as macros).
pub record Config : Type 0 where
  pub max_facts : ℕ
  pub max_per_origin : ℕ
  pub tombstone_ttl_ms : ℕ
  pub imin_ms : ℕ
  pub imax_ms : ℕ
  pub redundancy : ℕ
  pub sync_timeout_ms : ℕ

-- The defaults of a host build.
abbrev pub default_config : Config
default_config = record {
  max_facts = 16;
  max_per_origin = 16;
  tombstone_ttl_ms = 60000;
  imin_ms = 250;
  imax_ms = 8000;
  redundancy = 2;
  sync_timeout_ms = 16000;
}

abbrev pub max_elements : ℕ
max_elements = 32

abbrev pub type_none : ℕ
type_none = 0

abbrev pub type_target : ℕ
type_target = 1

pub record Position (F : Type 0) : Type 0 where
  pub x : F
  pub y : F
  pub z : F

-- position_distance()
pub position_distance : {F : Type 0} ⦃fl : FloatOps F⦄ → Position F → Position F → F
position_distance ⦃fl⦄ a b =
    let dx = fl.sub a.x b.x in
    let dy = fl.sub a.y b.y in
    let dz = fl.sub a.z b.z in
    fl.sqrtf (fl.add (fl.add (fl.mul dx dx) (fl.mul dy dy)) (fl.mul dz dz))

pub record FactKey : Type 0 where
  pub type : ℕ
  pub origin : ℕ
  pub epoch : ℕ
  pub seq : ℕ

pub record Fact (F : Type 0) : Type 0 where
  pub key : FactKey
  pub flags : ℕ
  pub stamp : ℕ
  pub pos : Position F
  pub attr : ℕ

pub record FactSlot (F : Type 0) : Type 0 where
  pub fact : Fact F
  pub used : Bool
  pub held_ms : ℕ
  pub tomb_ms : ℕ

pub record Facts (F : Type 0) : Type 0 where
  pub slots : List (FactSlot F)
  pub epoch : ℕ
  pub epoch_set : Bool
  pub next_seq : ℕ
  pub clock : ℕ
  pub synced : Bool
  pub since_init_ms : ℕ
  pub frames_heard : ℕ
  pub trickle_i_ms : ℕ
  pub trickle_t_ms : ℕ
  pub trickle_elapsed_ms : ℕ
  pub trickle_c : ℕ
  pub trickle_fired : Bool
  pub trickle_started : Bool
  pub cursor : ℕ
  pub evictions : ℕ
  pub last_evicted : FactKey
  pub last_evict_reason : ℕ
  pub last_evicted_age_ms : ℕ
  pub last_evicted_flags : ℕ

abbrev pub evict_capacity : ℕ
evict_capacity = 1

abbrev pub evict_per_origin : ℕ
evict_per_origin = 2

-- fact_key_equal()
abbrev pub fact_key_equal : FactKey → FactKey → Bool
fact_key_equal a b =
    a.type == b.type && a.origin == b.origin && a.epoch == b.epoch && a.seq == b.seq

-- FACT_RETRACTED, bit 0
abbrev pub is_retracted : ℕ → Bool
is_retracted flags = flags % 2 == 1

-- FACT_IMMUTABLE, bit 1
abbrev pub is_immutable : ℕ → Bool
is_immutable flags = flags / 2 % 2 == 1

-- FACT_PRIO_OF, bits 2 and 3
abbrev pub priority_of : ℕ → ℕ
priority_of flags = flags / 4 % 4

-- flags | FACT_RETRACTED
abbrev pub set_retracted : ℕ → ℕ
set_retracted flags = flags / 2 * 2 + 1

-- flags & (FACT_IMMUTABLE | FACT_PRIO_MASK)
abbrev pub publishable : ℕ → ℕ
publishable flags = flags % 16 / 2 * 2

abbrev pub zero_key : FactKey
zero_key = record { type = 0; origin = 0; epoch = 0; seq = 0 }

-- A zeroed slot (memset).
abbrev pub zero_slot : {F : Type 0} ⦃fl : FloatOps F⦄ → FactSlot F
zero_slot ⦃fl⦄ = record {
  fact = record {
    key = zero_key;
    flags = 0;
    stamp = 0;
    pos = record { x = fl.of_ℕ 0; y = fl.of_ℕ 0; z = fl.of_ℕ 0 };
    attr = 0;
  };
  used = false;
  held_ms = 0;
  tomb_ms = 0;
}

-- wm_facts_init()
unfoldable pub facts_init : {F : Type 0} ⦃fl : FloatOps F⦄ → Config → Facts F
facts_init cfg = record {
  slots = replicate cfg.max_facts zero_slot;
  epoch = 0;
  epoch_set = false;
  next_seq = 0;
  clock = 0;
  synced = false;
  since_init_ms = 0;
  frames_heard = 0;
  trickle_i_ms = 0;
  trickle_t_ms = 0;
  trickle_elapsed_ms = 0;
  trickle_c = 0;
  trickle_fired = false;
  trickle_started = false;
  cursor = 0;
  evictions = 0;
  last_evicted = zero_key;
  last_evict_reason = 0;
  last_evicted_age_ms = 0;
  last_evicted_flags = 0;
}
