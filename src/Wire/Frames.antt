-- ===== src/Wire/Frames.antt =====
-- wire.h: the frames' structs, their constants and the packing of relay_qos.
use tapestry.Prelude.{ℕ, ◌+◌, ◌*◌, ◌/◌, ◌%◌}
use tapestry.Facts.Types.{Fact}

-- TAPESTRY_WIRE_VERSION
abbrev pub wire_version : ℕ
wire_version = 7

-- TAPESTRY_DIRECTIVE_TARGET_ALL
abbrev pub target_all : ℕ
target_all = 255

abbrev pub directive_type_max : ℕ
directive_type_max = 3

abbrev pub fact_records_max : ℕ
fact_records_max = 2

-- TAPESTRY_WIRE_AUTH_TAG_SIZE, where authentication is on.
abbrev pub auth_tag_size : ℕ
auth_tag_size = 4

-- tapestry_gossip_frame_t
pub record GossipFrame (F : Type 0) : Type 0 where
  pub id : ℕ
  pub x : F
  pub y : F
  pub z : F
  pub qw : F
  pub qx : F
  pub qy : F
  pub qz : F
  pub logical_clock : ℕ
  pub update_seq : ℕ
  pub energy_level : ℕ
  pub health_flags : ℕ
  pub relay_qos : ℕ
  pub achieved : ℕ
  pub current_track : ℕ
  pub reserved0 : ℕ
  pub reserved1 : ℕ
  pub reserved2 : ℕ
  pub reserved3 : ℕ
  pub version : ℕ

-- tapestry_directive_frame_t
pub record DirectiveFrame (F : Type 0) : Type 0 where
  pub src_id : ℕ
  pub target_id : ℕ
  pub type : ℕ
  pub x : F
  pub y : F
  pub z : F
  pub spring_k : F
  pub spacing : F
  pub goal_id : ℕ
  pub seq : ℕ
  pub version : ℕ

-- tapestry_fact_frame_t, with the fields rN_* of a record together.
pub record FactFrame (F : Type 0) : Type 0 where
  pub sender_id : ℕ
  pub count : ℕ
  pub digest : ℕ
  pub r0 : Fact F
  pub r1 : Fact F
  pub version : ℕ

-- TAPESTRY_HOP_COUNT, TAPESTRY_QOS_TIER and TAPESTRY_PACK_RELAY_QOS: the hop count is in bits 0 and
-- 1, the tier in bits 2 and 3.
abbrev pub hop_count : ℕ → ℕ
hop_count relay_qos = relay_qos % 4

abbrev pub qos_tier : ℕ → ℕ
qos_tier relay_qos = relay_qos / 4 % 4

abbrev pub pack_relay_qos : ℕ → ℕ → ℕ
pack_relay_qos hop qos = hop % 4 + qos % 4 * 4
