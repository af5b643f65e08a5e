-- ===== src/WorldModel/Types.antt =====
-- tapestry-os/include/tapestry/csm.h: element state, world model entries, the consistency metric and
-- the world model.
use tapestry.Prelude.{ℕ, ◌+◌, ◌*◌, ◌/◌, ◌%◌, Bool, false, not, List, ◌==◌, if◌then◌else◌}
use tapestry.Facts.Types.{Position, Facts}

pub record Orientation (F : Type 0) : Type 0 where
  pub w : F
  pub x : F
  pub y : F
  pub z : F

pub record ElementState (F : Type 0) : Type 0 where
  pub id : ℕ
  pub position : Position F
  pub orientation : Orientation F
  pub logical_clock : ℕ
  pub partition_island : ℕ
  pub update_seq : ℕ
  pub energy_level : ℕ
  pub health_flags : ℕ
  pub goal_achieved : Bool
  pub discovered : Bool
  pub current_track : ℕ

pub record Entry (F : Type 0) : Type 0 where
  pub state : ElementState F
  pub age_ms : ℕ
  pub is_active : Bool
  pub is_stale : Bool
  pub is_self : Bool
  pub update_count : ℕ

pub record Metric (F : Type 0) : Type 0 where
  pub active_total : ℕ
  pub active_fresh : ℕ
  pub active_stale : ℕ
  pub inactive_total : ℕ
  pub collision_count : ℕ
  pub fresh_ratio : F
  pub quorum_held : Bool
  pub degraded : Bool
  pub confidence : F

pub record WorldModel (F : Type 0) : Type 0 where
  pub owner_id : ℕ
  pub entries : List (Entry F)
  pub known_count : ℕ
  pub consistency_bias : F
  pub metric : Metric F
  pub cycle_count : ℕ
  pub last_reconcile_cycle : ℕ
  pub reconcile_duration_ms : ℕ
  pub facts : Facts F

-- ELEMENT_ID_INVALID
abbrev pub id_invalid : ℕ
id_invalid = 255

abbrev pub stale_threshold_ms : ℕ
stale_threshold_ms = 3000

abbrev pub expire_threshold_ms : ℕ
expire_threshold_ms = 5000

-- WM_CYCLE_MS
abbrev pub cycle_ms : ℕ
cycle_ms = 100

-- ELEMENT_HEALTH_DEPARTED, bit 5
abbrev pub is_departed : ℕ → Bool
is_departed flags = flags / 32 % 2 == 1

module _ {F : Type 0} where
  -- An entry that was never populated has the invalid id.
  abbrev pub is_blank : Entry F → Bool
  is_blank e = e.state.id == id_invalid

  -- element_is_participating()
  unfoldable pub is_participating : Entry F → Bool
  is_participating e = if not e.is_active then false else not (is_departed e.state.health_flags)

  -- element_is_stationary(): ELEMENT_HEALTH_STATIONARY is bit 8.
  unfoldable pub is_stationary : Entry F → Bool
  is_stationary e = e.state.health_flags / 256 % 2 == 1

-- element_health_set_departed(): the reason goes to bits 6 and 7, the flag is bit 5.
unfoldable pub set_departed : ℕ → ℕ → ℕ
set_departed flags reason =
    let kept = flags / 256 * 256 + flags % 64 in
    let flagged = if is_departed kept then kept else kept + 32 in flagged + reason % 4 * 64

-- element_health_departed_reason()
unfoldable pub departed_reason : ℕ → ℕ
departed_reason flags = flags / 64 % 4
