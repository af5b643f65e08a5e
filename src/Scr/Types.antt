-- ===== src/Scr/Types.antt =====
-- tapestry-os/include/tapestry/scr.h: the runtime state of the swarm coordination layer, and the
-- peer filter of scr.c.
use tapestry.Prelude.{
  ℕ, ◌+◌, ◌-◌, ◌/◌, ◌%◌, ◌^◌, Bool, true, false, not, ◌&&◌, ltb, leb, ◌==◌, if◌then◌else◌,
}
use tapestry.WorldModel.Types.{id_invalid}

pub data Quorum : Type 0 where
  lost degraded healthy : Quorum

pub data Role : Type 0 where
  none follower leader relay sensor actuator : Role

-- SCR_ABORT_NONE is `clear`.
pub data Abort : Type 0 where
  clear triggered cleared : Abort

-- `q == SCR_QUORUM_LOST`; otherwise `q >= SCR_QUORUM_DEGRADED`.
abbrev pub is_lost : Quorum → Bool
is_lost lost = true
is_lost _ = false

abbrev pub is_triggered : Abort → Bool
is_triggered triggered = true
is_triggered _ = false

-- `on_tick` says whether a hook is set.
pub record ScrState : Type 0 where
  pub own_id : ℕ
  pub quorum_min : ℕ
  pub quorum_target : ℕ
  pub capabilities : ℕ
  pub on_tick : Bool
  pub quorum_hold_ms : ℕ
  pub quorum_recovery_ms : ℕ
  pub role : Role
  pub leader_id : ℕ
  pub leader_valid : Bool
  pub quorum_state : Quorum
  pub fresh_count : ℕ
  pub task_slot : ℕ
  pub swarm_size : ℕ
  pub abort_state : Abort
  pub prev_quorum_state : Quorum
  pub peer_whitelist_mask : ℕ
  pub anomaly_mask : ℕ

unfoldable pub scr_init : ℕ → ℕ → ℕ → ℕ → ScrState
scr_init own_id quorum_min quorum_target capabilities = record {
  own_id = own_id;
  quorum_min = quorum_min;
  quorum_target = quorum_target;
  capabilities = capabilities;
  on_tick = false;
  quorum_hold_ms = 0;
  quorum_recovery_ms = 0;
  role = Role.none;
  leader_id = id_invalid;
  leader_valid = false;
  quorum_state = lost;
  fresh_count = 0;
  task_slot = 0;
  swarm_size = 0;
  abort_state = clear;
  prev_quorum_state = lost;
  peer_whitelist_mask = 0;
  anomaly_mask = 0;
}

-- Bit `i` of a mask: `mask & (1u << i)`, `mask |= 1u << i`, `mask &= ~(1u << i)`.
abbrev pub has_bit : ℕ → ℕ → Bool
has_bit mask i = mask / 2 ^ i % 2 == 1

unfoldable pub set_bit : ℕ → ℕ → ℕ
set_bit mask i = if has_bit mask i then mask else mask + 2 ^ i

unfoldable pub clear_bit : ℕ → ℕ → ℕ
clear_bit mask i = if has_bit mask i then mask - 2 ^ i else mask

unfoldable pub peer_is_trusted : ScrState → ℕ → Bool
peer_is_trusted scr id =
    if leb 32 id
    then false
    else if not (scr.peer_whitelist_mask == 0) && not (has_bit scr.peer_whitelist_mask id)
    then false
    else if has_bit scr.anomaly_mask id
    then false
    else true

unfoldable pub set_quorum_hold_ms : ScrState → ℕ → ScrState
set_quorum_hold_ms scr hold_ms = record scr { quorum_hold_ms = hold_ms }

unfoldable pub set_peer_whitelist : ScrState → ℕ → ScrState
set_peer_whitelist scr mask = record scr { peer_whitelist_mask = mask }

unfoldable pub report_anomaly : ScrState → ℕ → ScrState
report_anomaly scr peer =
    if ltb peer 32 then record scr { anomaly_mask = set_bit scr.anomaly_mask peer } else scr

unfoldable pub clear_anomaly : ScrState → ℕ → ScrState
clear_anomaly scr peer =
    if ltb peer 32 then record scr { anomaly_mask = clear_bit scr.anomaly_mask peer } else scr

unfoldable pub clear_all_anomalies : ScrState → ScrState
clear_all_anomalies scr = record scr { anomaly_mask = 0 }

-- scr_get_leader()
unfoldable pub get_leader : ScrState → ℕ
get_leader scr = if scr.leader_valid then scr.leader_id else id_invalid
