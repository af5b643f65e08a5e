-- ===== src/Runtime/Power.antt =====
-- tapestry-os/subsys/runtime/power.c: the power states, a requested transition, and the policy that
-- steps between them.
use tapestry.Prelude.{ℕ, ◌+◌, Bool, not, ◌&&◌, List, [], ◌∷◌, leb, ◌==◌, if◌then◌else◌, u32}
use tapestry.Scr.Types.{Quorum, is_lost}

-- substrate_power_state_t
pub data PowerState : Type 0 where
  active idle sleep harvest : PowerState

-- The enumeration's values.
abbrev pub value_of : PowerState → ℕ
value_of active = 0
value_of idle = 1
value_of sleep = 2
value_of harvest = 3

-- What the build sets: CONFIG_PM, threshold-gpios in the device tree and ready,
-- CONFIG_TAPESTRY_POWER_AUTO_POLICY and CONFIG_TAPESTRY_POWER_SLEEP_GRACE_CYCLES.
pub record PowerConfig : Type 0 where
  pub pm : Bool
  pub has_threshold : Bool
  pub threshold_ready : Bool
  pub auto_policy : Bool
  pub grace_cycles : ℕ

-- The calls that a transition makes of the substrate and of the operating system, in order.
pub data PowerCall : Type 0 where
  set_power : PowerState → PowerCall
  arm_wake suspend_to_idle soft_off : PowerCall

-- s_state and s_quorum_lost_cyc
pub record Power : Type 0 where
  pub state : PowerState
  pub quorum_lost_cyc : ℕ

unfoldable pub power_init : Power × List PowerCall
power_init = (record { state = active; quorum_lost_cyc = 0 }, set_power active ∷ [])

abbrev pub enter_sleep : PowerConfig → List PowerCall
enter_sleep cfg = if cfg.pm then suspend_to_idle ∷ [] else []

abbrev pub enter_harvest : PowerConfig → List PowerCall
enter_harvest cfg =
    if not cfg.pm
    then []
    else if not cfg.has_threshold
    then suspend_to_idle ∷ []
    else if cfg.threshold_ready
    then arm_wake ∷ soft_off ∷ []
    else soft_off ∷ []

-- The switch of tapestry_power_request().
unfoldable pub enter : PowerConfig → PowerState → List PowerCall
enter cfg active = []
enter cfg idle = []
enter cfg sleep = enter_sleep cfg
enter cfg harvest = enter_harvest cfg

unfoldable pub power_request : PowerConfig → Power → PowerState → Power × List PowerCall
power_request cfg p state =
    if value_of state == value_of p.state
    then (p, [])
    else (record p { state = state }, set_power state ∷ enter cfg state)

-- A cycle without quorum, and one with it.
unfoldable pub without_quorum : PowerConfig → Power → Power × List PowerCall
without_quorum cfg p =
    if leb cfg.grace_cycles p.quorum_lost_cyc && value_of p.state == value_of active
    then power_request cfg p idle
    else (p, [])

unfoldable pub with_quorum : PowerConfig → Power → Power × List PowerCall
with_quorum cfg p =
    if value_of p.state == value_of idle then power_request cfg p active else (p, [])

unfoldable pub power_tick : PowerConfig → Power → Quorum → Power × List PowerCall
power_tick cfg p quorum =
    if not cfg.auto_policy
    then (p, [])
    else if is_lost quorum
    then without_quorum cfg (record p { quorum_lost_cyc = u32 (p.quorum_lost_cyc + 1) })
    else with_quorum cfg (record p { quorum_lost_cyc = 0 })
