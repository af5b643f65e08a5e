-- ===== src/Choreo/Goals.antt =====
-- choreo.c: goals, the capabilities that they need, and the intents that they become.
use tapestry.Prelude.{
  ℕ, ◌+◌, ◌/◌, ◌%◌, Bool, true, false, not, ◌&&◌, Option, none, some, ◌==◌, if◌then◌else◌,
}
use tapestry.Facts.Types.{Position}

-- choreo_goal_type_t
pub data GoalType : Type 0 where
  goal_none goal_form goal_move goal_disperse goal_converge goal_hold goal_exchange : GoalType

-- tapestry_bse_intent_type_t
pub data IntentType : Type 0 where
  intent_idle intent_form intent_move intent_disperse intent_converge intent_hold intent_exchange :
      IntentType

-- What a goal and an intent have in common; the enumerations of bse.h are numbers.
pub record Aim (F : Type 0) : Type 0 where
  pub target : Position F
  pub radius : F
  pub shape : ℕ
  pub frame : ℕ
  pub anchor : ℕ
  pub anchor_id : ℕ
  pub landmark_type : ℕ
  pub landmark_rank : ℕ
  pub motion : ℕ
  pub spin_rate_radps : F
  pub rotation_rad : F
  pub slot_shift : ℕ
  pub direct_path : Bool
  pub achieve_eps : F
  pub achieve_hold_ms : ℕ
  pub id : ℕ

-- choreo_goal_t
pub record Goal (F : Type 0) : Type 0 where
  pub type : GoalType
  pub required_caps : ℕ
  pub aim : Aim F

-- tapestry_bse_intent_t
pub record Intent (F : Type 0) : Type 0 where
  pub type : IntentType
  pub aim : Aim F

abbrev pub motion_spin : ℕ
motion_spin = 1

abbrev pub frame_absolute : ℕ
frame_absolute = 0

-- A flag of a capability word, by its value.
abbrev pub has_cap : ℕ → ℕ → Bool
has_cap caps flag = caps / flag % 2 == 1

abbrev pub add_cap : ℕ → ℕ → ℕ
add_cap caps flag = if has_cap caps flag then caps else caps + flag

-- CHOREO_CAP_*
abbrev pub cap_locomotion : ℕ
cap_locomotion = 1

abbrev pub cap_bonding : ℕ
cap_bonding = 2

abbrev pub cap_sensing : ℕ
cap_sensing = 4

abbrev pub cap_signaling : ℕ
cap_signaling = 8

abbrev pub cap_abs_position : ℕ
cap_abs_position = 16

-- One line of caps_satisfied(): a flag required, and the hardware's flag for it.
abbrev pub lacks : ℕ → ℕ → ℕ → ℕ → Bool
lacks required flag hw hw_flag = has_cap required flag && not (has_cap hw hw_flag)

-- caps_satisfied(), with the capabilities of the registered hardware: SCR_CAP_ACTUATOR is 4, SENSOR 2,
-- RELAY 1, BONDING 8 and ABS_POSITION 16.
unfoldable pub caps_satisfied : Option ℕ → ℕ → Bool
caps_satisfied none required = true
caps_satisfied (some hw) required =
    if required == 0
    then true
    else if lacks required cap_locomotion hw 4
    then false
    else if lacks required cap_sensing hw 2
    then false
    else if lacks required cap_signaling hw 1
    then false
    else if lacks required cap_bonding hw 8
    then false
    else if lacks required cap_abs_position hw 16
    then false
    else true

abbrev pub reads_frame : GoalType → Bool
reads_frame goal_form = true
reads_frame goal_converge = true
reads_frame _ = false

abbrev pub is_no_goal : GoalType → Bool
is_no_goal goal_none = true
is_no_goal _ = false

-- The table `type_map`.
abbrev pub intent_type : GoalType → IntentType
intent_type goal_none = intent_idle
intent_type goal_form = intent_form
intent_type goal_move = intent_move
intent_type goal_disperse = intent_disperse
intent_type goal_converge = intent_converge
intent_type goal_hold = intent_hold
intent_type goal_exchange = intent_exchange

module _ {F : Type 0} where
  unfoldable pub derived_caps : Goal F → ℕ
  derived_caps g =
      let moving =
        if g.aim.motion == motion_spin
        then add_cap g.required_caps cap_locomotion
        else g.required_caps in
      if reads_frame g.type && g.aim.frame == frame_absolute
      then add_cap moving cap_abs_position
      else moving

  unfoldable pub goal_to_intent : Goal F → Intent F
  goal_to_intent g = record { type = intent_type g.type; aim = g.aim }
