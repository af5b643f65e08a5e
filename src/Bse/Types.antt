-- ===== src/Bse/Types.antt =====
-- tapestry-os/subsys/bse/bse.c and tapestry-os/include/tapestry/bse.h: the constants and the static
-- storage.
use tapestry.Prelude.{ℕ, Bool, List}
use tapestry.Prelude.Floats.{FloatOps}
use tapestry.Facts.Types.{Position, FactKey}
use tapestry.Runtime.Cycle.{Directive}
use tapestry.Choreo.Goals.{Intent}

-- What the file calls of <math.h>, beside the operations of FloatOps; ceil_ℕ is `(int)ceilf(x)`.
pub record TrigOps (F : Type 0) : Type 0 where
  pub sinf : F → F
  pub cosf : F → F
  pub atan2f : F → F → F
  pub ceil_ℕ : F → ℕ
  pub infinity : F
  pub neg : F → F
  pub fminf : F → F → F
  pub fmaxf : F → F → F

-- bse_activation_t
pub record Activation (F : Type 0) : Type 0 where
  pub achieved : Bool
  pub achieve_accum_ms : ℕ
  pub hold_captured : Bool
  pub hold_station : Position F
  pub ex_captured : Bool
  pub ex_dest : Position F
  pub ex_centroid : Position F
  pub ex_theta0 : F
  pub ex_dtheta : F
  pub ex_r0 : F
  pub ex_r1 : F
  pub ex_progress : F
  pub move_captured : Bool
  pub move_offset : Position F
  pub spin_theta : F
  pub anchor_locked : Bool
  pub anchor_locked_id : ℕ
  pub anchor_candidate_valid : Bool
  pub anchor_candidate_id : ℕ
  pub anchor_candidate_ms : ℕ
  pub landmark_locked : Bool
  pub landmark_locked_key : FactKey
  pub landmark_candidate_valid : Bool
  pub landmark_candidate_key : FactKey
  pub landmark_candidate_ms : ℕ

-- s_parked_intent and s_parked_act
pub record ParkedIntent (F : Type 0) : Type 0 where
  pub intent : Intent F
  pub act : Activation F

-- The static storage, with the intent parked last first.
pub record Bse (F : Type 0) : Type 0 where
  pub self_id : ℕ
  pub intent : Intent F
  pub directive : Directive F
  pub track_scope : ℕ
  pub act : Activation F
  pub goal_pt_valid : Bool
  pub goal_pt : Position F
  pub anchor_lost : Bool
  pub prev_goal_valid : Bool
  pub prev_goal_pt : Position F
  pub parked : List (ParkedIntent F)
  pub form_bounds_set : Bool
  pub form_min_x : F
  pub form_min_y : F
  pub form_max_x : F
  pub form_max_y : F

-- BSE_MAX_PREEMPT_DEPTH
abbrev pub max_parked_intents : ℕ
max_parked_intents = 1

-- TAPESTRY_BSE_ANCHOR_HOLD_MS
abbrev pub anchor_hold_ms : ℕ
anchor_hold_ms = 2000

-- TAPESTRY_BSE_ACHIEVE_HOLD_MS_DEFAULT
abbrev pub achieve_hold_ms_default : ℕ
achieve_hold_ms_default = 3000

-- tapestry_bse_directive_type_t
abbrev pub directive_idle : ℕ
directive_idle = 0

abbrev pub directive_hold : ℕ
directive_hold = 1

abbrev pub directive_move_to_point : ℕ
directive_move_to_point = 2

abbrev pub directive_maintain_spring : ℕ
directive_maintain_spring = 3

-- tapestry_bse_shape_t, the circle being the default
abbrev pub shape_line : ℕ
shape_line = 2

abbrev pub shape_grid : ℕ
shape_grid = 3

-- tapestry_bse_frame_t, FRAME_ABSOLUTE being of Choreo/Goals and FRAME_ELEMENT the rest
abbrev pub frame_collective : ℕ
frame_collective = 1

-- tapestry_bse_anchor_selector_t
abbrev pub anchor_leader : ℕ
anchor_leader = 0

abbrev pub anchor_by_id : ℕ
anchor_by_id = 1

abbrev pub anchor_self : ℕ
anchor_self = 2

abbrev pub anchor_lowest_energy : ℕ
anchor_lowest_energy = 3

abbrev pub anchor_landmark : ℕ
anchor_landmark = 4

module _ {F : Type 0} ⦃fl : FloatOps F⦄ where
  -- A decimal literal: its digits, and the power of ten below.
  abbrev pub decimal : ℕ → ℕ → F
  decimal n d = fl.div (fl.of_ℕ n) (fl.of_ℕ d)

  abbrev pub zero_f : F
  zero_f = fl.of_ℕ 0

  -- BSE_PI
  abbrev pub bse_pi : F
  bse_pi = decimal 314159265 100000000

  -- TAPESTRY_BSE_ACHIEVE_EPS_DEFAULT
  abbrev pub achieve_eps_default : F
  achieve_eps_default = decimal 5 10

  -- TAPESTRY_BSE_EXCHANGE_OMEGA_RADPS
  abbrev pub exchange_omega_radps : F
  exchange_omega_radps = decimal 15 100

  -- TAPESTRY_BSE_EXCHANGE_OCCUPIED_M
  abbrev pub exchange_occupied_m : F
  exchange_occupied_m = decimal 35 100

  -- TAPESTRY_BSE_EXCHANGE_STANDOFF_M
  abbrev pub exchange_standoff_m : F
  exchange_standoff_m = decimal 5 10

  -- `(float)WM_CYCLE_MS * 0.001f`
  abbrev pub cycle_s : F
  cycle_s = fl.mul (fl.of_ℕ 100) (decimal 1 1000)

  abbrev pub norm3 : F → F → F → F
  norm3 dx dy dz = fl.sqrtf (fl.add (fl.add (fl.mul dx dx) (fl.mul dy dy)) (fl.mul dz dz))

  -- The distance between two points, as the file writes it out.
  abbrev pub distance3 : Position F → Position F → F
  distance3 a b = norm3 (fl.sub a.x b.x) (fl.sub a.y b.y) (fl.sub a.z b.z)
