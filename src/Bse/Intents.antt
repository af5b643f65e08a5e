-- ===== src/Bse/Intents.antt =====
-- bse.c: the intents that come and go, with the one that is parked.
use tapestry.Prelude.{
  ℕ, Bool, true, false, ◌&&◌, [], ◌∷◌, Option, none, some, leb, ◌==◌, length, if◌then◌else◌,
}
use tapestry.Prelude.Floats.{FloatOps}
use tapestry.Facts.Types.{Position}
use tapestry.Choreo.Goals.{Intent, IntentType, intent_idle, frame_absolute}
use tapestry.Bse.Types.{
  Activation, Bse, max_parked_intents, directive_idle, directive_move_to_point, anchor_leader,
  zero_f,
}

abbrev pub is_quiet : IntentType → Bool
is_quiet intent_idle = true
is_quiet _ = false

module _ {F : Type 0} where
  abbrev pub set_type : Bse F → ℕ → Bse F
  set_type b t = record b { directive = record (b.directive) { type = t } }

  -- snapshot_prev_goal()
  unfoldable pub snapshot_prev_goal : Bse F → Bse F
  snapshot_prev_goal b = record b {
    prev_goal_valid =
        b.goal_pt_valid && (b.act.achieved && b.directive.type == directive_move_to_point);
    prev_goal_pt = b.goal_pt;
  }

  -- An IDLE intent takes effect at once.
  abbrev pub quiet_now : Bse F → Bse F
  quiet_now b = if is_quiet b.intent.type then set_type b directive_idle else b

  -- bse_resume_intent(), with whether something was parked
  unfoldable pub bse_resume_intent : Bse F → Bse F × Bool
  bse_resume_intent b = elim b.parked [
    | [] ↦ (b, false)
    | p ∷ ps ↦ (
      record b {
        parked = ps;
        intent = p.intent;
        act = p.act;
        goal_pt_valid = false;
        prev_goal_valid = false;
      },
      true,
    )
  ]

  -- bse_set_track_scope()
  unfoldable pub bse_set_track_scope : Bse F → ℕ → Bse F
  bse_set_track_scope b track = record b { track_scope = track }

module _ {F : Type 0} ⦃fl : FloatOps F⦄ where
  -- The part of reset_activation() in s_act.
  unfoldable pub fresh_activation : Activation F → Activation F
  fresh_activation a = record a {
    achieved = false;
    achieve_accum_ms = 0;
    hold_captured = false;
    ex_captured = false;
    move_captured = false;
    anchor_locked = false;
    anchor_candidate_valid = false;
    landmark_locked = false;
    landmark_candidate_valid = false;
    spin_theta = zero_f;
  }

  -- reset_activation()
  unfoldable pub reset_activation : Bse F → Bse F
  reset_activation b = record b { goal_pt_valid = false; act = fresh_activation b.act }

  abbrev pub zero_position : Position F
  zero_position = record { x = zero_f; y = zero_f; z = zero_f }

  abbrev pub zero_intent : Intent F
  zero_intent = record {
    type = intent_idle;
    aim = record {
      target = zero_position;
      radius = zero_f;
      shape = 0;
      frame = frame_absolute;
      anchor = anchor_leader;
      anchor_id = 0;
      landmark_type = 0;
      landmark_rank = 0;
      motion = 0;
      spin_rate_radps = zero_f;
      rotation_rad = zero_f;
      slot_shift = 0;
      direct_path = false;
      achieve_eps = zero_f;
      achieve_hold_ms = 0;
      id = 0;
    };
  }

  -- bse_init()
  unfoldable pub bse_init : ℕ → Bse F → Bse F
  bse_init self_id b = reset_activation (record b {
    self_id = self_id;
    intent = zero_intent;
    directive = record {
      type = directive_idle;
      target = zero_position;
      spring_k = zero_f;
      spacing = zero_f;
    };
    parked = [];
    track_scope = 0;
    prev_goal_valid = false;
  })

  -- A fresh activation of an intent, in place of the one that is active.
  unfoldable pub activate : Bse F → Intent F → Bse F
  activate b intent = reset_activation (record (snapshot_prev_goal b) { intent = intent })

  -- bse_submit_intent(): what was parked is dropped.  A null pointer is `none`, and -1 is `false`.
  unfoldable pub bse_submit_intent : Bse F → Option (Intent F) → Bse F × Bool
  bse_submit_intent b none = (b, false)
  bse_submit_intent b (some intent) = (quiet_now (record (activate b intent) { parked = [] }), true)

  -- bse_preempt_intent()
  unfoldable pub bse_preempt_intent : Bse F → Option (Intent F) → Bse F × Bool
  bse_preempt_intent b none = (b, false)
  bse_preempt_intent b (some intent) =
      if leb max_parked_intents (length b.parked) then (b, false) else (
        quiet_now (record (activate b intent) {
          parked = record { intent = b.intent; act = b.act } ∷ b.parked;
        }),
        true,
      )

  -- bse_set_form_bounds()
  unfoldable pub bse_set_form_bounds : Bse F → F → F → F → F → Bse F
  bse_set_form_bounds b min_x min_y max_x max_y = record b {
    form_bounds_set = fl.le min_x max_x && fl.le min_y max_y;
    form_min_x = min_x;
    form_min_y = min_y;
    form_max_x = max_x;
    form_max_y = max_y;
  }
