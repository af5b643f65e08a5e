-- ===== src/Choreo/Lifecycle.antt =====
-- choreo.c: configuring, deploying, preempting, terminating and submitting goals.
use tapestry.Prelude.{ℕ, false, not, [], ◌∷◌, Option, none, some, leb, length, if◌then◌else◌}
use tapestry.Prelude.Floats.{FloatOps}
use tapestry.Facts.Types.{Position}
use tapestry.Choreo.Remote.{choreo_idle, choreo_configured, choreo_running, remote_init}
use tapestry.Choreo.Goals.{
  GoalType, Goal, goal_none, Intent, intent_idle, Aim, caps_satisfied, derived_caps, is_no_goal,
  goal_to_intent,
}
use tapestry.Choreo.Steps.{carry_on, Policy}
use tapestry.Choreo.State.{
  Engine, Answer, accepted, invalid, no_capability, busy, engine_error, Choreo, max_preempt_depth,
  is_idle, is_configured, is_active, no_script,
}

module _ {F : Type 0} ⦃fl : FloatOps F⦄ where
  -- What a designated initialiser leaves zero.
  abbrev pub zero_aim : Position F → Aim F
  zero_aim target = record {
    target = target;
    radius = fl.of_ℕ 0;
    shape = 0;
    frame = 0;
    anchor = 0;
    anchor_id = 0;
    landmark_type = 0;
    landmark_rank = 0;
    motion = 0;
    spin_rate_radps = fl.of_ℕ 0;
    rotation_rad = fl.of_ℕ 0;
    slot_shift = 0;
    direct_path = false;
    achieve_eps = fl.of_ℕ 0;
    achieve_hold_ms = 0;
    id = 0;
  }

  abbrev pub origin : Position F
  origin = record { x = fl.of_ℕ 0; y = fl.of_ℕ 0; z = fl.of_ℕ 0 }

  -- The intent that terminate_hard() submits.
  abbrev pub quiescence : Intent F
  quiescence = record { type = intent_idle; aim = zero_aim origin }

module _ {X F : Type 0} ⦃fl : FloatOps F⦄ (engine : Engine X F) where
  -- `intent = goal_to_intent(&s_goal); bse_submit_intent(&intent)`, its result ignored.
  abbrev pub submit_goal_intent : Choreo X F → Choreo X F
  submit_goal_intent c = record c { bse = (engine.submit_intent c.bse (goal_to_intent c.goal)).0 }

  -- A null pointer is `none`.
  unfoldable pub choreo_configure : Choreo X F → Option (Goal F) → Choreo X F × Answer
  choreo_configure c none = (c, invalid)
  choreo_configure c (some g) =
      if is_no_goal g.type
      then (c, invalid)
      else if not (is_idle c.state)
      then (c, invalid)
      else if not (caps_satisfied c.hw_caps (derived_caps g))
      then (c, no_capability)
      else (record c { goal = g; state = choreo_configured }, accepted)

  unfoldable pub choreo_deploy : Choreo X F → Choreo X F × Answer
  choreo_deploy c =
      if not (is_configured c.state)
      then (c, invalid)
      else (let (x, done) = engine.submit_intent c.bse (goal_to_intent c.goal) in
          if done
          then (record c { state = choreo_running; bse = x }, accepted)
          else (record c { bse = x }, engine_error))

  unfoldable pub terminate_hard : Choreo X F → Choreo X F
  terminate_hard c = record c {
    state = choreo_idle;
    script = no_script;
    parked = [];
    membership = record (c.membership) { locked_valid = false };
    departure = record (c.departure) {
      prev_mask_valid = false;
      recall_in_progress = false;
      hold_in_progress = false;
      hold_ms = 0;
    };
    tracks = record (c.tracks) { n_tracks = 0 };
    bse = (engine.submit_intent (engine.set_track_scope c.bse 0) quiescence).0;
  }

  -- choreo_cancel_goal() is this too.
  unfoldable pub choreo_terminate : Choreo X F → Choreo X F
  choreo_terminate c = elim c.parked [
    | [] ↦ terminate_hard c
    | p ∷ ps ↦ record c {
      goal = p.goal;
      script = p.script;
      parked = ps;
      state = choreo_running;
      bse = engine.resume_intent c.bse;
    }
  ]

  -- The end of choreo_preempt_goal(), behind its guards.
  unfoldable pub park_goal : Choreo X F → Goal F → Choreo X F × Answer
  park_goal c g =
      let (x, done) = engine.preempt_intent c.bse (goal_to_intent g) in
      if not done then (record c { bse = x }, engine_error) else (
        record c {
          goal = g;
          script = record (c.script) { active = false };
          parked = record { goal = c.goal; script = c.script } ∷ c.parked;
          state = choreo_running;
          bse = x;
        },
        accepted,
      )

  unfoldable pub choreo_preempt_goal : Choreo X F → Option (Goal F) → Choreo X F × Answer
  choreo_preempt_goal c none = (c, invalid)
  choreo_preempt_goal c (some g) =
      if is_no_goal g.type
      then (c, invalid)
      else if not (is_active c.state)
      then (c, invalid)
      else if leb max_preempt_depth (length c.parked)
      then (c, busy)
      else if not (caps_satisfied c.hw_caps (derived_caps g))
      then (c, no_capability)
      else park_goal c g

  -- `if (s_state != CHOREO_STATE_IDLE) terminate_hard()`, and the two resets that follow it.
  unfoldable pub start_over : Choreo X F → Choreo X F
  start_over c =
      let c' = if not (is_idle c.state) then terminate_hard c else c in
      record c' { script_done = false; departure = record (c'.departure) { triggered = false } }

  -- choreo_configure() and choreo_deploy(), as the three submissions call them.
  unfoldable pub configure_deploy : Choreo X F → Goal F → Choreo X F × Answer
  configure_deploy c g =
      let (c', answer) = choreo_configure c (some g) in
      elim answer [ accepted ↦ choreo_deploy c' | other ↦ (c', other) ]

  unfoldable pub choreo_submit_goal : Choreo X F → Option (Goal F) → Choreo X F × Answer
  choreo_submit_goal c none = (c, invalid)
  choreo_submit_goal c (some g) = configure_deploy (start_over c) g

  unfoldable pub choreo_init : Choreo X F → ℕ → Choreo X F
  choreo_init c self_id = record c {
    self_id = self_id;
    state = choreo_idle;
    hw_caps = none;
    parked = [];
    membership = record (c.membership) { locked_valid = false };
    tracks = record (c.tracks) { n_tracks = 0 };
    script = no_script;
    script_done = false;
    remote = remote_init c.remote;
    departure = record (c.departure) {
      mode = carry_on;
      reasons = 31;
      min_participants = 0;
      triggered = false;
      triggered_policy = carry_on;
      recall_in_progress = false;
      hold_in_progress = false;
      hold_ms = 0;
      prev_mask_valid = false;
    };
    bse = engine.init self_id c.bse;
  }

  unfoldable pub set_departure_policy : Choreo X F → Policy → ℕ → ℕ → Choreo X F
  set_departure_policy c policy reasons min_participants = record c {
    departure = record (c.departure) {
      mode = policy;
      reasons = reasons;
      min_participants = min_participants;
    };
  }

  -- choreo_register_scr()
  unfoldable pub register_scr : Choreo X F → Option ℕ → Choreo X F
  register_scr c caps = record c { hw_caps = caps }

  -- choreo_current_goal_type()
  unfoldable pub current_goal_type : Choreo X F → GoalType
  current_goal_type c = if is_active c.state then c.goal.type else goal_none

  -- choreo_script_step(); `none` is -1.
  unfoldable pub script_step : Choreo X F → Option ℕ
  script_step c = if c.script.active then some c.script.step_idx else none
