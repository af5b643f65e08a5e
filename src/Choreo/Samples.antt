-- ===== src/Choreo/Samples.antt =====
-- choreo.c: goals, a script and an element for the tests, over an engine that is a number.
use tapestry.Prelude.{ℕ, zero, suc, ◌+◌, true, false, List, [], ◌∷◌, none, some, ltb, if◌then◌else◌}
use tapestry.Prelude.Floats.{whole}
use tapestry.WorldModel.Types.{WorldModel}
use tapestry.WorldModel.Samples.{entry_of, world_of}
use tapestry.Scr.Types.{ScrState, scr_init}
use tapestry.Choreo.Remote.{choreo_running}
use tapestry.Choreo.Goals.{Goal, Aim, goal_form, goal_hold}
use tapestry.Choreo.Steps.{Step, Transition, element_lost, scope_self, carry_on, land_in_place}
use tapestry.Choreo.State.{Engine, Choreo}

abbrev pub forming : Aim ℕ
forming = record {
  target = record { x = 1; y = 2; z = 0 };
  radius = 5;
  shape = 1;
  frame = 0;
  anchor = 0;
  anchor_id = 0;
  landmark_type = 0;
  landmark_rank = 0;
  motion = 1;
  spin_rate_radps = 1;
  rotation_rad = 0;
  slot_shift = 0;
  direct_path = false;
  achieve_eps = 1;
  achieve_hold_ms = 500;
  id = 7;
}

abbrev pub form : Goal ℕ
form = record { type = goal_form; required_caps = 0; aim = forming }

abbrev pub wait_here : Goal ℕ
wait_here = record {
  type = goal_hold;
  required_caps = 4;
  aim = record forming { motion = 0; id = 8 };
}

abbrev pub pred : ℕ → ℕ
pred zero = 0
pred (suc n) = n

-- An engine that counts the intents it holds, and takes two.
abbrev pub two_intents : Engine ℕ ℕ
two_intents = record {
  init = λ id n. 0;
  submit_intent = λ n i. (1, true);
  preempt_intent = λ n i. if ltb n 2 then (n + 1, true) else (n, false);
  resume_intent = λ n. pred n;
  set_track_scope = λ n scope. n;
  engine_tick = λ n wm scr. n;
  goal_achieved = λ n. false;
  anchor_gone = λ n. false;
  directive =
      λ n. record { type = n; target = record { x = 0; y = 0; z = 0 }; spring_k = 1; spacing = 1 };
}

abbrev pub step_of : Goal ℕ → ℕ → List Transition → Step ℕ
step_of g ms on = record {
  goal = g;
  max_duration_ms = ms;
  advance_on_achieved = false;
  scope = scope_self;
  on = on;
  on_departure_set = false;
  on_departure = carry_on;
  indicator = 0;
  telemetry_tag = none;
}

-- A formation of two seconds that ends early when an element is lost, and a wait of half a second.
abbrev pub show : List (Step ℕ)
show =
    step_of form 2000
      (record { event = element_lost; threshold = 0; goto_step_idx = 2; fact_type = 0 } ∷ [])
    ∷ step_of wait_here 500 []
    ∷ []

-- In the first step, on an element that moves, senses and knows its position.
abbrev pub performing : Choreo ℕ ℕ
performing = record {
  self_id = 1;
  goal = form;
  state = choreo_running;
  hw_caps = some 22;
  script = record { steps = show; step_idx = 0; step_ms = 400; active = true };
  script_done = false;
  parked = [];
  membership = record { locked_valid = true; locked = 3; candidate = 0; candidate_ms = 0 };
  departure = record {
    mode = land_in_place;
    reasons = 31;
    min_participants = 0;
    triggered = false;
    triggered_policy = carry_on;
    recall_in_progress = false;
    hold_in_progress = false;
    hold_ms = 0;
    prev_mask = 4;
    prev_mask_valid = true;
  };
  tracks = record {
    table = [];
    n_tracks = 0;
    active_idx = 0;
    step_idxs = [];
    candidate_idx = 0;
    candidate_valid = false;
    candidate_ms = 0;
  };
  remote = record {
    dir = two_intents.directive 9;
    goal_id = 1;
    src = 0;
    seen = false;
    age_ms = 0;
    fresh_ms = 0;
    adopted = false;
  };
  bse = 1;
}

-- Element 1 alone, and with element 2.
abbrev pub alone : WorldModel ℕ
alone = world_of 1 (record (entry_of 1) { is_self = true } ∷ [])

abbrev pub together : WorldModel ℕ
together = world_of 1 (record (entry_of 1) { is_self = true } ∷ entry_of 2 ∷ [])

abbrev pub without_quorum : ScrState
without_quorum = scr_init 1 1 2 22
