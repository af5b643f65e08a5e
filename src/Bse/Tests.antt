-- ===== src/Bse/Tests.antt =====
-- bse.c: the theorems at concrete elements, with whole numbers for floats.
use tapestry.Prelude.{
  ℕ, ◌≡◌, ◌≢◌, refl, true, false, List, [], ◌∷◌, Option, none, some, arith, leb, if◌then◌else◌,
}
use tapestry.Prelude.Floats.{whole}
use tapestry.Facts.Types.{Position, Fact, FactKey}
use tapestry.WorldModel.Types.{WorldModel}
use tapestry.Scr.Types.{ScrState}
use tapestry.Choreo.Goals.{Goal, Intent, goal_to_intent, intent_form, intent_hold}
use tapestry.Choreo.State.{Choreo, engine_error, is_active}
use tapestry.Choreo.Lifecycle.{choreo_init, choreo_preempt_goal}
use tapestry.Choreo.Scripts.{choreo_submit_script}
use tapestry.Choreo.Cycle.{choreo_tick}
use tapestry.Choreo.Reach.{Reach, start, next, script_submitted, ticked, preempted}
use tapestry.Choreo.Samples.{forming, wait_here, show, performing, together, without_quorum}
use tapestry.Bse.Types.{TrigOps, Activation, Bse}
use tapestry.Bse.Participants.{Participant}
use tapestry.Bse.Assign.{
  match_slots, form_assign_slot, slot_of, add_participants, add_participant, augment, search_path,
  visit, reprice, scan, reduced_cost,
}
use tapestry.Bse.Intents.{bse_submit_intent, bse_preempt_intent, bse_resume_intent}
use tapestry.Bse.Kept.{run_ticks, preempt_resume}
use tapestry.Bse.Patience.{achieved_waits}
use tapestry.Bse.Stations.{HeadsFor, exchange_shares_stations}
use tapestry.Bse.Served.{AreServed, bse_engine}
use tapestry.Bse.Composition.{Reach-IsServed}

-- On whole numbers, angles are heights.
abbrev flat : TrigOps ℕ
flat = record {
  sinf = λ a. a;
  cosf = λ a. 1;
  atan2f = λ y x. y;
  ceil_ℕ = λ a. a;
  infinity = 1000000;
  neg = λ a. 0;
  fminf = λ a b. if leb a b then a else b;
  fmaxf = λ a b. if leb a b then b else a;
}

abbrev place : ℕ → ℕ → Position ℕ
place x y = record { x = x; y = y; z = 1 }

abbrev first_key : FactKey
first_key = record { type = 1; origin = 2; epoch = 3; seq = 4 }

abbrev second_key : FactKey
second_key = record { type = 1; origin = 2; epoch = 3; seq = 5 }

-- Half way to an achievement, with a landmark locked.
abbrev busy_act : Activation ℕ
busy_act = record {
  achieved = true;
  achieve_accum_ms = 600;
  hold_captured = false;
  hold_station = place 0 0;
  ex_captured = false;
  ex_dest = place 0 0;
  ex_centroid = place 0 0;
  ex_theta0 = 0;
  ex_dtheta = 0;
  ex_r0 = 0;
  ex_r1 = 0;
  ex_progress = 0;
  move_captured = false;
  move_offset = place 0 0;
  spin_theta = 3;
  anchor_locked = false;
  anchor_locked_id = 0;
  anchor_candidate_valid = false;
  anchor_candidate_id = 0;
  anchor_candidate_ms = 0;
  landmark_locked = true;
  landmark_locked_key = first_key;
  landmark_candidate_valid = false;
  landmark_candidate_key = first_key;
  landmark_candidate_ms = 0;
}

abbrev shaping : Intent ℕ
shaping = record { type = intent_form; aim = forming }

abbrev staying : Intent ℕ
staying = record { type = intent_hold; aim = forming }

abbrev engaged : Bse ℕ
engaged = record {
  self_id = 1;
  intent = shaping;
  directive = record { type = 2; target = place 4 5; spring_k = 0; spacing = 0 };
  track_scope = 0;
  act = busy_act;
  goal_pt_valid = true;
  goal_pt = place 4 5;
  anchor_lost = false;
  prev_goal_valid = false;
  prev_goal_pt = place 0 0;
  parked = [];
  form_bounds_set = true;
  form_min_x = 0;
  form_min_y = 0;
  form_max_x = 9;
  form_max_y = 9;
}

abbrev two_ticks : List (WorldModel ℕ × ScrState)
two_ticks = (together, without_quorum) ∷ (together, without_quorum) ∷ []

preempt_resume_example :
    let (b', resumed) =
      bse_resume_intent (run_ticks flat two_ticks (bse_preempt_intent engaged (some staying)).0) in
    (b'.intent ≡ shaping) × (b'.act ≡ busy_act) × (b'.parked ≡ []) × (resumed ≡ true)
preempt_resume_example = preempt_resume flat engaged staying two_ticks refl

-- The formation is to be held for half a second.
achieved_waits_example :
    (run_ticks flat two_ticks (bse_submit_intent engaged (some shaping)).0).act.achieved ≡ false
achieved_waits_example = achieved_waits flat engaged shaping two_ticks refl (omega arith)

abbrev landmark : FactKey → ℕ → Fact ℕ
landmark key x = record { key = key; flags = 0; stamp = 5; pos = place x 0; attr = 7 }

-- The locked landmark, with another that holds the rank.
abbrev look : Fact ℕ × Fact ℕ
look = (landmark first_key 1, landmark second_key 8)

abbrev three : List (Participant ℕ)
three =
    record { id = 1; position = place 0 0 }
    ∷ record { id = 4; position = place 6 0 }
    ∷ record { id = 7; position = place 3 9 }
    ∷ []

exchange_shares_stations_example :
    (d1 : ℕ) × (d2 : ℕ) × HeadsFor flat engaged three 0 d1
    × HeadsFor flat engaged three 2 d2
    × (d1 ≢ d2)
exchange_shares_stations_example =
    exchange_shares_stations flat engaged engaged three 0 2 refl (omega arith) (omega arith)
      (λ e. omega (arith, e))

-- The show of Choreo/Samples over this engine: submitted, ticked, and preempted.
abbrev waiting : Choreo (Bse ℕ) ℕ
waiting = record {
  self_id = 1;
  goal = performing.goal;
  state = performing.state;
  hw_caps = some 22;
  script = performing.script;
  script_done = false;
  parked = [];
  membership = performing.membership;
  departure = performing.departure;
  tracks = performing.tracks;
  remote = performing.remote;
  bse = engaged;
}

abbrev shown : Choreo (Bse ℕ) ℕ
shown = (choreo_submit_script (bse_engine flat) (choreo_init (bse_engine flat) waiting 1) show).0

abbrev interrupted : Choreo (Bse ℕ) ℕ
interrupted =
    (choreo_preempt_goal (bse_engine flat)
      (choreo_tick (bse_engine flat) shown together without_quorum none) (some wait_here)).0

interrupted-Reach : Reach (bse_engine flat) interrupted
interrupted-Reach =
    next
      (next (next (start waiting 1) (script_submitted show (omega arith)))
        (ticked together without_quorum none))
      (preempted (some wait_here))

Reach-IsServed_example :
    (is_active interrupted.state ≡ true → interrupted.bse.intent ≡ goal_to_intent interrupted.goal)
    × AreServed interrupted.parked interrupted.bse.parked
    × ((g : Option (Goal ℕ))
        → (choreo_preempt_goal (bse_engine flat) interrupted g).1 ≢ engine_error)
Reach-IsServed_example = Reach-IsServed flat interrupted-Reach

-- Of two elements and two slots, the second element takes the slot that is nearer to it.
crossed : form_assign_slot flat (place 0 0 ∷ place 6 0 ∷ []) (place 5 0 ∷ place 1 0 ∷ []) 2 1 ≡ 0
unfolding form_assign_slot slot_of match_slots add_participants add_participant augment search_path
    visit reprice scan reduced_cost
crossed = refl
