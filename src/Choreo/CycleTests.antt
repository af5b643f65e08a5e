-- ===== src/Choreo/CycleTests.antt =====
-- choreo.c: the theorems on scripts, tracks and departures at concrete elements, with whole numbers for
-- floats and for the state of the engine.
use tapestry.Prelude.{
  ◌↔◌, ℕ, ◌≤◌, ◌≡◌, refl, true, false, List, [], ◌∷◌, none, some, arith, take, count,
}
use tapestry.Prelude.Floats.{whole}
use tapestry.WorldModel.Types.{is_participating}
use tapestry.Scr.Types.{scr_init, is_lost}
use tapestry.Choreo.Remote.{choreo_running, choreo_suspended, choreo_idle, is_running}
use tapestry.Choreo.Goals.{caps_satisfied, derived_caps}
use tapestry.Choreo.Steps.{Track}
use tapestry.Choreo.State.{Choreo, accepted, invalid}
use tapestry.Choreo.Lifecycle.{choreo_preempt_goal, choreo_submit_goal, choreo_init}
use tapestry.Choreo.Scripts.{
  choreo_submit_script, current_step, validate_steps, validate_from, validate_step, past_end,
}
use tapestry.Choreo.Selection.{choreo_submit_tracks, validate_tracks, first_match, track_matches}
use tapestry.Choreo.Departures.{departure_policy_should_fire}
use tapestry.Choreo.Cycle.{choreo_tick, steering, is_isolated}
use tapestry.Choreo.Preemption.{Resumes, choreo_preempt_goal-Resumes}
use tapestry.Choreo.Submission.{Supersedes, choreo_submit_goal-Supersedes}
use tapestry.Choreo.Reach.{Reach, start, next, script_submitted, ticked, HasStep, Reach-HasStep}
use tapestry.Choreo.Quorum.{lost_stops}
use tapestry.Choreo.Isolation.{Inputs, HasLeft, run_ticks, isolated_leaves, preempted_stays}
use tapestry.Choreo.Edges.{IsDeparture, departure_edge}
use tapestry.Choreo.Unmatched.{unmatched_stay}
use tapestry.Choreo.Samples.{
  form, wait_here, two_intents, step_of, show, performing, alone, together, without_quorum,
}

choreo_preempt_goal-Resumes_example :
    Resumes two_intents performing wait_here
      (choreo_preempt_goal two_intents performing (some wait_here))
choreo_preempt_goal-Resumes_example = choreo_preempt_goal-Resumes two_intents performing wait_here

choreo_submit_goal-Supersedes_example :
    Supersedes wait_here (choreo_submit_goal two_intents performing (some wait_here))
choreo_submit_goal-Supersedes_example =
    choreo_submit_goal-Supersedes two_intents performing wait_here (λ e. cc)

-- A show is submitted, and a tick goes by.
abbrev submitted : Choreo ℕ ℕ
submitted = (choreo_submit_script two_intents (choreo_init two_intents performing 1) show).0

submitted-Reach : Reach two_intents submitted
submitted-Reach = next (start performing 1) (script_submitted show (omega arith))

Reach-HasStep_example : HasStep (choreo_tick two_intents submitted together without_quorum none)
Reach-HasStep_example =
    Reach-HasStep two_intents (next submitted-Reach (ticked together without_quorum none))

lost-is_lost : is_lost without_quorum.quorum_state ≡ true
unfolding scr_init
lost-is_lost = refl

lost_stops_example :
    let c = choreo_tick two_intents submitted together without_quorum none in
    (is_running c.state ≡ false) × (steering two_intents c ≡ two_intents.directive c.bse)
lost_stops_example =
    lost_stops two_intents together without_quorum none submitted-Reach lost-is_lost

-- Two seconds of isolation, in the second step of the show.
abbrev partitioned : Choreo ℕ ℕ
partitioned = record performing {
  state = choreo_suspended;
  script = record { steps = show; step_idx = 1; step_ms = 400; active = true };
}

abbrev isolation : List (Inputs ℕ)
isolation = record { wm = alone; scr = without_quorum; point = none } ∷ []

alone-is_isolated : is_isolated alone without_quorum ≡ true
unfolding is_isolated scr_init count is_participating
alone-is_isolated = refl

partitioned_step : current_step partitioned.script ≡ some (step_of wait_here 500 [])
unfolding current_step
partitioned_step = refl

isolated_leaves_example :
    (k : ℕ) × (k ≤ 1) × HasLeft partitioned (run_ticks two_intents (take k isolation) partitioned)
isolated_leaves_example =
    isolated_leaves two_intents isolation partitioned (step_of wait_here 500 [])
      (record {
        suspended = refl;
        active = refl;
        alone = refl;
        current = partitioned_step;
        small = omega arith;
      })
      ((lost-is_lost, alone-is_isolated), tt) (omega arith) (omega arith) (omega arith)
      (omega arith) (omega arith)

-- With the show preempted by the wait.
abbrev on_hold : Choreo ℕ ℕ
on_hold = record performing {
  goal = wait_here;
  state = choreo_suspended;
  script = record { steps = show; step_idx = 0; step_ms = 400; active = false };
  parked = record { goal = form; script = performing.script } ∷ [];
}

preempted_stays_example :
    let c' = run_ticks two_intents isolation on_hold in
    (c'.state ≡ choreo_suspended)
    × (c'.goal ≡ wait_here)
    × (c'.script ≡ on_hold.script)
    × (c'.parked ≡ on_hold.parked)
    × (c'.departure ≡ performing.departure)
preempted_stays_example = preempted_stays two_intents isolation on_hold refl refl (lost-is_lost, tt)

-- Element 2, which took part, is gone.
departure_edge_example :
    ((departure_policy_should_fire performing.departure alone (step_of form 2000 [])).1 ≡ true
      ↔ IsDeparture performing.departure alone (step_of form 2000 []))
    × ((departure_policy_should_fire
          (departure_policy_should_fire performing.departure alone (step_of form 2000 [])).0
          alone
          (step_of wait_here 500 [])).1
        ≡ false)
departure_edge_example =
    departure_edge performing.departure alone (step_of form 2000 []) (step_of wait_here 500 [])

-- A track for elements that can bond, which this one cannot.
abbrev bonding : List (Track ℕ)
bonding =
    record {
      filter = record { required_caps = 2; requires_energy_low = false };
      steps = step_of wait_here 500 [] ∷ [];
    }
    ∷ []

bonding_valid : validate_tracks (some 22) bonding ≡ accepted
unfolding validate_tracks validate_steps validate_from validate_step past_end caps_satisfied
    derived_caps
bonding_valid = refl

bonding_unmatched : first_match (some 22) alone 1 0 bonding ≡ none
unfolding first_match track_matches caps_satisfied
bonding_unmatched = refl

unmatched_stay_example :
    let (c, answer) = choreo_submit_tracks two_intents performing alone bonding in
    let (c', answer') = choreo_submit_script two_intents c show in
    (answer ≡ invalid)
    × (c.state ≡ choreo_idle)
    × (answer' ≡ accepted → (c'.state ≡ choreo_running) × (c'.tracks.n_tracks ≡ 1))
unmatched_stay_example = unmatched_stay two_intents performing alone bonding show (record {
  some_ = omega arith;
  few = omega arith;
  valid = bonding_valid;
  unmatched = bonding_unmatched;
})
