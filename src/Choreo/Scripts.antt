-- ===== src/Choreo/Scripts.antt =====
-- choreo.c: validating and submitting a script, and going on to a step.
use tapestry.Prelude.{
  ℕ, Bool, true, false, not, ◌&&◌, List, [], ◌∷◌, Option, none, some, ltb, leb, ◌==◌, length,
  get_elem?, if◌then◌else◌, u8,
}
use tapestry.Prelude.Floats.{FloatOps}
use tapestry.Choreo.Goals.{caps_satisfied, derived_caps, is_no_goal, motion_spin}
use tapestry.Choreo.Steps.{Transition, Step}
use tapestry.Choreo.State.{Engine, Answer, accepted, invalid, no_capability, Script, Choreo}
use tapestry.Choreo.Lifecycle.{choreo_terminate, start_over, configure_deploy, submit_goal_intent}

-- The inner loop of validate_steps(): is a target past the end?
unfoldable pub past_end : ℕ → List Transition → Bool
past_end n [] = false
past_end n (t ∷ ts) = if ltb n t.goto_step_idx then true else past_end n ts

module _ {F : Type 0} where
  -- The body of the loop of validate_steps(), in a script of `n` steps.
  unfoldable pub validate_step : Option ℕ → Bool → ℕ → Step F → Answer
  validate_step hw check_caps n st =
      if is_no_goal st.goal.type
      then invalid
      else if not st.advance_on_achieved && st.max_duration_ms == 0
      then invalid
      else if st.goal.aim.motion == motion_spin && st.max_duration_ms == 0
      then invalid
      else if check_caps && not (caps_satisfied hw (derived_caps st.goal))
      then no_capability
      else if past_end n st.on
      then invalid
      else accepted

  unfoldable pub validate_from : Option ℕ → Bool → ℕ → List (Step F) → Answer
  validate_from hw check_caps n [] = accepted
  validate_from hw check_caps n (st ∷ sts) = elim (validate_step hw check_caps n st) [
    | accepted ↦ validate_from hw check_caps n sts
    | other ↦ other
  ]

  unfoldable pub validate_steps : Option ℕ → List (Step F) → Bool → Answer
  validate_steps hw [] check_caps = invalid
  validate_steps hw (st ∷ sts) check_caps =
      validate_from hw check_caps (length (st ∷ sts)) (st ∷ sts)

  -- The script engine at the first of some steps.
  abbrev pub first_step : List (Step F) → Script F
  first_step steps = record { steps = steps; step_idx = 0; step_ms = 0; active = true }

  -- `s_steps[s_step_idx]`
  unfoldable pub current_step : Script F → Option (Step F)
  current_step s = get_elem? s.steps s.step_idx

module _ {X F : Type 0} ⦃fl : FloatOps F⦄ (engine : Engine X F) where
  -- What choreo_submit_script() does with steps that are validated.
  unfoldable pub after_deploy : List (Step F) → Choreo X F × Answer → Choreo X F × Answer
  after_deploy steps (c, accepted) = (record c { script = first_step steps }, accepted)
  after_deploy steps (c, other) = (c, other)

  unfoldable pub start_script : Choreo X F → List (Step F) → Choreo X F × Answer
  start_script c [] = (c, invalid)
  start_script c (st ∷ sts) =
      after_deploy (st ∷ sts) (configure_deploy engine (start_over engine c) st.goal)

  -- ... and with what it answers for steps that are not.
  unfoldable pub submit_validated : Answer → Choreo X F → List (Step F) → Choreo X F × Answer
  submit_validated accepted c steps = start_script c steps
  submit_validated other c steps = (c, other)

  unfoldable pub choreo_submit_script : Choreo X F → List (Step F) → Choreo X F × Answer
  choreo_submit_script c steps = submit_validated (validate_steps c.hw_caps steps true) c steps

  -- advance_to().  A read past the end of the steps, which Choreo/Reach rules out, does nothing.
  unfoldable pub advance_to : Choreo X F → ℕ → Choreo X F
  advance_to c target =
      let c' = record c { script = record (c.script) { step_ms = 0 } } in
      if leb (length c.script.steps) target
      then choreo_terminate engine (record c' { script_done = true })
      else elim (get_elem? c.script.steps (u8 target)) [
        | none ↦ c'
        | some st ↦
            submit_goal_intent engine
              (record c' { script = record (c'.script) { step_idx = u8 target }; goal = st.goal })
      ]
