-- ===== src/Choreo/Preemption.antt =====
-- A goal that preempts another one gives way to it again.
use tapestry.Prelude.{◌≡◌, false, some, arith}
use tapestry.Prelude.Floats.{FloatOps}
use tapestry.Choreo.Remote.{choreo_running}
use tapestry.Choreo.Goals.{Goal, goal_to_intent}
use tapestry.Choreo.State.{Engine, Answer, accepted, Choreo}
use tapestry.Choreo.Lifecycle.{park_goal, choreo_preempt_goal, choreo_terminate}

module _ {X F : Type 0} ⦃fl : FloatOps F⦄ (engine : Engine X F) where
  -- What an answer to a preemption means, and what terminating the goal then does.
  abbrev pub Resumes : Choreo X F → Goal F → Choreo X F × Answer → Type 0
  Resumes c g (c', accepted) =
      (c'.state ≡ choreo_running)
      × (c'.goal ≡ g)
      × (c'.script.active ≡ false)
      × (c'.bse ≡ (engine.preempt_intent c.bse (goal_to_intent g)).0)
      × (choreo_terminate engine c'
          ≡ record c { state = choreo_running; bse = engine.resume_intent c'.bse })
  Resumes c g (c', _) = c' ≡ record c { bse = c'.bse }

  -- A goal that is accepted in preemption runs, with no script, and terminating it brings back the goal and the
  -- script that it preempted, exactly where they were, running, with the engine's own resumption; a
  -- goal that is not accepted changes nothing outside the engine.
  pub choreo_preempt_goal-Resumes :
      (c : Choreo X F) (g : Goal F) → Resumes c g (choreo_preempt_goal engine c (some g))
  unfolding park_goal choreo_preempt_goal choreo_terminate
  choreo_preempt_goal-Resumes c g = ground arith
