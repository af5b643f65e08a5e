-- ===== src/Bse/Serving.antt =====
-- choreo.c over bse.c: the operations on goals keep the engine at the choreography's service.
use mathlib.Core.Path.{◌∙◌}
use tapestry.Prelude.{
  ◌<◌, ◌≡◌, ◌≢◌, refl, inl, inr, Bool, true, false, not, List, [], ◌∷◌, Option, none, some, arith,
  length, leb, if◌then◌else◌, Bool-cases,
}
use tapestry.Prelude.Floats.{FloatOps}
use tapestry.Choreo.Remote.{choreo_running}
use tapestry.Choreo.Goals.{Goal, goal_to_intent, is_no_goal, caps_satisfied, derived_caps}
use tapestry.Choreo.State.{
  Answer, accepted, engine_error, Parked, Choreo, max_preempt_depth, is_active, is_idle,
  is_configured,
}
use tapestry.Choreo.Lifecycle.{
  terminate_hard, choreo_terminate, choreo_configure, choreo_deploy, choreo_preempt_goal, park_goal,
  start_over, configure_deploy,
}
use tapestry.Bse.Types.{TrigOps, Bse}
use tapestry.Bse.Intents.{bse_submit_intent, bse_set_track_scope}
use tapestry.Bse.Served.{
  bse_engine, AreServed, IsServed, submit-Served, quiet-Served, preempt-Served, resume-Served,
}

module _ {F : Type 0} ⦃fl : FloatOps F⦄ (trig : TrigOps F) where
  -- Of two choreographies, and of two with their answers.
  pub IsServed-if :
      (t : Bool) (c1 c2 : Choreo (Bse F) F)
      → IsServed c1
      → IsServed c2
      → IsServed (if t then c1 else c2)
  IsServed-if true c1 c2 s1 s2 = s1
  IsServed-if false c1 c2 s1 s2 = s2

  pub IsServed-either :
      (t : Bool) (r1 r2 : Choreo (Bse F) F × Answer)
      → IsServed r1.0
      → IsServed r2.0
      → IsServed (if t then r1 else r2).0
  IsServed-either true r1 r2 s1 s2 = s1
  IsServed-either false r1 r2 s1 s2 = s2

  pub terminate_hard-IsServed :
      (c : Choreo (Bse F) F) → IsServed (terminate_hard (bse_engine trig) c)
  unfolding terminate_hard
  terminate_hard-IsServed c = quiet-Served c.goal (bse_set_track_scope c.bse 0) _

  pub choreo_terminate-IsServed :
      (c : Choreo (Bse F) F) → IsServed c → IsServed (choreo_terminate (bse_engine trig) c)
  unfolding choreo_terminate
  choreo_terminate-IsServed c k = go c.parked k.parked
    where
      go :
          (ps : List (Parked F))
          → AreServed ps c.bse.parked
          → IsServed (elim ps [
            | [] ↦ terminate_hard (bse_engine trig) c
            | p ∷ ps ↦ record c {
              goal = p.goal;
              script = p.script;
              parked = ps;
              state = choreo_running;
              bse = (bse_engine trig).resume_intent c.bse;
            }
          ])
      go [] s = terminate_hard-IsServed c
      go (p ∷ ps) s = resume-Served choreo_running p ps c.bse c.bse.parked refl s

  pub choreo_configure-IsServed :
      (c : Choreo (Bse F) F) (g : Option (Goal F))
      → IsServed c
      → IsServed (choreo_configure (bse_engine trig) c g).0
  unfolding choreo_configure
  choreo_configure-IsServed c none k = k
  choreo_configure-IsServed c (some g) k = IsServed-either (is_no_goal g.type) _ _ k (
      IsServed-either (not (is_idle c.state)) _ _ k (
        IsServed-either (not (caps_satisfied c.hw_caps (derived_caps g))) _ _ k
          (record { parked = k.parked; current = λ a. cc })))

  choreo_configure-parked :
      (c : Choreo (Bse F) F) (g : Goal F)
      → (choreo_configure (bse_engine trig) c (some g)).0.parked ≡ c.parked
  unfolding choreo_configure
  choreo_configure-parked c g = ground arith

  pub choreo_deploy-IsServed :
      (c : Choreo (Bse F) F)
      → c.parked ≡ []
      → IsServed c
      → IsServed (choreo_deploy (bse_engine trig) c).0
  unfolding choreo_deploy
  choreo_deploy-IsServed c e k = IsServed-either (not (is_configured c.state)) _ _ k (
      IsServed-either (bse_submit_intent c.bse (some (goal_to_intent c.goal))).1 _ _
        (submit-Served choreo_running c.goal c.parked c.bse e)
        (submit-Served c.state c.goal c.parked c.bse e))

  pub configure_deploy-IsServed :
      (c : Choreo (Bse F) F) (g : Goal F)
      → c.parked ≡ []
      → IsServed c
      → IsServed (configure_deploy (bse_engine trig) c g).0
  unfolding configure_deploy
  configure_deploy-IsServed c g e k =
      go (choreo_configure (bse_engine trig) c (some g)) (choreo_configure-parked c g ∙ e)
        (choreo_configure-IsServed c (some g) k)
    where
      go :
          (r : Choreo (Bse F) F × Answer)
          → r.0.parked ≡ []
          → IsServed r.0
          → IsServed
              (elim r.1 as (λ x. Choreo (Bse F) F × Answer) [
                | accepted ↦ choreo_deploy (bse_engine trig) (r.0)
                | other ↦ (r.0, other)
              ]).0
      go (c', accepted) e' k' = choreo_deploy-IsServed c' e' k'
      go (c', _) e' k' = k'

  pub start_over-IsServed :
      (c : Choreo (Bse F) F) → IsServed c → IsServed (start_over (bse_engine trig) c)
  unfolding start_over
  start_over-IsServed c k =
      let s =
        IsServed-if (not (is_idle c.state)) (terminate_hard (bse_engine trig) c) c
          (terminate_hard-IsServed c) k in
      record { parked = s.parked; current = s.current }

  park_goal-IsServed :
      (c : Choreo (Bse F) F) (g : Goal F)
      → is_active c.state ≡ true
      → length c.parked < 1
      → IsServed c
      → IsServed (park_goal (bse_engine trig) c g).0
        × ((park_goal (bse_engine trig) c g).1 ≡ accepted)
  unfolding park_goal
  park_goal-IsServed c g a h k =
      let (s, d) = preempt-Served c.state c.goal g c.script c.parked c.bse a h k in
      rw (park_goal, d) (s, refl)

  -- What a preemption answers is never an error of the engine.
  pub choreo_preempt_goal-IsServed :
      (c : Choreo (Bse F) F) (g : Option (Goal F))
      → IsServed c
      → IsServed (choreo_preempt_goal (bse_engine trig) c g).0
        × ((choreo_preempt_goal (bse_engine trig) c g).1 ≢ engine_error)
  unfolding choreo_preempt_goal
  choreo_preempt_goal-IsServed c none k = (k, λ e. cc)
  choreo_preempt_goal-IsServed c (some g) k = elim (Bool-cases (is_no_goal g.type)) [
    | inl e ↦ rw e (k, λ e. cc)
    | inr e ↦ rw e elim (Bool-cases (is_active c.state)) [
      | inr a ↦ rw a (k, λ e. cc)
      | inl a ↦ rw a elim (Bool-cases (leb max_preempt_depth (length c.parked))) [
        | inl h ↦ rw h (k, λ e. cc)
        | inr h ↦ rw h elim (Bool-cases (not (caps_satisfied c.hw_caps (derived_caps g)))) [
          | inl s ↦ rw s (k, λ e. cc)
          | inr s ↦ rw s (let (s', d) = park_goal-IsServed c g a (ground arith) k in (s', λ e. cc))
        ]
      ]
    ]
  ]
