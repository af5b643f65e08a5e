-- ===== src/Choreo/Submission.antt =====
-- A goal that is submitted puts an end to whatever the element was doing.
use tapestry.Prelude.{arith, ◌≡◌, refl, true, false, [], some}
use tapestry.Prelude.Floats.{FloatOps}
use tapestry.Choreo.Remote.{
  ChoreoState, choreo_idle, choreo_configured, choreo_running, choreo_suspended, choreo_terminated,
}
use tapestry.Choreo.Goals.{Goal}
use tapestry.Choreo.State.{Engine, Answer, accepted, engine_error, Choreo, is_idle}
use tapestry.Choreo.Lifecycle.{
  terminate_hard, choreo_configure, choreo_deploy, start_over, configure_deploy, choreo_submit_goal,
}

pub is_idle_lem : (s : ChoreoState) → is_idle s ≡ true → s ≡ choreo_idle
is_idle_lem choreo_idle h = refl
is_idle_lem choreo_configured h = cc
is_idle_lem choreo_running h = cc
is_idle_lem choreo_suspended h = cc
is_idle_lem choreo_terminated h = cc

module _ {X F : Type 0} where
  -- No script runs, nothing is parked, and there are no tracks.
  abbrev pub IsCleared : Choreo X F → Type 0
  IsCleared c = (c.script.active ≡ false) × (c.parked ≡ []) × (c.tracks.n_tracks ≡ 0)

  -- What an answer to a submission means.
  abbrev pub Supersedes : Goal F → Choreo X F × Answer → Type 0
  Supersedes g (c, accepted) = (c.state ≡ choreo_running) × (c.goal ≡ g) × IsCleared c
  Supersedes g (c, engine_error) = (c.state ≡ choreo_configured) × (c.goal ≡ g) × IsCleared c
  Supersedes g (c, _) = (c.state ≡ choreo_idle) × IsCleared c

module _ {X F : Type 0} ⦃fl : FloatOps F⦄ (engine : Engine X F) where
  pub start_over-IsCleared :
      (c : Choreo X F)
      → (c.state ≡ choreo_idle → IsCleared c)
      → ((start_over engine c).state ≡ choreo_idle) × IsCleared (start_over engine c)
  unfolding terminate_hard start_over
  start_over-IsCleared c h = ground (arith, is_idle_lem c.state)

  pub configure_deploy-Supersedes :
      (c : Choreo X F) (g : Goal F)
      → c.state ≡ choreo_idle
      → IsCleared c
      → Supersedes g (configure_deploy engine c g)
  unfolding configure_deploy choreo_configure choreo_deploy
  configure_deploy-Supersedes c g e k = ground arith

  -- A submitted goal replaces what the element was doing, script, parked goals and tracks included: it
  -- runs if it is accepted; if the engine refuses it, it stays configured; and if the goal is refused
  -- for what it is or needs, the element is idle.  The condition is that an idle element has no script,
  -- parked goal or tracks left over, which tracks submitted without a match can violate.
  pub choreo_submit_goal-Supersedes :
      (c : Choreo X F) (g : Goal F)
      → (c.state ≡ choreo_idle → IsCleared c)
      → Supersedes g (choreo_submit_goal engine c (some g))
  unfolding choreo_submit_goal
  choreo_submit_goal-Supersedes c g h =
      let (e, k) = start_over-IsCleared c h in
      configure_deploy-Supersedes (start_over engine c) g e k
