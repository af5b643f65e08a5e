-- ===== src/Choreo/Reach.antt =====
-- choreo.c: any sequence of operations, as a step relation from choreo_init().
use tapestry.Prelude.{
  ℕ, ◌≤◌, ◌<◌, ◌≡◌, refl, ◌⊎◌, inl, inr, true, false, List, [], Option, none, some, arith, length,
  get_elem?, Option-cases, length-lt,
}
use tapestry.Prelude.Floats.{FloatOps}
use tapestry.Facts.Types.{Position}
use tapestry.WorldModel.Types.{WorldModel}
use tapestry.Scr.Types.{ScrState}
use tapestry.Runtime.Cycle.{Directive}
use tapestry.Choreo.Remote.{choreo_remote_directive}
use tapestry.Choreo.Goals.{Goal}
use tapestry.Choreo.Steps
use tapestry.Choreo.Steps.{Track, Policy}
use tapestry.Choreo.State.{Engine, Script, Choreo, is_active}
use tapestry.Choreo.Lifecycle.{
  choreo_init, choreo_configure, choreo_deploy, choreo_terminate, choreo_preempt_goal,
  choreo_submit_goal, register_scr, set_departure_policy, start_over,
}
use tapestry.Choreo.Scripts.{choreo_submit_script, current_step}
use tapestry.Choreo.Selection.{choreo_submit_tracks}
use tapestry.Choreo.Cycle.{choreo_tick}
use tapestry.Choreo.Sound.{IsSound}
use tapestry.Choreo.Kept.{
  no_script-IsScript, choreo_configure-IsSound, choreo_deploy-IsSound, choreo_terminate-IsSound,
  choreo_preempt_goal-IsSound, start_over-IsSound, configure_deploy-IsSound,
}
use tapestry.Choreo.Loading.{choreo_submit_script-IsSound}
use tapestry.Choreo.TrackLoading.{AreShort, HasMatch, choreo_submit_tracks-IsSound}
use tapestry.Choreo.Ticking.{choreo_tick-IsSound}

pub step_of :
    {F : Type 0} (s : Script F)
    → s.step_idx < length s.steps
    → (st : Steps.Step F) × (current_step s ≡ some st)
unfolding current_step
step_of s h = elim (Option-cases (get_elem? s.steps s.step_idx)) [
  | inl e ↦ absurd (omega (arith, length-lt s.steps s.step_idx e))
  | inr k ↦ k
]

module _ {X F : Type 0} where
  -- An active script has a current step, at most one goal is parked, no script runs meanwhile, and an
  -- element that is not active has nothing left.
  abbrev pub HasStep : Choreo X F → Type 0
  HasStep c =
      (c.script.active ≡ true → (st : Steps.Step F) × (current_step c.script ≡ some st))
      × (length c.parked ≤ 1)
      × ((c.parked ≡ []) ⊎ (c.script.active ≡ false))
      × ((is_active c.state ≡ true)
          ⊎ ((c.script.active ≡ false) × (c.parked ≡ []) × (c.tracks.n_tracks ≡ 0)))

module _ {X F : Type 0} ⦃fl : FloatOps F⦄ (engine : Engine X F) where
  -- What the application, the transport and the runtime may do.
  pub data Step (c : Choreo X F) : Choreo X F → Type 0 where
    configured : (g : Option (Goal F)) → Step c (choreo_configure engine c g).0
    deployed : Step c (choreo_deploy engine c).0
    terminated : Step c (choreo_terminate engine c)
    preempted : (g : Option (Goal F)) → Step c (choreo_preempt_goal engine c g).0
    goal_submitted : (g : Option (Goal F)) → Step c (choreo_submit_goal engine c g).0
    script_submitted :
        (sts : List (Steps.Step F))
        → length sts < 256
        → Step c (choreo_submit_script engine c sts).0
    tracks_submitted :
        (wm : WorldModel F) (ts : List (Track F))
        → AreShort ts
        → HasMatch c wm ts
        → Step c (choreo_submit_tracks engine c wm ts).0
    registered : (caps : Option ℕ) → Step c (register_scr engine c caps)
    policy_set :
        (p : Policy) (reasons min_participants : ℕ)
        → Step c (set_departure_policy engine c p reasons min_participants)
    steered :
        (d : Directive F) (goal_id src_id : ℕ)
        → Step c (record c { remote = choreo_remote_directive c.remote d goal_id src_id })
    ticked :
        (wm : WorldModel F) (scr : ScrState) (point : Option (Position F))
        → Step c (choreo_tick engine c wm scr point)

  pub data Reach : Choreo X F → Type 0 where
    start : (c : Choreo X F) (self_id : ℕ) → Reach (choreo_init engine c self_id)
    next : {c c' : Choreo X F} → Reach c → Step c c' → Reach c'

  choreo_init-IsSound : (c : Choreo X F) (self_id : ℕ) → IsSound (choreo_init engine c self_id)
  unfolding choreo_init
  choreo_init-IsSound c self_id = record {
    script = no_script-IsScript;
    parked = tt;
    one = omega arith;
    quiet = inl refl;
    cleared = inr (refl, refl, refl);
    tracks = inl refl;
  }

  choreo_submit_goal-IsSound :
      (c : Choreo X F) (g : Option (Goal F)) → IsSound c → IsSound (choreo_submit_goal engine c g).0
  unfolding choreo_submit_goal
  choreo_submit_goal-IsSound c none ok = ok
  choreo_submit_goal-IsSound c (some g) ok =
      configure_deploy-IsSound engine (start_over engine c) g (start_over-IsSound engine c ok)

  Step-IsSound : {c c' : Choreo X F} → Step c c' → IsSound c → IsSound c'
  unfolding register_scr set_departure_policy
  Step-IsSound {c} (configured g) ok = choreo_configure-IsSound engine c g ok
  Step-IsSound {c} deployed ok = choreo_deploy-IsSound engine c ok
  Step-IsSound {c} terminated ok = choreo_terminate-IsSound engine c ok
  Step-IsSound {c} (preempted g) ok = choreo_preempt_goal-IsSound engine c g ok
  Step-IsSound {c} (goal_submitted g) ok = choreo_submit_goal-IsSound c g ok
  Step-IsSound {c} (script_submitted sts small) ok =
      choreo_submit_script-IsSound engine c sts small ok
  Step-IsSound {c} (tracks_submitted wm ts small m) ok =
      choreo_submit_tracks-IsSound engine c wm ts small m ok
  Step-IsSound (registered caps) ok = ok
  Step-IsSound (policy_set p reasons n) ok = ok
  Step-IsSound (steered d goal_id src_id) ok = ok
  Step-IsSound {c} (ticked wm scr point) ok = choreo_tick-IsSound engine c wm scr point ok

  pub Reach-IsSound : {c : Choreo X F} → Reach c → IsSound c
  Reach-IsSound (start c self_id) = choreo_init-IsSound c self_id
  Reach-IsSound (next r s) = Step-IsSound s (Reach-IsSound r)

  -- Whatever the application submits, preempts, configures and terminates, whatever the ticks bring,
  -- and whatever the engine answers: an active script has a current step, so that no step is read past
  -- the end of a script; at most one goal is parked, and then no script runs; and an element that
  -- neither runs nor is suspended has no script, no parked goal and no tracks left.  The conditions on
  -- what happens are two: a submission's numbers of steps fit a uint8_t, and tracks are submitted only to
  -- an element that one of them admits.  Tracks that none admits stay in use, see Unmatched.
  pub Reach-HasStep : {c : Choreo X F} → Reach c → HasStep c
  Reach-HasStep r =
      let ok = Reach-IsSound r in
      (λ u. step_of _ (ok.script.placed u), ok.one, ok.quiet, ok.cleared)
