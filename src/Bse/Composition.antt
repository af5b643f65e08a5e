-- ===== src/Bse/Composition.antt =====
-- choreo.c over bse.c, as choreo.c calls it: whatever happens, the engine pursues the goal that the
-- choreography has.
use tapestry.Prelude.{
  ℕ, ◌≡◌, ◌≢◌, inl, inr, true, ◌||◌, List, [], ◌∷◌, Option, none, some, arith, length, ltb, ◌==◌,
  get_elem?,
}
use tapestry.Prelude.Floats.{FloatOps}
use tapestry.WorldModel.Types.{WorldModel}
use tapestry.Choreo.Goals.{Goal, goal_to_intent}
use tapestry.Choreo.Steps
use tapestry.Choreo.Steps.{Track}
use tapestry.Choreo.State.{Answer, accepted, engine_error, Choreo, is_active, max_tracks}
use tapestry.Choreo.Lifecycle.{
  choreo_init, choreo_deploy, choreo_preempt_goal, choreo_submit_goal, register_scr,
  set_departure_policy, start_over,
}
use tapestry.Choreo.Scripts.{
  after_deploy, start_script, submit_validated, validate_steps, choreo_submit_script,
}
use tapestry.Choreo.Selection.{
  after_tracks, start_track, start_at, start_matching, start_tracks, submit_valid_tracks,
  validate_tracks, choreo_submit_tracks, load_tracks,
}
use tapestry.Choreo.Sound.{IsSound}
use tapestry.Choreo.Loading.{cleared_lem}
use tapestry.Choreo.Submission.{start_over-IsCleared}
use tapestry.Choreo.Reach.{
  Step, Reach, start, next, configured, deployed, terminated, preempted, goal_submitted,
  script_submitted, tracks_submitted, registered, policy_set, steered, ticked, Reach-IsSound,
}
use tapestry.Bse.Types.{TrigOps, Bse}
use tapestry.Bse.Intents.{bse_init, reset_activation}
use tapestry.Bse.Served.{bse_engine, AreServed, nothing, IsServed}
use tapestry.Bse.Serving.{
  IsServed-either, choreo_terminate-IsServed, choreo_configure-IsServed, choreo_deploy-IsServed,
  configure_deploy-IsServed, start_over-IsServed, choreo_preempt_goal-IsServed,
}
use tapestry.Bse.Pursuit.{choreo_tick-IsServed}

module _ {F : Type 0} ⦃fl : FloatOps F⦄ (trig : TrigOps F) where
  choreo_init-IsServed :
      (c : Choreo (Bse F) F) (self_id : ℕ) → IsServed (choreo_init (bse_engine trig) c self_id)
  unfolding choreo_init bse_init reset_activation
  choreo_init-IsServed c self_id = record { parked = nothing; current = λ a. cc }

  -- After the reset that opens a submission, no goal is parked.
  started_lem : (c : Choreo (Bse F) F) → IsSound c → (start_over (bse_engine trig) c).parked ≡ []
  started_lem c ok = (start_over-IsCleared (bse_engine trig) c (cleared_lem c ok)).1.1

  submit_goal-IsServed :
      (c : Choreo (Bse F) F) (g : Option (Goal F))
      → IsSound c
      → IsServed c
      → IsServed (choreo_submit_goal (bse_engine trig) c g).0
  unfolding choreo_submit_goal
  submit_goal-IsServed c none ok k = k
  submit_goal-IsServed c (some g) ok k =
      configure_deploy-IsServed trig (start_over (bse_engine trig) c) g (started_lem c ok)
        (start_over-IsServed trig c k)

  after_deploy-IsServed :
      (sts : List (Steps.Step F)) (r : Choreo (Bse F) F × Answer)
      → IsServed r.0
      → IsServed (after_deploy (bse_engine trig) sts r).0
  unfolding after_deploy
  after_deploy-IsServed sts (c, accepted) k = record { parked = k.parked; current = k.current }
  after_deploy-IsServed sts (c, _) k = k

  submit_validated-IsServed :
      (a : Answer) (c : Choreo (Bse F) F) (sts : List (Steps.Step F))
      → IsSound c
      → IsServed c
      → IsServed (submit_validated (bse_engine trig) a c sts).0
  unfolding submit_validated start_script
  submit_validated-IsServed accepted c [] ok k = k
  submit_validated-IsServed accepted c (st ∷ sts) ok k = after_deploy-IsServed (st ∷ sts) _ (
      configure_deploy-IsServed trig (start_over (bse_engine trig) c) st.goal (started_lem c ok)
        (start_over-IsServed trig c k))
  submit_validated-IsServed _ c sts ok k = k

  after_tracks-IsServed :
      (sts : List (Steps.Step F)) (r : Choreo (Bse F) F × Answer)
      → IsServed r.0
      → IsServed (after_tracks (bse_engine trig) sts r).0
  unfolding after_tracks
  after_tracks-IsServed sts (c, accepted) k = record { parked = k.parked; current = k.current }
  after_tracks-IsServed sts (c, _) k = record { parked = k.parked; current = k.current }

  start_track-IsServed :
      (c : Choreo (Bse F) F) (found : ℕ) (sts : List (Steps.Step F))
      → c.parked ≡ []
      → IsServed c
      → IsServed (start_track (bse_engine trig) c found sts).0
  unfolding start_track
  start_track-IsServed c found [] e k = k
  start_track-IsServed c found (st ∷ sts) e k = after_tracks-IsServed (st ∷ sts) _ (
      configure_deploy-IsServed trig
        (record c {
          tracks = record (c.tracks) { active_idx = found };
          script = record (c.script) { steps = st ∷ sts };
        })
        st.goal e (record { parked = k.parked; current = k.current }))

  start_matching-IsServed :
      (c : Choreo (Bse F) F) (o : Option ℕ)
      → c.parked ≡ []
      → IsServed c
      → IsServed (start_matching (bse_engine trig) c o).0
  unfolding start_matching start_at
  start_matching-IsServed c none e k = k
  start_matching-IsServed c (some found) e k = go (get_elem? c.tracks.table found)
    where
      go : (t : Option (Track F)) → IsServed (start_at (bse_engine trig) c found t).0
      go none = k
      go (some t) = start_track-IsServed c found t.steps e k

  submit_valid-IsServed :
      (a : Answer) (c : Choreo (Bse F) F) (wm : WorldModel F) (ts : List (Track F))
      → IsSound c
      → IsServed c
      → IsServed (submit_valid_tracks (bse_engine trig) a c wm ts).0
  unfolding submit_valid_tracks start_tracks
  submit_valid-IsServed accepted c wm ts ok k =
      let c0 = start_over (bse_engine trig) c in
      let k0 = start_over-IsServed trig c k in
      start_matching-IsServed (record c0 { tracks = load_tracks c0.tracks ts }) _ (started_lem c ok)
        (record { parked = k0.parked; current = k0.current })
  submit_valid-IsServed _ c wm ts ok k = k

  submit_tracks-IsServed :
      (c : Choreo (Bse F) F) (wm : WorldModel F) (ts : List (Track F))
      → IsSound c
      → IsServed c
      → IsServed (choreo_submit_tracks (bse_engine trig) c wm ts).0
  unfolding choreo_submit_tracks
  submit_tracks-IsServed c wm ts ok k =
      IsServed-either trig (length ts == 0 || ltb max_tracks (length ts)) _ _ k
        (submit_valid-IsServed (validate_tracks c.hw_caps ts) c wm ts ok k)

  refused_lem :
      (c : Choreo (Bse F) F)
      → is_active c.state ≡ true
      → IsServed c
      → IsServed (choreo_deploy (bse_engine trig) c).0
  unfolding choreo_deploy
  refused_lem c a k = ground arith

  -- An element that waits for its deployment has no parked goal.
  deploy-IsServed :
      (c : Choreo (Bse F) F)
      → IsSound c
      → IsServed c
      → IsServed (choreo_deploy (bse_engine trig) c).0
  deploy-IsServed c ok k = elim (ok.quiet) [
    | inl e ↦ choreo_deploy-IsServed trig c e k
    | inr off ↦ elim (ok.cleared) [
      | inr (off', e, n) ↦ choreo_deploy-IsServed trig c e k
      | inl a ↦ refused_lem c a k
    ]
  ]

  Step-IsServed :
      {c c' : Choreo (Bse F) F} → Step (bse_engine trig) c c' → IsSound c → IsServed c → IsServed c'
  unfolding register_scr set_departure_policy choreo_submit_script
  Step-IsServed {c} (configured g) ok k = choreo_configure-IsServed trig c g k
  Step-IsServed {c} deployed ok k = deploy-IsServed c ok k
  Step-IsServed {c} terminated ok k = choreo_terminate-IsServed trig c k
  Step-IsServed {c} (preempted g) ok k = (choreo_preempt_goal-IsServed trig c g k).0
  Step-IsServed {c} (goal_submitted g) ok k = submit_goal-IsServed c g ok k
  Step-IsServed {c} (script_submitted sts small) ok k =
      submit_validated-IsServed (validate_steps c.hw_caps sts true) c sts ok k
  Step-IsServed {c} (tracks_submitted wm ts small m) ok k = submit_tracks-IsServed c wm ts ok k
  Step-IsServed (registered caps) ok k = k
  Step-IsServed (policy_set p reasons n) ok k = record { parked = k.parked; current = k.current }
  Step-IsServed (steered d goal_id src_id) ok k = record { parked = k.parked; current = k.current }
  Step-IsServed {c} (ticked wm scr point) ok k = choreo_tick-IsServed trig c wm scr point ok k

  Reach-Served : {c : Choreo (Bse F) F} → Reach (bse_engine trig) c → IsServed c
  Reach-Served (start c self_id) = choreo_init-IsServed c self_id
  Reach-Served (next r s) = Step-IsServed s (Reach-IsSound (bse_engine trig) r) (Reach-Served r)

  -- After any sequence of the choreography's operations and ticks from choreo_init(), over the
  -- behaviour engine of bse.c: while the element is running or suspended, the engine's intent is that
  -- of the choreography's goal; the engine has parked an intent for each parked goal, which is that
  -- goal's, in the same order; and a preemption is never refused by the engine.  The conditions on what
  -- happens are two: a submission's numbers of steps fit a uint8_t, and tracks are submitted only to an
  -- element that one of them admits.
  pub Reach-IsServed :
      {c : Choreo (Bse F) F}
      → Reach (bse_engine trig) c
      → (is_active c.state ≡ true → c.bse.intent ≡ goal_to_intent c.goal)
        × AreServed c.parked c.bse.parked
        × ((g : Option (Goal F)) → (choreo_preempt_goal (bse_engine trig) c g).1 ≢ engine_error)
  Reach-IsServed {c} r =
      let k = Reach-Served r in
      (k.current, k.parked, λ g. (choreo_preempt_goal-IsServed trig c g k).1)
