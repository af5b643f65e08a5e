-- ===== src/Choreo/Unmatched.antt =====
-- choreo.c, choreo_submit_tracks(): tracks none of which admits the element.
use tapestry.Prelude.{
  ℕ, ◌<◌, ◌≤◌, ◌≡◌, refl, ap, ◌∙◌, true, false, ◌||◌, List, [], ◌∷◌, ◌++◌, Option, none, arith, ltb,
  ◌==◌, length, drop,
}
use tapestry.Prelude.Floats.{FloatOps}
use tapestry.WorldModel.Types.{WorldModel}
use tapestry.Choreo.Remote.{choreo_idle, choreo_running}
use tapestry.Choreo.Steps.{Step, Track}
use tapestry.Choreo.State.{
  Engine, Answer, accepted, invalid, no_capability, busy, engine_error, Tracks, Choreo, max_tracks,
}
use tapestry.Choreo.Lifecycle.{start_over, terminate_hard, configure_deploy}
use tapestry.Choreo.Scripts.{
  choreo_submit_script, submit_validated, start_script, after_deploy, validate_steps,
}
use tapestry.Choreo.Selection.{
  first_match, first_matching_track, load_tracks, validate_tracks, start_matching, start_tracks,
  submit_valid_tracks, choreo_submit_tracks,
}
use tapestry.Choreo.TrackLoading.{
  first_match-append, start_over-hw_caps, IsDeployed, configure_deploy-IsDeployed,
}
use tapestry.Choreo.Submission.{is_idle_lem}

within_lem :
    {F : Type 0} (ts : List (Track F))
    → 0 < length ts
    → length ts ≤ 4
    → (length ts == 0 || ltb 4 (length ts)) ≡ false
within_lem ts h k = ground arith

module _ {X F : Type 0} ⦃fl : FloatOps F⦄ (engine : Engine X F) where
  start_over-state : (c : Choreo X F) → (start_over engine c).state ≡ choreo_idle
  unfolding start_over terminate_hard
  start_over-state c = ground (arith, is_idle_lem c.state)

  -- Valid tracks, one to four of them, none of which admits the element.
  pub record IsUnmatched (c : Choreo X F) (wm : WorldModel F) (ts : List (Track F)) : Type 0 where
    pub some_ : 0 < length ts
    pub few : length ts ≤ max_tracks
    pub valid : validate_tracks c.hw_caps ts ≡ accepted
    pub unmatched : first_match c.hw_caps wm (length ts) 0 ts ≡ none

  -- A submission from idle, or to an idle element, does not touch the number of tracks.
  start_over-n_tracks :
      (c : Choreo X F)
      → c.state ≡ choreo_idle
      → (start_over engine c).tracks.n_tracks ≡ c.tracks.n_tracks
  unfolding start_over
  start_over-n_tracks c e = ground arith

  after_deploy_lem :
      (sts : List (Step F)) (c : Choreo X F) (r : Choreo X F × Answer)
      → IsDeployed engine c r
      → (after_deploy engine sts r).1 ≡ accepted
      → ((after_deploy engine sts r).0.state ≡ choreo_running)
        × ((after_deploy engine sts r).0.tracks.n_tracks ≡ c.tracks.n_tracks)
  unfolding after_deploy
  after_deploy_lem sts c (c', accepted) d a = (d.0, ap (λ (t : Tracks F). t.n_tracks) d.1.2)
  after_deploy_lem sts c (c', _) d a = cc

  start_script_lem :
      (c : Choreo X F) (sts : List (Step F))
      → c.state ≡ choreo_idle
      → (start_script engine c sts).1 ≡ accepted
      → ((start_script engine c sts).0.state ≡ choreo_running)
        × ((start_script engine c sts).0.tracks.n_tracks ≡ c.tracks.n_tracks)
  unfolding start_script
  start_script_lem c [] e a = cc
  start_script_lem c (st ∷ sts) e a =
      let c0 = start_over engine c in
      let (run, n) =
        after_deploy_lem (st ∷ sts) c0 (configure_deploy engine c0 st.goal)
          (configure_deploy-IsDeployed engine c0 st.goal) a in
      (run, n ∙ start_over-n_tracks c e)

  submit_script_lem :
      (a : Answer) (c : Choreo X F) (sts : List (Step F))
      → c.state ≡ choreo_idle
      → (submit_validated engine a c sts).1 ≡ accepted
      → ((submit_validated engine a c sts).0.state ≡ choreo_running)
        × ((submit_validated engine a c sts).0.tracks.n_tracks ≡ c.tracks.n_tracks)
  unfolding submit_validated
  submit_script_lem accepted c sts e h = start_script_lem c sts e h
  submit_script_lem invalid c sts e h = cc
  submit_script_lem no_capability c sts e h = cc
  submit_script_lem busy c sts e h = cc
  submit_script_lem engine_error c sts e h = cc

  refused_lem :
      (c : Choreo X F) (wm : WorldModel F) (ts : List (Track F))
      → IsUnmatched c wm ts
      → let c0 = start_over engine c in
        choreo_submit_tracks engine c wm ts
        ≡ (record c0 { tracks = load_tracks c0.tracks ts }, invalid)
  unfolding choreo_submit_tracks submit_valid_tracks start_tracks start_matching
      first_matching_track load_tracks
  refused_lem c wm ts u =
      let rest = drop (length ts) (start_over engine c).tracks.table in
      let none_ : first_match (start_over engine c).hw_caps wm (length ts) 0 (ts ++ rest) ≡ none =
        ap (λ (h : Option ℕ). first_match h wm (length ts) 0 (ts ++ rest))
          (start_over-hw_caps engine c)
        ∙ first_match-append engine c.hw_caps wm 0 ts rest
        ∙ u.unmatched in
      let some_ : (length ts == 0 || ltb max_tracks (length ts)) ≡ false =
        within_lem ts u.some_ u.few in
      simp (
        choreo_submit_tracks, submit_valid_tracks, start_tracks, start_matching,
        first_matching_track, load_tracks, some_, u.valid, none_,
      )

  -- Tracks that are valid, of which none admits the element, are refused, and leave the element idle.
  -- But they stay in use: a script that the element accepts next runs with these tracks to select from.
  pub unmatched_stay :
      (c : Choreo X F) (wm : WorldModel F) (ts : List (Track F)) (sts : List (Step F))
      → IsUnmatched c wm ts
      → let (c', answer) = choreo_submit_tracks engine c wm ts in
        let (c'', answer') = choreo_submit_script engine c' sts in
        (answer ≡ invalid)
        × (c'.state ≡ choreo_idle)
        × (answer' ≡ accepted → (c''.state ≡ choreo_running) × (c''.tracks.n_tracks ≡ length ts))
  unfolding choreo_submit_script load_tracks
  unmatched_stay c wm ts sts u =
      let c0 = start_over engine c in
      let c1 = record c0 { tracks = load_tracks c0.tracks ts } in
      rw (refused_lem c wm ts u) (
        refl,
        start_over-state c,
        λ a. submit_script_lem (validate_steps c1.hw_caps sts true) c1 sts (start_over-state c) a,
      )
