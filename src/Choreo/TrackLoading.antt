-- ===== src/Choreo/TrackLoading.antt =====
-- choreo.c: the submission of tracks keeps what holds of the storage.
use mathlib.Core.Path.{subst}
use tapestry.Prelude.{
  ℕ, zero, suc, ◌+◌, ◌≤◌, ◌<◌, ◌≡◌, refl, sym, ap, ◌∙◌, ◌≢◌, inl, inr, false, ◌||◌, List, [], ◌∷◌,
  ◌++◌, Option, none, some, arith, ltb, ◌==◌, length, get_elem?, replicate, drop, All, Bool-cases,
}
use tapestry.Prelude.Floats.{FloatOps}
use tapestry.WorldModel.Types.{WorldModel}
use tapestry.Choreo.Remote.{ChoreoState, choreo_running}
use tapestry.Choreo.Goals.{Goal, caps_satisfied}
use tapestry.Choreo.Steps.{Step, Track}
use tapestry.Choreo.State.{Engine, Answer, accepted, Script, Parked, Tracks, max_tracks, Choreo}
use tapestry.Choreo.Lifecycle.{
  start_over, terminate_hard, choreo_configure, choreo_deploy, configure_deploy,
}
use tapestry.Choreo.Scripts.{validate_steps, first_step}
use tapestry.Choreo.Selection.{
  first_match, validate_tracks, load_tracks, first_matching_track, after_tracks, start_track,
  start_at, start_matching, start_tracks, submit_valid_tracks, choreo_submit_tracks,
}
use tapestry.Choreo.Sound.{IsSteps, IsScript, Ready, Ready-at, Sound, IsSound}
use tapestry.Choreo.Submission.{start_over-IsCleared}
use tapestry.Choreo.Loading.{validate_steps_lem, first_step-IsScript, cleared_lem}

module _ {F : Type 0} where
  abbrev pub AreShort : List (Track F) → Type 0
  AreShort ts = All (λ t. length t.steps < 256) ts

  validate_tracks-Ready :
      (hw : Option ℕ) (ts rest : List (Track F)) (idxs : List ℕ)
      → validate_tracks hw ts ≡ accepted
      → AreShort ts
      → Ready (length ts) (ts ++ rest) (replicate (length ts) 0 ++ idxs)
  unfolding validate_tracks
  validate_tracks-Ready hw [] rest idxs h s = tt
  validate_tracks-Ready hw (t ∷ ts) rest idxs h (small, s) =
      let (now, later) = accepted_both hw t ts h in
      let (k, some_) =
        validate_steps_lem hw t.steps (caps_satisfied hw t.filter.required_caps) now small in
      (k, some_, validate_tracks-Ready hw ts rest idxs later s)
    where
      accepted_both :
          (hw : Option ℕ) (t : Track F) (ts : List (Track F))
          → validate_tracks hw (t ∷ ts) ≡ accepted
          → (validate_steps hw t.steps (caps_satisfied hw t.filter.required_caps) ≡ accepted)
            × (validate_tracks hw ts ≡ accepted)
      accepted_both hw t ts h = ground arith

  pub first_match-lt :
      (hw : Option ℕ) (wm : WorldModel F) (n i k : ℕ) (ts : List (Track F))
      → first_match hw wm n i ts ≡ some k
      → k < i + n
  unfolding first_match
  first_match-lt hw wm zero i k ts h = cc
  first_match-lt hw wm (suc n) i k [] h = cc
  first_match-lt hw wm (suc n) i k (t ∷ ts) h = ground (arith, first_match-lt hw wm n (i + 1) k ts)

module _ {X F : Type 0} where
  -- A track that some filter admits.
  abbrev pub HasMatch : Choreo X F → WorldModel F → List (Track F) → Type 0
  HasMatch c wm ts = first_match c.hw_caps wm (length ts) 0 ts ≢ none

module _ {X F : Type 0} ⦃fl : FloatOps F⦄ (engine : Engine X F) where
  -- What configuring and deploying leave alone.
  abbrev pub HasKept : Choreo X F → Choreo X F → Type 0
  HasKept c c' = (c'.script ≡ c.script) × (c'.parked ≡ c.parked) × (c'.tracks ≡ c.tracks)

  abbrev pub IsDeployed : Choreo X F → Choreo X F × Answer → Type 0
  IsDeployed c (c', accepted) = (c'.state ≡ choreo_running) × HasKept c c'
  IsDeployed c (c', _) = HasKept c c'

  pub configure_deploy-IsDeployed :
      (c : Choreo X F) (g : Goal F) → IsDeployed c (configure_deploy engine c g)
  unfolding configure_deploy choreo_configure choreo_deploy
  configure_deploy-IsDeployed c g = ground arith

  -- The storage at the start of a track.
  track_begin_lem :
      (sts : List (Step F)) (ps : List (Parked F)) (st : ChoreoState) (t : Tracks F)
      → IsSteps sts
      → 0 < length sts
      → ps ≡ []
      → st ≡ choreo_running
      → Ready t.n_tracks t.table t.step_idxs
      → t.active_idx < t.n_tracks
      → ((tr : Track F) → get_elem? t.table t.active_idx ≡ some tr → tr.steps ≡ sts)
      → Sound (first_step sts) ps st t.table t.n_tracks t.active_idx t.step_idxs
  track_begin_lem sts [] st t k h e run r lt same = record {
    script = first_step-IsScript sts k h;
    parked = tt;
    one = omega arith;
    quiet = inl refl;
    cleared = inl (rw run refl);
    tracks = inr (record { ready = r; within = lt; running = refl; same = same });
  }
  track_begin_lem sts (p ∷ ps) st t k h e run r lt same = cc

  after_tracks-IsSound :
      (sts : List (Step F)) (c : Choreo X F) (r : Choreo X F × Answer)
      → IsSteps sts
      → 0 < length sts
      → c.parked ≡ []
      → c.script.active ≡ false
      → c.script.steps ≡ sts
      → Ready c.tracks.n_tracks c.tracks.table c.tracks.step_idxs
      → c.tracks.active_idx < c.tracks.n_tracks
      → ((tr : Track F) → get_elem? c.tracks.table c.tracks.active_idx ≡ some tr → tr.steps ≡ sts)
      → IsDeployed c r
      → IsSound (after_tracks engine sts r).0
  unfolding after_tracks
  after_tracks-IsSound sts c (c', accepted) k h e off s r lt same (run, (ks, kp, kt)) =
      track_begin_lem sts c'.parked c'.state c'.tracks k h (kp ∙ e) run
        (subst (λ (t : Tracks F). Ready t.n_tracks t.table t.step_idxs) (sym kt) r)
        (subst (λ (t : Tracks F). t.active_idx < t.n_tracks) (sym kt) lt)
        (subst
          (λ (t : Tracks F).
            (tr : Track F) → get_elem? t.table t.active_idx ≡ some tr → tr.steps ≡ sts)
          (sym kt) same)
  after_tracks-IsSound sts c (c', _) k h e off s r lt same d = record {
    script =
        subst IsScript (sym d.0) (record { steps = subst IsSteps (sym s) k; placed = λ u. cc });
    parked = subst (λ (ps : List (Parked F)). All (λ p. IsScript p.script) ps) (sym (d.1 ∙ e)) tt;
    one = subst (λ (ps : List (Parked F)). length ps ≤ 1) (sym (d.1 ∙ e)) (omega arith);
    quiet = inl (d.1 ∙ e);
    cleared = inr (subst (λ (x : Script F). x.active ≡ false) (sym d.0) off, d.1 ∙ e, refl);
    tracks = inl refl;
  }

  start_track-IsSound :
      (c : Choreo X F) (found : ℕ) (t : Track F)
      → IsSteps t.steps
      → 0 < length t.steps
      → c.parked ≡ []
      → c.script.active ≡ false
      → Ready c.tracks.n_tracks c.tracks.table c.tracks.step_idxs
      → found < c.tracks.n_tracks
      → get_elem? c.tracks.table found ≡ some t
      → IsSound (start_track engine c found t.steps).0
  unfolding start_track
  start_track-IsSound c found t k h e off r lt at = go t.steps refl k h
    where
      go :
          (sts : List (Step F))
          → t.steps ≡ sts
          → IsSteps sts
          → 0 < length sts
          → IsSound (start_track engine c found sts).0
      go [] s k h = absurd (omega arith)
      go (st ∷ sts) s k h =
          let c1 = record c {
            tracks = record (c.tracks) { active_idx = found };
            script = record (c.script) { steps = st ∷ sts };
          } in
          after_tracks-IsSound (st ∷ sts) c1 (configure_deploy engine c1 st.goal) k h e off refl r
            lt (λ tr p. cc) (configure_deploy-IsDeployed c1 st.goal)

  pub first_match-append :
      (hw : Option ℕ) (wm : WorldModel F) (i : ℕ) (ts rest : List (Track F))
      → first_match hw wm (length ts) i (ts ++ rest) ≡ first_match hw wm (length ts) i ts
  unfolding first_match
  first_match-append hw wm i [] rest = refl
  first_match-append hw wm i (t ∷ ts) rest =
      ground (arith, first_match-append hw wm (i + 1) ts rest)

  pub start_over-hw_caps : (c : Choreo X F) → (start_over engine c).hw_caps ≡ c.hw_caps
  unfolding start_over terminate_hard
  start_over-hw_caps c = ground arith

  start_matching-IsSound :
      (c : Choreo X F) (o : Option ℕ)
      → c.parked ≡ []
      → c.script.active ≡ false
      → Ready c.tracks.n_tracks c.tracks.table c.tracks.step_idxs
      → o ≢ none
      → ((found : ℕ) → o ≡ some found → found < c.tracks.n_tracks)
      → IsSound (start_matching engine c o).0
  unfolding start_matching start_at
  start_matching-IsSound c none e off r m lt = absurd (m refl)
  start_matching-IsSound c (some found) e off r m lt =
      let (t, i, at, _, k, h) =
        Ready-at c.tracks.n_tracks found c.tracks.table c.tracks.step_idxs r (lt found refl) in
      rw at (start_track-IsSound c found t k (omega arith) e off r (lt found refl) at)

  start_tracks-IsSound :
      (c : Choreo X F) (wm : WorldModel F) (ts : List (Track F))
      → validate_tracks c.hw_caps ts ≡ accepted
      → AreShort ts
      → HasMatch c wm ts
      → IsSound c
      → IsSound (start_tracks engine c wm ts).0
  unfolding start_tracks first_matching_track load_tracks
  start_tracks-IsSound c wm ts v small m ok =
      let c0 = start_over engine c in
      let c1 = record c0 { tracks = load_tracks c0.tracks ts } in
      let (e, off) = start_over-IsCleared engine c (cleared_lem c ok) in
      start_matching-IsSound c1 (first_match c0.hw_caps wm (length ts) 0 c1.tracks.table) off.1
        off.0
        (validate_tracks-Ready c.hw_caps ts (drop (length ts) c0.tracks.table)
          (drop (length ts) c0.tracks.step_idxs) v small)
        (λ g. m (no_match g))
        (λ found g.
          omega (arith, first_match-lt c0.hw_caps wm (length ts) 0 found c1.tracks.table g))
    where
      no_match :
          first_match
              (start_over engine c).hw_caps
              wm
              (length ts)
              0
              (ts ++ drop (length ts) (start_over engine c).tracks.table)
            ≡ none
          → first_match c.hw_caps wm (length ts) 0 ts ≡ none
      no_match g =
          let rest = drop (length ts) (start_over engine c).tracks.table in
          sym (first_match-append c.hw_caps wm 0 ts rest)
          ∙ ap (λ (h : Option ℕ). first_match h wm (length ts) 0 (ts ++ rest))
              (sym (start_over-hw_caps c))
          ∙ g

  submit_valid-IsSound :
      (a : Answer) (c : Choreo X F) (wm : WorldModel F) (ts : List (Track F))
      → validate_tracks c.hw_caps ts ≡ a
      → AreShort ts
      → HasMatch c wm ts
      → IsSound c
      → IsSound (submit_valid_tracks engine a c wm ts).0
  unfolding submit_valid_tracks
  submit_valid-IsSound accepted c wm ts v small m ok = start_tracks-IsSound c wm ts v small m ok
  submit_valid-IsSound _ c wm ts v small m ok = ok

  pub choreo_submit_tracks-IsSound :
      (c : Choreo X F) (wm : WorldModel F) (ts : List (Track F))
      → AreShort ts
      → HasMatch c wm ts
      → IsSound c
      → IsSound (choreo_submit_tracks engine c wm ts).0
  unfolding choreo_submit_tracks
  choreo_submit_tracks-IsSound c wm ts small m ok =
      elim (Bool-cases (length ts == 0 || ltb max_tracks (length ts))) [
        | inl e ↦ rw e ok
        | inr e ↦ rw e (submit_valid-IsSound (validate_tracks c.hw_caps ts) c wm ts refl small m ok)
      ]
