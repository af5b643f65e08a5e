-- ===== src/Choreo/Migration.antt =====
-- choreo.c: the selection of a track keeps what holds of the storage.
use mathlib.Core.Path.{subst}
use tapestry.Prelude.{
  ℕ, ◌<◌, ◌≡◌, refl, sym, inl, inr, true, ◌&&◌, List, [], some, arith, leb, ◌==◌, length, get_elem?,
  set, Bool-cases, Option-cases, lt-length,
}
use tapestry.Prelude.Floats.{FloatOps}
use tapestry.WorldModel.Types.{WorldModel}
use tapestry.Choreo.Membership.{membership_hold_ms}
use tapestry.Choreo.Steps.{Step, Track}
use tapestry.Choreo.State.{Engine, Script, Parked, Tracks, Choreo, is_active}
use tapestry.Choreo.Selection.{
  first_match, first_matching_track, migrate_to_track, follow_track, settle_track,
  update_track_selection,
}
use tapestry.Choreo.Sound.{Ready, Ready-set, Ready-IsSteps, own_script_lem, OnTrack, Sound, IsSound}
use tapestry.Choreo.TrackLoading.{first_match-lt}

module _ {X F : Type 0} ⦃fl : FloatOps F⦄ (engine : Engine X F) where
  in_use :
      (c : Choreo X F) (found : ℕ)
      → c.parked ≡ []
      → found < c.tracks.n_tracks
      → IsSound c
      → OnTrack c.script c.tracks.table c.tracks.n_tracks c.tracks.active_idx c.tracks.step_idxs
  in_use c found e lt ok = elim (ok.tracks) [
    | inl z ↦ absurd (omega arith)
    | inr t ↦
        subst
          (λ (s : Script F).
            OnTrack s c.tracks.table c.tracks.n_tracks c.tracks.active_idx c.tracks.step_idxs)
          (own_script_lem c.script c.parked e) t
  ]

  -- The place in the script that is left is one of the active track's.
  saved_lem :
      (c : Choreo X F) (found : ℕ)
      → c.parked ≡ []
      → found < c.tracks.n_tracks
      → IsSound c
      → Ready c.tracks.n_tracks c.tracks.table
          (set c.tracks.step_idxs c.tracks.active_idx c.script.step_idx)
  saved_lem c found e lt ok =
      let k = in_use c found e lt ok in
      Ready-set c.tracks.n_tracks c.tracks.active_idx c.tracks.table c.tracks.step_idxs
        c.script.step_idx k.ready
        (λ t g.
          subst (λ (sts : List (Step F)). c.script.step_idx < length sts) (sym (k.same t g))
            (ok.script.placed k.running))

  -- The storage on a track that is entered.
  on_track_lem :
      (c : Choreo X F) (t : Track F) (found idx : ℕ) (idxs : List ℕ)
      → c.parked ≡ []
      → is_active c.state ≡ true
      → Ready c.tracks.n_tracks c.tracks.table idxs
      → found < c.tracks.n_tracks
      → get_elem? c.tracks.table found ≡ some t
      → idx < length t.steps
      → Sound
          (record { steps = t.steps; step_idx = idx; step_ms = 0; active = true })
          c.parked
          c.state
          c.tracks.table
          c.tracks.n_tracks
          found
          idxs
  on_track_lem c t found idx idxs e run r lt g h =
      subst
        (λ (ps : List (Parked F)).
          Sound (record { steps = t.steps; step_idx = idx; step_ms = 0; active = true }) ps c.state
            c.tracks.table c.tracks.n_tracks found idxs)
        (sym e)
        (record {
          script = record {
            steps = Ready-IsSteps c.tracks.n_tracks found c.tracks.table idxs t r lt g;
            placed = λ u. h;
          };
          parked = tt;
          one = omega arith;
          quiet = inl refl;
          cleared = inl run;
          tracks =
              inr
                (record { ready = r; within = lt; running = refl; same = λ tr p. same_steps tr p });
        })
    where
      same_steps : (tr : Track F) → get_elem? c.tracks.table found ≡ some tr → tr.steps ≡ t.steps
      same_steps tr p = cc

  -- A move to another track, with nothing parked and the tracks in use.
  migrate_to_track-IsSound :
      (c : Choreo X F) (found : ℕ)
      → c.parked ≡ []
      → is_active c.state ≡ true
      → found < c.tracks.n_tracks
      → IsSound c
      → IsSound (migrate_to_track engine c found)
  unfolding migrate_to_track
  migrate_to_track-IsSound c found e run lt ok =
      let idxs = set c.tracks.step_idxs c.tracks.active_idx c.script.step_idx in
      let r : Ready c.tracks.n_tracks c.tracks.table idxs = saved_lem c found e lt ok in
      elim (Option-cases (get_elem? c.tracks.table found)) [
        | inl g ↦ rw (migrate_to_track, g) ok
        | inr (t, g) ↦
            rw (migrate_to_track, g)
              elim (Option-cases (get_elem? idxs found)) [
                | inl h ↦ rw h ok
                | inr (idx, h) ↦ rw h elim (Option-cases (get_elem? t.steps idx)) [
                  | inl q ↦ rw q ok
                  | inr (st, q) ↦
                      rw q
                        (on_track_lem c t found idx idxs e run r lt g (lt-length t.steps idx st q))
                ]
              ]
      ]

  settle_track-IsSound :
      (c : Choreo X F) (found : ℕ)
      → c.parked ≡ []
      → is_active c.state ≡ true
      → found < c.tracks.n_tracks
      → IsSound c
      → IsSound (settle_track engine c found)
  unfolding settle_track
  settle_track-IsSound c found e run lt ok =
      elim (Bool-cases (leb membership_hold_ms c.tracks.candidate_ms)) [
        | inl h ↦ rw h (migrate_to_track-IsSound c found e run lt ok)
        | inr h ↦ rw h ok
      ]

  follow_track-IsSound :
      (c : Choreo X F) (found : ℕ)
      → IsSound c
      → IsSound (record c { tracks = follow_track engine c.tracks found })
  unfolding follow_track
  follow_track-IsSound c found ok =
      elim (Bool-cases (c.tracks.candidate_valid && found == c.tracks.candidate_idx)) [
        | inl h ↦ rw h ok
        | inr h ↦ rw h ok
      ]

  follow_track-n_tracks :
      (t : Tracks F) (found : ℕ) → (follow_track engine t found).n_tracks ≡ t.n_tracks
  unfolding follow_track
  follow_track-n_tracks t found = ground arith

  pub update_track_selection-IsSound :
      (c : Choreo X F) (wm : WorldModel F)
      → c.parked ≡ []
      → is_active c.state ≡ true
      → IsSound c
      → IsSound (update_track_selection engine c wm)
  unfolding update_track_selection first_matching_track
  update_track_selection-IsSound c wm e run ok =
      elim (Option-cases (first_match c.hw_caps wm c.tracks.n_tracks 0 c.tracks.table)) [
        | inl g ↦ rw (update_track_selection, g) ok
        | inr (found, g) ↦
            rw (update_track_selection, g)
              elim (Bool-cases (found == c.tracks.active_idx)) [
                | inl h ↦ rw h ok
                | inr h ↦ rw h (
                    settle_track-IsSound (record c { tracks = follow_track engine c.tracks found })
                      found e run
                      (omega (
                        arith,
                        follow_track-n_tracks c.tracks found,
                        first_match-lt c.hw_caps wm c.tracks.n_tracks 0 found c.tracks.table g,
                      ))
                      (follow_track-IsSound c found ok))
              ]
      ]
