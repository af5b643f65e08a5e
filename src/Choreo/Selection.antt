-- ===== src/Choreo/Selection.antt =====
-- choreo.c, "Tracks": which track an element runs, moving between tracks, and submitting them.
use tapestry.Prelude.{
  ℕ, zero, suc, ◌+◌, ◌%◌, Bool, true, false, not, ◌&&◌, ◌||◌, List, [], ◌∷◌, ◌++◌, Option, none,
  some, ltb, leb, ◌==◌, length, get_elem?, set, replicate, drop, if◌then◌else◌, u32,
}
use tapestry.Prelude.Floats.{FloatOps}
use tapestry.WorldModel.Types.{Entry, WorldModel, cycle_ms}
use tapestry.Choreo.Membership.{membership_hold_ms}
use tapestry.Choreo.Goals.{caps_satisfied}
use tapestry.Choreo.Steps.{Step, TrackFilter, Track}
use tapestry.Choreo.State.{Engine, Answer, accepted, invalid, Tracks, Choreo, max_tracks}
use tapestry.Choreo.Lifecycle.{start_over, configure_deploy, submit_goal_intent}
use tapestry.Choreo.Scripts.{validate_steps, first_step}

module _ {F : Type 0} where
  -- ELEMENT_HEALTH_LOW_BATTERY is bit 0.
  unfoldable pub self_energy_low : List (Entry F) → Bool
  self_energy_low [] = false
  self_energy_low (e ∷ es) = if e.is_self then e.state.health_flags % 2 == 1 else self_energy_low es

  unfoldable pub track_matches : Option ℕ → WorldModel F → TrackFilter → Bool
  track_matches hw wm f =
      if not (caps_satisfied hw f.required_caps)
      then false
      else if f.requires_energy_low && not (self_energy_low wm.entries)
      then false
      else true

  -- The loop of first_matching_track(), at place `i`; `none` is -1.
  unfoldable pub first_match : Option ℕ → WorldModel F → ℕ → ℕ → List (Track F) → Option ℕ
  first_match hw wm zero i table = none
  first_match hw wm (suc n) i [] = none
  first_match hw wm (suc n) i (t ∷ ts) =
      if track_matches hw wm t.filter then some i else first_match hw wm n (i + 1) ts

  -- The loop of choreo_submit_tracks() that validates.
  unfoldable pub validate_tracks : Option ℕ → List (Track F) → Answer
  validate_tracks hw [] = accepted
  validate_tracks hw (t ∷ ts) =
      elim (validate_steps hw t.steps (caps_satisfied hw t.filter.required_caps)) [
        | accepted ↦ validate_tracks hw ts
        | other ↦ other
      ]

  -- The copy of a submission into the table, as far as it goes.
  unfoldable pub load_tracks : Tracks F → List (Track F) → Tracks F
  load_tracks t tracks = record t {
    table = tracks ++ drop (length tracks) t.table;
    step_idxs = replicate (length tracks) 0 ++ drop (length tracks) t.step_idxs;
    n_tracks = length tracks;
    candidate_valid = false;
  }

module _ {X F : Type 0} ⦃fl : FloatOps F⦄ (engine : Engine X F) where
  -- first_matching_track()
  unfoldable pub first_matching_track : Choreo X F → WorldModel F → Option ℕ
  first_matching_track c wm = first_match c.hw_caps wm c.tracks.n_tracks 0 c.tracks.table

  -- migrate_to_track().  A read outside the table or the steps does nothing.
  unfoldable pub migrate_to_track : Choreo X F → ℕ → Choreo X F
  migrate_to_track c new_track =
      let idxs = set c.tracks.step_idxs c.tracks.active_idx c.script.step_idx in
      elim (get_elem? c.tracks.table new_track) [
        | none ↦ c
        | some t ↦ elim (get_elem? idxs new_track) [
          | none ↦ c
          | some idx ↦ elim (get_elem? t.steps idx) [
            | none ↦ c
            | some st ↦ submit_goal_intent engine (record c {
              tracks = record (c.tracks) { step_idxs = idxs; active_idx = new_track };
              script = record { steps = t.steps; step_idx = idx; step_ms = 0; active = true };
              goal = st.goal;
            })
          ]
        ]
      ]

  -- The debounce of update_track_selection(), when another track matches.
  unfoldable pub follow_track : Tracks F → ℕ → Tracks F
  follow_track t found =
      if t.candidate_valid && found == t.candidate_idx
      then record t { candidate_ms = u32 (t.candidate_ms + cycle_ms) }
      else record t { candidate_valid = true; candidate_idx = found; candidate_ms = 0 }

  abbrev pub no_candidate : Choreo X F → Choreo X F
  no_candidate c = record c { tracks = record (c.tracks) { candidate_valid = false } }

  unfoldable pub settle_track : Choreo X F → ℕ → Choreo X F
  settle_track c found =
      if leb membership_hold_ms c.tracks.candidate_ms
      then no_candidate (migrate_to_track c found)
      else c

  unfoldable pub update_track_selection : Choreo X F → WorldModel F → Choreo X F
  update_track_selection c wm = elim (first_matching_track c wm) [
    | none ↦ no_candidate c
    | some found ↦
        if found == c.tracks.active_idx
        then no_candidate c
        else (settle_track (record c { tracks = follow_track c.tracks found }) found)
  ]

  -- The end of choreo_submit_tracks(), at the track that the element starts on.
  unfoldable pub after_tracks : List (Step F) → Choreo X F × Answer → Choreo X F × Answer
  after_tracks steps (c, accepted) = (record c { script = first_step steps }, accepted)
  after_tracks steps (c, other) = (record c { tracks = record (c.tracks) { n_tracks = 0 } }, other)

  unfoldable pub start_track : Choreo X F → ℕ → List (Step F) → Choreo X F × Answer
  start_track c found [] = (c, invalid)
  start_track c found (st ∷ sts) = after_tracks (st ∷ sts) (
      configure_deploy engine
        (record c {
          tracks = record (c.tracks) { active_idx = found };
          script = record (c.script) { steps = st ∷ sts };
        })
        st.goal)

  unfoldable pub start_at : Choreo X F → ℕ → Option (Track F) → Choreo X F × Answer
  start_at c found none = (c, invalid)
  start_at c found (some t) = start_track c found t.steps

  unfoldable pub start_matching : Choreo X F → Option ℕ → Choreo X F × Answer
  start_matching c none = (c, invalid)
  start_matching c (some found) = start_at c found (get_elem? c.tracks.table found)

  unfoldable pub start_tracks : Choreo X F → WorldModel F → List (Track F) → Choreo X F × Answer
  start_tracks c wm tracks =
      let c0 = start_over engine c in
      let c1 = record c0 { tracks = load_tracks c0.tracks tracks } in
      start_matching c1 (first_matching_track c1 wm)

  unfoldable pub submit_valid_tracks :
      Answer → Choreo X F → WorldModel F → List (Track F) → Choreo X F × Answer
  submit_valid_tracks accepted c wm tracks = start_tracks c wm tracks
  submit_valid_tracks other c wm tracks = (c, other)

  -- choreo_submit_tracks()
  unfoldable pub choreo_submit_tracks :
      Choreo X F → WorldModel F → List (Track F) → Choreo X F × Answer
  choreo_submit_tracks c wm tracks =
      if length tracks == 0 || ltb max_tracks (length tracks)
      then (c, invalid)
      else submit_valid_tracks (validate_tracks c.hw_caps tracks) c wm tracks
