-- ===== src/Bse/Retargeting.antt =====
-- choreo.c over bse.c: departures, other steps and other tracks keep the engine at the choreography's
-- service.
use tapestry.Prelude.{
  ℕ, ◌+◌, ◌≡◌, inl, inr, Bool, true, false, [], Option, none, some, length, leb, ◌==◌, get_elem?,
  set, u8, Bool-cases, Option-cases,
}
use tapestry.Prelude.Floats.{FloatOps}
use tapestry.Facts.Types.{Position}
use tapestry.WorldModel.Types.{WorldModel}
use tapestry.Choreo.Steps.{Step, Policy, carry_on, hold, land_in_place, recall}
use tapestry.Choreo.State.{Answer, accepted, Choreo}
use tapestry.Choreo.Scripts.{advance_to}
use tapestry.Choreo.Selection.{
  first_match, migrate_to_track, settle_track, follow_track, first_matching_track,
  update_track_selection,
}
use tapestry.Choreo.Departures.{
  land_for_departure, trigger_recall, trigger_hold, after_hold, after_recall, recall_goal,
  hold_goal, trigger_departure_policy,
}
use tapestry.Choreo.Cycle.{should_advance, leave_step}
use tapestry.Bse.Types.{TrigOps, Bse}
use tapestry.Bse.Served.{bse_engine, IsServed, submit-Served}
use tapestry.Bse.Serving.{IsServed-if, choreo_terminate-IsServed, choreo_preempt_goal-IsServed}

module _ {F : Type 0} ⦃fl : FloatOps F⦄ (trig : TrigOps F) where
  land-IsServed :
      (c : Choreo (Bse F) F) (p : Policy)
      → IsServed c
      → IsServed (land_for_departure (bse_engine trig) c p)
  unfolding land_for_departure
  land-IsServed c p k =
      choreo_terminate-IsServed trig _ (record { parked = k.parked; current = k.current })

  after_hold-IsServed :
      (r : Choreo (Bse F) F × Answer) → IsServed r.0 → IsServed (after_hold (bse_engine trig) r)
  unfolding after_hold
  after_hold-IsServed (c, accepted) k = k
  after_hold-IsServed (c, _) k = land-IsServed c land_in_place k

  after_recall-IsServed :
      (r : Choreo (Bse F) F × Answer) → IsServed r.0 → IsServed (after_recall (bse_engine trig) r)
  unfolding after_recall
  after_recall-IsServed (c, accepted) k = k
  after_recall-IsServed (c, _) k = land-IsServed c land_in_place k

  trigger-IsServed :
      (c : Choreo (Bse F) F) (p : Policy) (point : Option (Position F))
      → IsServed c
      → IsServed (trigger_departure_policy (bse_engine trig) c p point)
  unfolding trigger_departure_policy trigger_recall trigger_hold
  trigger-IsServed c recall none k = land-IsServed c land_in_place k
  trigger-IsServed c recall (some p) k =
      after_recall-IsServed _
        (choreo_preempt_goal-IsServed trig c (some (recall_goal (bse_engine trig) p)) k).0
  trigger-IsServed c hold point k =
      after_hold-IsServed _
        (choreo_preempt_goal-IsServed trig c (some (hold_goal (bse_engine trig))) k).0
  trigger-IsServed c land_in_place point k = land-IsServed c land_in_place k
  trigger-IsServed c carry_on point k = k

  pub advance_to-IsServed :
      (c : Choreo (Bse F) F) (target : ℕ)
      → c.parked ≡ []
      → IsServed c
      → IsServed (advance_to (bse_engine trig) c target)
  unfolding advance_to
  advance_to-IsServed c target e k = elim (Bool-cases (leb (length c.script.steps) target)) [
    | inl h ↦ rw h (
        choreo_terminate-IsServed trig
          (record c { script = record (c.script) { step_ms = 0 }; script_done = true })
          (record { parked = k.parked; current = k.current }))
    | inr h ↦ rw h elim (Option-cases (get_elem? c.script.steps (u8 target))) [
      | inl g ↦ rw g k
      | inr (st, g) ↦ rw g (submit-Served c.state st.goal c.parked c.bse e)
    ]
  ]

  pub leave_step-IsServed :
      (c : Choreo (Bse F) F) (st : Step F) (wm : WorldModel F) (target : Option ℕ) (fires : Bool)
      (policy : Policy) (point : Option (Position F))
      → c.parked ≡ []
      → IsServed c
      → IsServed (leave_step (bse_engine trig) c st wm target fires policy point)
  unfolding leave_step
  leave_step-IsServed c st wm (some target) fires policy point e k =
      advance_to-IsServed c target e k
  leave_step-IsServed c st wm none true policy point e k = trigger-IsServed c policy point k
  leave_step-IsServed c st wm none false policy point e k =
      IsServed-if trig (should_advance (bse_engine trig) c st wm) _ _
        (advance_to-IsServed c (c.script.step_idx + 1) e k) k

  migrate_to_track-IsServed :
      (c : Choreo (Bse F) F) (found : ℕ)
      → c.parked ≡ []
      → IsServed c
      → IsServed (migrate_to_track (bse_engine trig) c found)
  unfolding migrate_to_track
  migrate_to_track-IsServed c found e k =
      let idxs = set c.tracks.step_idxs c.tracks.active_idx c.script.step_idx in
      elim (Option-cases (get_elem? c.tracks.table found)) [
        | inl g ↦ rw (migrate_to_track, g) k
        | inr (t, g) ↦
            rw (migrate_to_track, g)
              elim (Option-cases (get_elem? idxs found)) [
                | inl h ↦ rw h k
                | inr (idx, h) ↦ rw h elim (Option-cases (get_elem? t.steps idx)) [
                  | inl q ↦ rw q k
                  | inr (st, q) ↦ rw q (submit-Served c.state st.goal c.parked c.bse e)
                ]
              ]
      ]

  settle_track-IsServed :
      (c : Choreo (Bse F) F) (found : ℕ)
      → c.parked ≡ []
      → IsServed c
      → IsServed (settle_track (bse_engine trig) c found)
  unfolding settle_track
  settle_track-IsServed c found e k = elim (Bool-cases (leb 2000 c.tracks.candidate_ms)) [
    | inl h ↦ rw h (
        let kept = migrate_to_track-IsServed c found e k in
        record { parked = kept.parked; current = kept.current })
    | inr h ↦ rw h k
  ]

  pub update_track_selection-IsServed :
      (c : Choreo (Bse F) F) (wm : WorldModel F)
      → c.parked ≡ []
      → IsServed c
      → IsServed (update_track_selection (bse_engine trig) c wm)
  unfolding update_track_selection first_matching_track
  update_track_selection-IsServed c wm e k =
      elim (Option-cases (first_match c.hw_caps wm c.tracks.n_tracks 0 c.tracks.table)) [
        | inl g ↦ rw (update_track_selection, g) k
        | inr (found, g) ↦
            rw (update_track_selection, g)
              elim (Bool-cases (found == c.tracks.active_idx)) [
                | inl h ↦ rw h k
                | inr h ↦ rw h (
                    settle_track-IsServed
                      (record c { tracks = follow_track (bse_engine trig) c.tracks found }) found e
                      (record { parked = k.parked; current = k.current }))
              ]
      ]
