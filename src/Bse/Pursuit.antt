-- ===== src/Bse/Pursuit.antt =====
-- choreo.c over bse.c: a tick keeps the engine at the choreography's service.
use tapestry.Prelude.{
  ℕ, ◌+◌, ◌≡◌, refl, inl, inr, true, false, not, ◌&&◌, List, [], ◌∷◌, Option, arith, length, leb,
  ltb, u32, Bool-cases, Option-cases,
}
use tapestry.Prelude.Floats.{FloatOps}
use tapestry.Facts.Types.{Position}
use tapestry.WorldModel.Types.{WorldModel}
use tapestry.Scr.Types.{ScrState, is_lost}
use tapestry.Choreo.Remote.{
  ChoreoState, choreo_running, choreo_suspended, is_running, remote_directive_tick,
}
use tapestry.Choreo.State.{Parked, Choreo, is_active}
use tapestry.Choreo.Scripts.{current_step}
use tapestry.Choreo.Events.{choreo_current_track}
use tapestry.Choreo.Selection.{update_track_selection}
use tapestry.Choreo.Departures.{departure_policy_should_fire}
use tapestry.Choreo.Cycle.{
  is_suspended, is_unparked, is_isolated, is_over, spend, run_step, script_advance,
  suspended_step_timeout, finish_recall, finish_hold, suspend_if_lost, resume_if_held, drive,
  tick_running, tick_suspended, tick_in, choreo_tick, is_hold,
}
use tapestry.Choreo.Sound.{IsSound}
use tapestry.Choreo.Ticking.{drive-IsSound}
use tapestry.Bse.Types.{TrigOps, Bse}
use tapestry.Bse.Intents.{bse_set_track_scope}
use tapestry.Bse.Kept.{Keeps, bse_tick-Keeps}
use tapestry.Bse.Tick.{bse_tick}
use tapestry.Bse.Served.{bse_engine, Served, IsServed, Served-Keeps}
use tapestry.Bse.Serving.{IsServed-if, terminate_hard-IsServed}
use tapestry.Bse.Retargeting.{
  advance_to-IsServed, leave_step-IsServed, update_track_selection-IsServed,
}

module _ {F : Type 0} ⦃fl : FloatOps F⦄ (trig : TrigOps F) where
  -- While a script is active, no goal is parked.
  unparked_lem : (c : Choreo (Bse F) F) → IsSound c → not c.script.active ≡ false → c.parked ≡ []
  unparked_lem c ok h = ground (arith, ok.quiet)

  script_advance-IsServed :
      (c : Choreo (Bse F) F) (wm : WorldModel F) (scr : ScrState) (point : Option (Position F))
      → IsSound c
      → IsServed c
      → IsServed (script_advance (bse_engine trig) c wm scr point)
  unfolding script_advance run_step departure_policy_should_fire
  script_advance-IsServed c wm scr point ok k = elim (Bool-cases (not c.script.active)) [
    | inl e ↦ rw e k
    | inr e ↦ rw e elim (Option-cases (current_step c.script)) [
      | inl g ↦ rw g k
      | inr (st, g) ↦ rw g (
          leave_step-IsServed trig _ st wm _ _ _ point (unparked_lem c ok e)
            (record { parked = k.parked; current = k.current }))
    ]
  ]

  suspended_step_timeout-IsServed :
      (c : Choreo (Bse F) F) (wm : WorldModel F) (scr : ScrState)
      → IsSound c
      → IsServed c
      → IsServed (suspended_step_timeout (bse_engine trig) c wm scr)
  unfolding suspended_step_timeout
  suspended_step_timeout-IsServed c wm scr ok k = elim (Bool-cases (not c.script.active)) [
    | inl e ↦ rw e k
    | inr e ↦ rw e elim (Bool-cases (not (is_isolated wm scr))) [
      | inl i ↦ rw i k
      | inr i ↦ rw i elim (Option-cases (current_step c.script)) [
        | inl g ↦ rw g k
        | inr (st, g) ↦ rw g (
            IsServed-if trig (is_over (spend c) st) _ _
              (advance_to-IsServed trig (spend c) (c.script.step_idx + 1) (unparked_lem c ok e)
                (record { parked = k.parked; current = k.current }))
              (record { parked = k.parked; current = k.current }))
      ]
    ]
  ]

  finish_recall-IsServed :
      (c : Choreo (Bse F) F) → IsServed c → IsServed (finish_recall (bse_engine trig) c)
  unfolding finish_recall
  finish_recall-IsServed c k =
      elim (Bool-cases
        (c.departure.recall_in_progress && (is_running c.state && c.bse.act.achieved))) [
          | inl e ↦ rw e (terminate_hard-IsServed trig _)
          | inr e ↦ rw e k
        ]

  finish_hold-IsServed :
      (c : Choreo (Bse F) F) → IsServed c → IsServed (finish_hold (bse_engine trig) c)
  unfolding finish_hold
  finish_hold-IsServed c k =
      elim (Bool-cases (not (c.departure.hold_in_progress && is_running c.state))) [
        | inl e ↦ rw e k
        | inr e ↦ rw e elim (Bool-cases (leb 30000 (u32 (c.departure.hold_ms + 100)))) [
          | inl h ↦ rw h (terminate_hard-IsServed trig _)
          | inr h ↦ rw h k
        ]
      ]

  -- Running and suspended are alike.
  restate_lem :
      (c : Choreo (Bse F) F) (st : ChoreoState)
      → is_active c.state ≡ true
      → IsServed c
      → IsServed (record c { state = st })
  restate_lem c st a k = record { parked = k.parked; current = λ e. k.current a }

  suspend_if_lost-IsServed :
      (c : Choreo (Bse F) F) (scr : ScrState)
      → IsServed c
      → IsServed (suspend_if_lost (bse_engine trig) scr c)
  unfolding suspend_if_lost
  suspend_if_lost-IsServed c scr k =
      elim (Bool-cases (is_running c.state && is_lost scr.quorum_state)) [
        | inl e ↦ rw e (restate_lem c choreo_suspended (ground arith) k)
        | inr e ↦ rw e k
      ]

  resume_if_held-IsServed :
      (c : Choreo (Bse F) F) (scr : ScrState)
      → IsServed c
      → IsServed (resume_if_held (bse_engine trig) scr c)
  unfolding resume_if_held
  resume_if_held-IsServed c scr k =
      elim (Bool-cases (is_suspended c.state && not (is_lost scr.quorum_state))) [
        | inl e ↦ rw e (restate_lem c choreo_running (ground arith) k)
        | inr e ↦ rw e k
      ]

  scope-Keeps : (b : Bse F) (track : ℕ) → Keeps b (bse_set_track_scope b track)
  unfolding bse_set_track_scope
  scope-Keeps b track = record { intent = refl; parked = refl }

  ticked-Served :
      (c : Choreo (Bse F) F) (wm : WorldModel F) (scr : ScrState)
      → IsServed c
      → Served c.state c.goal c.parked (bse_tick trig c.bse wm scr)
  ticked-Served c wm scr k =
      Served-Keeps c.state c.goal c.parked c.bse _ (bse_tick-Keeps trig c.bse wm scr) k

  scoped-Served :
      (c : Choreo (Bse F) F) (track : ℕ) (wm : WorldModel F) (scr : ScrState)
      → IsServed c
      → Served c.state c.goal c.parked (bse_tick trig (bse_set_track_scope c.bse track) wm scr)
  scoped-Served c track wm scr k =
      Served-Keeps c.state c.goal c.parked _ _ (bse_tick-Keeps trig _ wm scr)
        (Served-Keeps c.state c.goal c.parked c.bse _ (scope-Keeps c.bse track) k)

  empty_lem : (ps : List (Parked F)) → length ps ≡ 0 → ps ≡ []
  empty_lem [] h = refl
  empty_lem (p ∷ ps) h = absurd (omega arith)

  drive-IsServed :
      (c : Choreo (Bse F) F) (wm : WorldModel F) (scr : ScrState)
      → IsServed c
      → IsServed (drive (bse_engine trig) c wm scr)
  unfolding drive
  drive-IsServed c wm scr k = elim (Bool-cases (ltb 0 c.tracks.n_tracks && is_unparked c)) [
    | inl h ↦ rw h (
        let c' = update_track_selection (bse_engine trig) c wm in
        scoped-Served c' (choreo_current_track c'.tracks) wm scr
          (update_track_selection-IsServed trig c wm (empty_lem c.parked (ground arith)) k))
    | inr h ↦ rw h (scoped-Served c (choreo_current_track c.tracks) wm scr k)
  ]

  tick_suspended-IsServed :
      (c : Choreo (Bse F) F) (wm : WorldModel F) (scr : ScrState)
      → IsSound c
      → IsServed c
      → IsServed (tick_suspended (bse_engine trig) c wm scr)
  unfolding tick_suspended
  tick_suspended-IsServed c wm scr ok k = elim (Bool-cases (is_hold c.goal.type)) [
    | inl h ↦ rw h (
        let c' = record c { bse = bse_tick trig c.bse wm scr } in
        resume_if_held-IsServed (suspended_step_timeout (bse_engine trig) c' wm scr) scr
          (suspended_step_timeout-IsServed c' wm scr ok (ticked-Served c wm scr k)))
    | inr h ↦ rw h (resume_if_held-IsServed _ scr (suspended_step_timeout-IsServed c wm scr ok k))
  ]

  tick_running-IsServed :
      (c : Choreo (Bse F) F) (wm : WorldModel F) (scr : ScrState) (point : Option (Position F))
      → is_active c.state ≡ true
      → IsSound c
      → IsServed c
      → IsServed (tick_running (bse_engine trig) c wm scr point)
  unfolding tick_running
  tick_running-IsServed c wm scr point run ok k =
      let c1 = drive (bse_engine trig) c wm scr in
      let c2 = script_advance (bse_engine trig) c1 wm scr point in
      let c3 = finish_recall (bse_engine trig) c2 in
      suspend_if_lost-IsServed (finish_hold (bse_engine trig) c3) scr (
        finish_hold-IsServed c3 (
          finish_recall-IsServed c2 (
            script_advance-IsServed c1 wm scr point
              (drive-IsSound (bse_engine trig) c wm scr run ok) (drive-IsServed c wm scr k))))

  tick_in-IsServed :
      (st : ChoreoState) (c : Choreo (Bse F) F) (wm : WorldModel F) (scr : ScrState)
      (point : Option (Position F))
      → c.state ≡ st
      → IsSound c
      → IsServed c
      → IsServed (tick_in (bse_engine trig) st c wm scr point)
  unfolding tick_in
  tick_in-IsServed choreo_running c wm scr point e ok k =
      tick_running-IsServed c wm scr point (rw e refl) ok k
  tick_in-IsServed choreo_suspended c wm scr point e ok k = tick_suspended-IsServed c wm scr ok k
  tick_in-IsServed _ c wm scr point e ok k = k

  pub choreo_tick-IsServed :
      (c : Choreo (Bse F) F) (wm : WorldModel F) (scr : ScrState) (point : Option (Position F))
      → IsSound c
      → IsServed c
      → IsServed (choreo_tick (bse_engine trig) c wm scr point)
  unfolding choreo_tick
  choreo_tick-IsServed c wm scr point ok k =
      tick_in-IsServed c.state (record c { remote = remote_directive_tick c.remote }) wm scr point
        refl ok (record { parked = k.parked; current = k.current })
