-- ===== src/Choreo/Ticking.antt =====
-- choreo.c: a tick keeps what holds of the storage.
use tapestry.Prelude.{
  ℕ, ◌+◌, ◌≡◌, refl, inl, inr, Bool, true, false, not, ◌&&◌, List, [], ◌∷◌, Option, none, some,
  arith, ltb, leb, length, Bool-cases, Option-cases, u32,
}
use tapestry.Prelude.Floats.{FloatOps}
use tapestry.Facts.Types.{Position}
use tapestry.WorldModel.Types.{WorldModel}
use tapestry.Scr.Types.{ScrState, is_lost}
use tapestry.Choreo.Remote.{
  ChoreoState, choreo_running, choreo_suspended, is_running, remote_directive_tick,
}
use tapestry.Choreo.Steps.{Step, Policy}
use tapestry.Choreo.State.{Engine, Parked, Choreo, is_active}
use tapestry.Choreo.Scripts.{current_step}
use tapestry.Choreo.Departures.{departure_policy_should_fire}
use tapestry.Choreo.Cycle.{
  is_suspended, is_unparked, is_isolated, is_over, spend, should_advance, leave_step, run_step,
  script_advance, suspended_step_timeout, finish_recall, finish_hold, suspend_if_lost,
  resume_if_held, drive, tick_running, tick_suspended, tick_in, choreo_tick, is_hold,
}
use tapestry.Choreo.Sound.{IsSound}
use tapestry.Choreo.Migration.{update_track_selection-IsSound}
use tapestry.Choreo.Kept.{terminate_hard-IsSound, spend_lem, advance_to-IsSound, trigger-IsSound}

module _ {X F : Type 0} ⦃fl : FloatOps F⦄ (engine : Engine X F) where
  leave_step-IsSound :
      (c : Choreo X F) (st : Step F) (wm : WorldModel F) (target : Option ℕ) (fires : Bool)
      (policy : Policy) (point : Option (Position F))
      → IsSound c
      → IsSound (leave_step engine c st wm target fires policy point)
  unfolding leave_step
  leave_step-IsSound c st wm (some target) fires policy point ok =
      advance_to-IsSound engine c target ok
  leave_step-IsSound c st wm none true policy point ok = trigger-IsSound engine c policy point ok
  leave_step-IsSound c st wm none false policy point ok =
      elim (Bool-cases (should_advance engine c st wm)) [
        | inl e ↦ rw e (advance_to-IsSound engine c (c.script.step_idx + 1) ok)
        | inr e ↦ rw e ok
      ]

  script_advance-IsSound :
      (c : Choreo X F) (wm : WorldModel F) (scr : ScrState) (point : Option (Position F))
      → IsSound c
      → IsSound (script_advance engine c wm scr point)
  unfolding script_advance run_step departure_policy_should_fire
  script_advance-IsSound c wm scr point ok = elim (Bool-cases (not c.script.active)) [
    | inl e ↦ rw e ok
    | inr e ↦ rw e elim (Option-cases (current_step c.script)) [
      | inl g ↦ rw g ok
      | inr (st, g) ↦ rw g (
          leave_step-IsSound _ st wm _ _ _ point
            (spend_lem engine c (u32 (c.script.step_ms + 100)) ok))
    ]
  ]

  suspended_step_timeout-IsSound :
      (c : Choreo X F) (wm : WorldModel F) (scr : ScrState)
      → IsSound c
      → IsSound (suspended_step_timeout engine c wm scr)
  unfolding suspended_step_timeout
  suspended_step_timeout-IsSound c wm scr ok = elim (Bool-cases (not c.script.active)) [
    | inl e ↦ rw e ok
    | inr e ↦ rw e elim (Bool-cases (not (is_isolated wm scr))) [
      | inl i ↦ rw i ok
      | inr i ↦ rw i elim (Option-cases (current_step c.script)) [
        | inl g ↦ rw g ok
        | inr (st, g) ↦ rw g elim (Bool-cases (is_over (spend c) st)) [
          | inl o ↦ rw o (
              advance_to-IsSound engine (spend c) (c.script.step_idx + 1)
                (spend_lem engine c (u32 (c.script.step_ms + 100)) ok))
          | inr o ↦ rw o (spend_lem engine c (u32 (c.script.step_ms + 100)) ok)
        ]
      ]
    ]
  ]

  finish_recall-IsSound : (c : Choreo X F) → IsSound c → IsSound (finish_recall engine c)
  unfolding finish_recall
  finish_recall-IsSound c ok =
      elim (Bool-cases
        (c.departure.recall_in_progress && (is_running c.state && engine.goal_achieved c.bse))) [
          | inl e ↦ rw e (terminate_hard-IsSound engine _)
          | inr e ↦ rw e ok
        ]

  finish_hold-IsSound : (c : Choreo X F) → IsSound c → IsSound (finish_hold engine c)
  unfolding finish_hold
  finish_hold-IsSound c ok =
      elim (Bool-cases (not (c.departure.hold_in_progress && is_running c.state))) [
        | inl e ↦ rw e ok
        | inr e ↦ rw e elim (Bool-cases (leb 30000 (u32 (c.departure.hold_ms + 100)))) [
          | inl h ↦ rw h (terminate_hard-IsSound engine _)
          | inr h ↦ rw h ok
        ]
      ]

  -- Running and suspended are alike.
  restate_lem :
      (c : Choreo X F) (st : ChoreoState)
      → is_active st ≡ true
      → IsSound c
      → IsSound (record c { state = st })
  restate_lem c st a ok = record {
    script = ok.script;
    parked = ok.parked;
    one = ok.one;
    quiet = ok.quiet;
    cleared = inl a;
    tracks = ok.tracks;
  }

  suspend_if_lost-IsSound :
      (c : Choreo X F) (scr : ScrState) → IsSound c → IsSound (suspend_if_lost engine scr c)
  unfolding suspend_if_lost
  suspend_if_lost-IsSound c scr ok =
      elim (Bool-cases (is_running c.state && is_lost scr.quorum_state)) [
        | inl e ↦ rw e (restate_lem c choreo_suspended refl ok)
        | inr e ↦ rw e ok
      ]

  resume_if_held-IsSound :
      (c : Choreo X F) (scr : ScrState) → IsSound c → IsSound (resume_if_held engine scr c)
  unfolding resume_if_held
  resume_if_held-IsSound c scr ok =
      elim (Bool-cases (is_suspended c.state && not (is_lost scr.quorum_state))) [
        | inl e ↦ rw e (restate_lem c choreo_running refl ok)
        | inr e ↦ rw e ok
      ]

  empty_lem : (ps : List (Parked F)) → length ps ≡ 0 → ps ≡ []
  empty_lem [] h = refl
  empty_lem (p ∷ ps) h = absurd (omega arith)

  pub drive-IsSound :
      (c : Choreo X F) (wm : WorldModel F) (scr : ScrState)
      → is_active c.state ≡ true
      → IsSound c
      → IsSound (drive engine c wm scr)
  unfolding drive
  drive-IsSound c wm scr run ok = elim (Bool-cases (ltb 0 c.tracks.n_tracks && is_unparked c)) [
    | inl h ↦
        rw h (update_track_selection-IsSound engine c wm (empty_lem c.parked (ground arith)) run ok)
    | inr h ↦ rw h ok
  ]

  tick_suspended-IsSound :
      (c : Choreo X F) (wm : WorldModel F) (scr : ScrState)
      → IsSound c
      → IsSound (tick_suspended engine c wm scr)
  unfolding tick_suspended
  tick_suspended-IsSound c wm scr ok = elim (Bool-cases (is_hold c.goal.type)) [
    | inl h ↦ rw h (resume_if_held-IsSound _ scr (suspended_step_timeout-IsSound _ wm scr ok))
    | inr h ↦ rw h (resume_if_held-IsSound _ scr (suspended_step_timeout-IsSound c wm scr ok))
  ]

  tick_running-IsSound :
      (c : Choreo X F) (wm : WorldModel F) (scr : ScrState) (point : Option (Position F))
      → is_active c.state ≡ true
      → IsSound c
      → IsSound (tick_running engine c wm scr point)
  unfolding tick_running
  tick_running-IsSound c wm scr point run ok =
      let c1 = drive engine c wm scr in
      let c2 = script_advance engine c1 wm scr point in
      let c3 = finish_recall engine c2 in
      suspend_if_lost-IsSound (finish_hold engine c3) scr (
        finish_hold-IsSound c3 (
          finish_recall-IsSound c2
            (script_advance-IsSound c1 wm scr point (drive-IsSound c wm scr run ok))))

  tick_in-IsSound :
      (st : ChoreoState) (c : Choreo X F) (wm : WorldModel F) (scr : ScrState)
      (point : Option (Position F))
      → c.state ≡ st
      → IsSound c
      → IsSound (tick_in engine st c wm scr point)
  unfolding tick_in
  tick_in-IsSound choreo_running c wm scr point e ok =
      tick_running-IsSound c wm scr point (rw e refl) ok
  tick_in-IsSound choreo_suspended c wm scr point e ok = tick_suspended-IsSound c wm scr ok
  tick_in-IsSound _ c wm scr point e ok = ok

  pub choreo_tick-IsSound :
      (c : Choreo X F) (wm : WorldModel F) (scr : ScrState) (point : Option (Position F))
      → IsSound c
      → IsSound (choreo_tick engine c wm scr point)
  unfolding choreo_tick
  choreo_tick-IsSound c wm scr point ok =
      tick_in-IsSound c.state (record c { remote = remote_directive_tick c.remote }) wm scr point
        refl ok
