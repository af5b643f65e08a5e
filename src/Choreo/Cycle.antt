-- ===== src/Choreo/Cycle.antt =====
-- choreo.c: choreo_tick(), with the advance of the script while it runs and while it is suspended.
use tapestry.Prelude.{
  ℕ, ◌+◌, Bool, true, false, not, ◌&&◌, ◌||◌, Option, none, some, ltb, leb, ◌==◌, length, count,
  if◌then◌else◌, u32, u8,
}
use tapestry.Prelude.Floats.{FloatOps}
use tapestry.Facts.Types.{Position}
use tapestry.WorldModel.Types.{Entry, ElementState, WorldModel, is_participating, cycle_ms}
use tapestry.Scr.Types.{ScrState, is_lost}
use tapestry.Runtime.Cycle.{Directive}
use tapestry.Choreo.Remote.{
  ChoreoState, choreo_running, choreo_suspended, is_running, remote_directive_tick,
  choreo_get_directive,
}
use tapestry.Choreo.Membership.{update_membership_debounce}
use tapestry.Choreo.Goals.{GoalType, goal_hold}
use tapestry.Choreo.Steps.{Policy, land_in_place, recall, Step}
use tapestry.Choreo.State.{Engine, Choreo}
use tapestry.Choreo.Lifecycle.{terminate_hard}
use tapestry.Choreo.Scripts.{current_step, advance_to}
use tapestry.Choreo.Events.{choreo_current_track, track_member_count, achieved_in, first_transition}
use tapestry.Choreo.Departures.{departure_policy_should_fire, trigger_departure_policy}
use tapestry.Choreo.Selection.{update_track_selection}

-- CHOREO_DEPARTURE_HOLD_TIMEOUT_MS
abbrev pub departure_hold_timeout_ms : ℕ
departure_hold_timeout_ms = 30000

abbrev pub is_hold : GoalType → Bool
is_hold goal_hold = true
is_hold _ = false

abbrev pub is_suspended : ChoreoState → Bool
is_suspended choreo_suspended = true
is_suspended _ = false

module _ {X F : Type 0} where
  -- `s_parked_depth == 0`
  abbrev pub is_unparked : Choreo X F → Bool
  is_unparked c = length c.parked == 0

  -- `s_step_ms += WM_CYCLE_MS`
  abbrev pub spend : Choreo X F → Choreo X F
  spend c = record c { script = record (c.script) { step_ms = u32 (c.script.step_ms + cycle_ms) } }

  abbrev pub is_over : Choreo X F → Step F → Bool
  is_over c st = ltb 0 st.max_duration_ms && leb st.max_duration_ms c.script.step_ms

module _ {F : Type 0} where
  -- The peers that an element still has, and how many it needs not to be isolated.
  abbrev pub is_live_peer : Entry F → Bool
  is_live_peer e = not e.is_self && is_participating e

  unfoldable pub is_isolated : WorldModel F → ScrState → Bool
  is_isolated wm scr =
      let need : ℕ = if ltb 0 scr.quorum_min then scr.quorum_min else 1 in
      ltb (u8 (count is_live_peer wm.entries)) need

module _ {X F : Type 0} ⦃fl : FloatOps F⦄ (engine : Engine X F) where
  -- The implicit exit of a step: it is achieved, or its time is up.
  unfoldable pub should_advance : Choreo X F → Step F → WorldModel F → Bool
  should_advance c st wm =
      (st.advance_on_achieved && achieved_in engine c wm st.scope) || is_over c st

  -- What script_advance() does after its bookkeeping.
  unfoldable pub leave_step :
      Choreo X F
      → Step F
      → WorldModel F
      → Option ℕ
      → Bool
      → Policy
      → Option (Position F)
      → Choreo X F
  leave_step c st wm (some target) fires policy point = advance_to engine c target
  leave_step c st wm none fires policy point =
      if fires
      then trigger_departure_policy engine c policy point
      else if should_advance c st wm
      then advance_to engine c (c.script.step_idx + 1)
      else c

  unfoldable pub run_step :
      Choreo X F → Step F → WorldModel F → ScrState → Option (Position F) → Choreo X F
  run_step c st wm scr point =
      let c1 = spend c in
      let (m, joined, lost) =
        update_membership_debounce c1.membership (track_member_count c1.tracks wm scr) in
      let c2 = record c1 { membership = m } in
      let target = first_transition engine c2 st wm scr joined lost st.on in
      let (d, fires, policy) = departure_policy_should_fire c2.departure wm st in
      leave_step (record c2 { departure = d }) st wm target fires policy point

  unfoldable pub script_advance :
      Choreo X F → WorldModel F → ScrState → Option (Position F) → Choreo X F
  script_advance c wm scr point =
      if not c.script.active
      then c
      else (elim (current_step c.script) [ none ↦ c | some st ↦ run_step c st wm scr point ])

  -- suspended_step_timeout()
  unfoldable pub suspended_step_timeout : Choreo X F → WorldModel F → ScrState → Choreo X F
  suspended_step_timeout c wm scr =
      if not c.script.active
      then c
      else if not (is_isolated wm scr)
      then c
      else elim (current_step c.script) [
        | none ↦ c
        | some st ↦
            (let c' = spend c in
              if is_over c' st then advance_to engine c' (c'.script.step_idx + 1) else c')
      ]

  -- The end of a recall: the element has arrived.
  unfoldable pub finish_recall : Choreo X F → Choreo X F
  finish_recall c =
      if c.departure.recall_in_progress && (is_running c.state && engine.goal_achieved c.bse)
      then terminate_hard engine (record c {
        departure = record (c.departure) {
          recall_in_progress = false;
          triggered = true;
          triggered_policy = recall;
        };
        script_done = true;
      })
      else c

  -- The end of a hold: its time is up.
  unfoldable pub finish_hold : Choreo X F → Choreo X F
  finish_hold c =
      if not (c.departure.hold_in_progress && is_running c.state)
      then c
      else (let c' = record c {
        departure = record (c.departure) { hold_ms = u32 (c.departure.hold_ms + cycle_ms) };
      } in
          if leb departure_hold_timeout_ms c'.departure.hold_ms
          then terminate_hard engine (record c' {
            departure = record (c'.departure) {
              hold_in_progress = false;
              triggered = true;
              triggered_policy = land_in_place;
            };
            script_done = true;
          })
          else c')

  -- The two changes between running and suspended.
  unfoldable pub suspend_if_lost : ScrState → Choreo X F → Choreo X F
  suspend_if_lost scr c =
      if is_running c.state && is_lost scr.quorum_state
      then record c { state = choreo_suspended }
      else c

  unfoldable pub resume_if_held : ScrState → Choreo X F → Choreo X F
  resume_if_held scr c =
      if is_suspended c.state && not (is_lost scr.quorum_state)
      then record c { state = choreo_running }
      else c

  -- The engine's part of a running tick.
  unfoldable pub drive : Choreo X F → WorldModel F → ScrState → Choreo X F
  drive c wm scr =
      let c' =
        if ltb 0 c.tracks.n_tracks && is_unparked c
        then update_track_selection engine c wm
        else c in
      record c' {
        bse =
            engine.engine_tick (engine.set_track_scope c'.bse (choreo_current_track c'.tracks)) wm
              scr;
      }

  -- The case CHOREO_STATE_RUNNING.
  unfoldable pub tick_running :
      Choreo X F → WorldModel F → ScrState → Option (Position F) → Choreo X F
  tick_running c wm scr point =
      suspend_if_lost scr
        (finish_hold (finish_recall (script_advance (drive c wm scr) wm scr point)))

  -- The case CHOREO_STATE_SUSPENDED.
  unfoldable pub tick_suspended : Choreo X F → WorldModel F → ScrState → Choreo X F
  tick_suspended c wm scr =
      let c' =
        if is_hold c.goal.type then record c { bse = engine.engine_tick c.bse wm scr } else c in
      resume_if_held scr (suspended_step_timeout c' wm scr)

  -- choreo_tick(), and the state that it switches on.
  unfoldable pub tick_in :
      ChoreoState → Choreo X F → WorldModel F → ScrState → Option (Position F) → Choreo X F
  tick_in choreo_running c wm scr point = tick_running c wm scr point
  tick_in choreo_suspended c wm scr point = tick_suspended c wm scr
  tick_in _ c wm scr point = c

  unfoldable pub choreo_tick :
      Choreo X F → WorldModel F → ScrState → Option (Position F) → Choreo X F
  choreo_tick c wm scr point =
      tick_in c.state (record c { remote = remote_directive_tick c.remote }) wm scr point

  -- choreo_publish_state()
  unfoldable pub choreo_publish_state : Choreo X F → ElementState F → ElementState F
  choreo_publish_state c own = record own {
    goal_achieved = engine.goal_achieved c.bse;
    current_track = choreo_current_track c.tracks;
  }

  -- The directive that steers the element.
  abbrev pub steering : Choreo X F → Directive F
  steering c = choreo_get_directive c.remote c.state (engine.directive c.bse)
