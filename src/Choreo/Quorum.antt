-- ===== src/Choreo/Quorum.antt =====
-- choreo.c: what an element does in a tick that finds its quorum lost.
use tapestry.Prelude.{ℕ, ◌+◌, ◌≡◌, refl, ◌⊎◌, inl, inr, true, false, [], Option, arith, Bool-cases}
use tapestry.Prelude.Floats.{FloatOps}
use tapestry.Facts.Types.{Position}
use tapestry.WorldModel.Types.{WorldModel}
use tapestry.Scr.Types.{ScrState, is_lost}
use tapestry.Choreo.Remote.{
  ChoreoState, choreo_idle, choreo_configured, choreo_running, choreo_suspended, choreo_terminated,
  is_running, Remote, remote_directive_tick, choreo_remote_active, choreo_get_directive,
}
use tapestry.Runtime.Cycle.{Directive}
use tapestry.Choreo.State.{Engine, Choreo}
use tapestry.Choreo.Lifecycle.{terminate_hard, choreo_terminate}
use tapestry.Choreo.Scripts.{advance_to}
use tapestry.Choreo.Cycle.{
  spend, is_hold, suspended_step_timeout, suspend_if_lost, resume_if_held, tick_running,
  tick_suspended, tick_in, choreo_tick, steering,
}
use tapestry.Choreo.Sound.{IsSound}
use tapestry.Choreo.Reach.{Reach, Reach-IsSound}

directive_off :
    {F : Type 0} (r : Remote F) (st : ChoreoState) (d : Directive F)
    → is_running st ≡ false
    → choreo_get_directive r st d ≡ d
unfolding choreo_get_directive choreo_remote_active
directive_off r st d off = ground arith

module _ {X F : Type 0} ⦃fl : FloatOps F⦄ (engine : Engine X F) where
  -- With nothing parked, terminating is for good.
  pub choreo_terminate_hard :
      (c : Choreo X F) → c.parked ≡ [] → choreo_terminate engine c ≡ terminate_hard engine c
  unfolding choreo_terminate terminate_hard
  choreo_terminate_hard c e = rw (choreo_terminate, e) refl

  advance_off :
      (c : Choreo X F) (target : ℕ)
      → c.parked ≡ []
      → is_running c.state ≡ false
      → is_running (advance_to engine c target).state ≡ false
  unfolding advance_to terminate_hard
  advance_off c target e off = ground (
    arith,
    choreo_terminate_hard
        (record c { script = record (c.script) { step_ms = 0 }; script_done = true }),
  )

  timeout_off :
      (c : Choreo X F) (wm : WorldModel F) (scr : ScrState)
      → (c.parked ≡ []) ⊎ (c.script.active ≡ false)
      → is_running c.state ≡ false
      → is_running (suspended_step_timeout engine c wm scr).state ≡ false
  unfolding suspended_step_timeout
  timeout_off c wm scr quiet off = ground (arith, advance_off (spend c) (c.script.step_idx + 1))

  suspend_off :
      (c : Choreo X F) (scr : ScrState)
      → is_lost scr.quorum_state ≡ true
      → is_running (suspend_if_lost engine scr c).state ≡ false
  unfolding suspend_if_lost
  suspend_off c scr l = ground arith

  resume_off :
      (c : Choreo X F) (scr : ScrState)
      → is_lost scr.quorum_state ≡ true
      → is_running c.state ≡ false
      → is_running (resume_if_held engine scr c).state ≡ false
  unfolding resume_if_held
  resume_off c scr l off = ground arith

  tick_suspended_off :
      (c : Choreo X F) (wm : WorldModel F) (scr : ScrState)
      → is_lost scr.quorum_state ≡ true
      → (c.parked ≡ []) ⊎ (c.script.active ≡ false)
      → is_running c.state ≡ false
      → is_running (tick_suspended engine c wm scr).state ≡ false
  unfolding tick_suspended
  tick_suspended_off c wm scr l quiet off = elim (Bool-cases (is_hold c.goal.type)) [
    | inl h ↦ rw h (resume_off _ scr l (timeout_off _ wm scr quiet off))
    | inr h ↦ rw h (resume_off _ scr l (timeout_off c wm scr quiet off))
  ]

  tick_in_off :
      (st : ChoreoState) (c : Choreo X F) (wm : WorldModel F) (scr : ScrState)
      (point : Option (Position F))
      → c.state ≡ st
      → is_lost scr.quorum_state ≡ true
      → IsSound c
      → is_running (tick_in engine st c wm scr point).state ≡ false
  unfolding tick_in tick_running
  tick_in_off choreo_running c wm scr point e l ok = suspend_off _ scr l
  tick_in_off choreo_suspended c wm scr point e l ok =
      tick_suspended_off c wm scr l ok.quiet (rw e refl)
  tick_in_off choreo_idle c wm scr point e l ok = rw e refl
  tick_in_off choreo_configured c wm scr point e l ok = rw e refl
  tick_in_off choreo_terminated c wm scr point e l ok = rw e refl

  -- After a tick that finds the quorum lost no element runs, and each one goes by the directive of its
  -- own engine, whatever a remote host has sent and whatever its script did in that tick.  As in Reach,
  -- a submission's numbers of steps fit a uint8_t and submitted tracks have one that admits the element.
  pub lost_stops :
      {c : Choreo X F} (wm : WorldModel F) (scr : ScrState) (point : Option (Position F))
      → Reach engine c
      → is_lost scr.quorum_state ≡ true
      → let c' = choreo_tick engine c wm scr point in
        (is_running c'.state ≡ false) × (steering engine c' ≡ engine.directive c'.bse)
  unfolding choreo_tick
  lost_stops {c} wm scr point r l =
      let off =
        tick_in_off c.state (record c { remote = remote_directive_tick c.remote }) wm scr point refl
          l (Reach-IsSound engine r) in
      (off, directive_off _ _ _ off)
