-- ===== src/Choreo/Isolation.antt =====
-- choreo.c, suspended_step_timeout(): an element that stays isolated leaves its step in time.
use mathlib.Core.Path.{subst}
use tapestry.Prelude.{
  ℕ, suc, ◌+◌, ◌*◌, ◌^◌, ◌≤◌, ◌<◌, ◌≡◌, refl, sym, ◌∙◌, ◌⊎◌, inl, inr, true, false, List, [], ◌∷◌,
  Option, some, arith, length, take, length-lt, All, if◌then◌else◌, Bool-cases, u8,
}
use tapestry.Prelude.Floats.{FloatOps}
use tapestry.Facts.Types.{Position}
use tapestry.WorldModel.Types.{WorldModel}
use tapestry.Scr.Types.{ScrState, is_lost}
use tapestry.Choreo.Remote.{choreo_idle, choreo_suspended, remote_directive_tick}
use tapestry.Choreo.Steps.{Step}
use tapestry.Choreo.State.{Engine, Choreo}
use tapestry.Choreo.Lifecycle.{terminate_hard}
use tapestry.Choreo.Scripts.{current_step, advance_to}
use tapestry.Choreo.Cycle.{
  is_isolated, is_over, spend, is_hold, suspended_step_timeout, resume_if_held, tick_suspended,
  tick_in, choreo_tick,
}
use tapestry.Choreo.Quorum.{choreo_terminate_hard}

-- What a tick is given: the world model, the coordination state and the recall point.
pub record Inputs (F : Type 0) : Type 0 where
  pub wm : WorldModel F
  pub scr : ScrState
  pub point : Option (Position F)

module _ {F : Type 0} where
  -- The quorum is lost, and fewer peers take part than the quorum needs.
  abbrev pub Isolates : Inputs F → Type 0
  Isolates i = (is_lost i.scr.quorum_state ≡ true) × (is_isolated i.wm i.scr ≡ true)

module _ {X F : Type 0} where
  -- The element is suspended in a step of its script.
  pub record IsStuck (c : Choreo X F) (st : Step F) : Type 0 where
    pub suspended : c.state ≡ choreo_suspended
    pub active : c.script.active ≡ true
    pub alone : c.parked ≡ []
    pub current : current_step c.script ≡ some st
    pub small : length c.script.steps < 256

  -- The element has gone on to the next step, or its script is over.
  abbrev pub HasLeft : Choreo X F → Choreo X F → Type 0
  HasLeft c c' = (c'.state ≡ choreo_idle) ⊎ (c'.script.step_idx ≡ c.script.step_idx + 1)

module _ {X F : Type 0} ⦃fl : FloatOps F⦄ (engine : Engine X F) where
  unfoldable pub run_ticks : List (Inputs F) → Choreo X F → Choreo X F
  run_ticks [] c = c
  run_ticks (i ∷ is) c = run_ticks is (choreo_tick engine c i.wm i.scr i.point)

  advance-HasLeft :
      (c : Choreo X F)
      → c.parked ≡ []
      → length c.script.steps < 256
      → HasLeft c (advance_to engine c (c.script.step_idx + 1))
  unfolding advance_to terminate_hard
  advance-HasLeft c e small = ground (
    arith,
    choreo_terminate_hard engine
        (record c { script = record (c.script) { step_ms = 0 }; script_done = true }),
    length-lt c.script.steps (u8 (c.script.step_idx + 1)),
  )

  -- The element at the start of suspended_step_timeout().
  abbrev before_timeout : Choreo X F → Inputs F → Choreo X F
  before_timeout c i = record c {
    remote = remote_directive_tick c.remote;
    bse = if is_hold c.goal.type then engine.engine_tick c.bse i.wm i.scr else c.bse;
  }

  resume_lost :
      (c : Choreo X F) (scr : ScrState)
      → is_lost scr.quorum_state ≡ true
      → resume_if_held engine scr c ≡ c
  unfolding resume_if_held
  resume_lost c scr l = ground arith

  tick_suspended_lost :
      (c : Choreo X F) (i : Inputs F)
      → c.state ≡ choreo_suspended
      → is_lost i.scr.quorum_state ≡ true
      → choreo_tick engine c i.wm i.scr i.point
        ≡ suspended_step_timeout engine (before_timeout c i) i.wm i.scr
  unfolding choreo_tick tick_in tick_suspended
  tick_suspended_lost c i e l = elim (Bool-cases (is_hold c.goal.type)) [
    | inl h ↦ rw (choreo_tick, e, tick_in, tick_suspended, h) (resume_lost _ i.scr l)
    | inr h ↦ rw (choreo_tick, e, tick_in, tick_suspended, h) (resume_lost _ i.scr l)
  ]

  step_lem :
      (c : Choreo X F) (i : Inputs F) (st : Step F)
      → IsStuck c st
      → is_isolated i.wm i.scr ≡ true
      → suspended_step_timeout engine c i.wm i.scr ≡ (
          if is_over (spend c) st
          then advance_to engine (spend c) (c.script.step_idx + 1)
          else spend c)
  unfolding suspended_step_timeout
  step_lem c i st k iso = simp (suspended_step_timeout, k.active, iso, k.current)

  -- The timeout of an element that is stuck and isolated.
  timeout_lem :
      (c : Choreo X F) (i : Inputs F) (st : Step F)
      → IsStuck c st
      → is_isolated i.wm i.scr ≡ true
      → let c' = suspended_step_timeout engine c i.wm i.scr in
        HasLeft c c' ⊎ ((c' ≡ spend c) × (is_over (spend c) st ≡ false))
  unfolding suspended_step_timeout
  timeout_lem c i st k iso = elim (Bool-cases (is_over (spend c) st)) [
    | inl o ↦ rw (step_lem c i st k iso, o) (inl (advance-HasLeft (spend c) k.alone k.small))
    | inr o ↦ rw (step_lem c i st k iso, o) (inr (refl, refl))
  ]

  stays_lem :
      (c : Choreo X F) (st : Step F)
      → IsStuck c st
      → is_over (spend c) st ≡ false
      → 0 < st.max_duration_ms
      → c.script.step_ms < 2 ^ 31
      → st.max_duration_ms < 2 ^ 31
      → IsStuck (spend c) st
        × ((spend c).script.step_ms ≡ c.script.step_ms + 100)
        × (c.script.step_ms + 100 < st.max_duration_ms)
  unfolding current_step
  stays_lem c st k o pos ms small = (
    record {
      suspended = k.suspended;
      active = k.active;
      alone = k.alone;
      current = k.current;
      small = k.small;
    },
    omega arith,
    ground arith,
  )

  -- An element that is suspended in a step of its script, with no goal parked, and whose quorum is lost
  -- and which is isolated for as many ticks, one at least, as the step's maximal duration still lasts,
  -- or has run out already, leaves the step after one of them: it goes on to the next step, or its
  -- script is over.  The duration is set, it and the time spent are below 2^31 ms, and the number of
  -- steps fits a uint8_t.
  pub isolated_leaves :
      (inputs : List (Inputs F)) (c : Choreo X F) (st : Step F)
      → IsStuck c st
      → All Isolates inputs
      → 0 < st.max_duration_ms
      → st.max_duration_ms < 2 ^ 31
      → c.script.step_ms < 2 ^ 31
      → 0 < length inputs
      → st.max_duration_ms ≤ c.script.step_ms + 100 * length inputs
      → (k : ℕ) × (k ≤ length inputs) × HasLeft c (run_ticks (take k inputs) c)
  unfolding run_ticks
  isolated_leaves [] c st k iso pos small ms some_ long = absurd (omega arith)
  isolated_leaves (i ∷ is) c st k ((l, isolated), iso) pos small ms some_ long =
      let b = before_timeout c i in
      let kb : IsStuck b st = record {
        suspended = k.suspended;
        active = k.active;
        alone = k.alone;
        current = k.current;
        small = k.small;
      } in
      elim (timeout_lem b i st kb isolated) [
        | inl left ↦ (1, omega arith, rw (tick_suspended_lost c i k.suspended l) left)
        | inr (same, o) ↦
            let (k', ms', lt) = stays_lem b st kb o pos ms small in
            let (n, h, left) =
              isolated_leaves is (spend b) st k' iso pos small (omega arith) (omega arith)
                (omega arith) in
            (
              suc n,
              omega arith,
              subst (λ (x : Choreo X F). HasLeft c (run_ticks (take n is) x))
                  (sym (tick_suspended_lost c i k.suspended l ∙ same)) left,
            )
      ]

  idle_timeout :
      (c : Choreo X F) (i : Inputs F)
      → c.script.active ≡ false
      → suspended_step_timeout engine c i.wm i.scr ≡ c
  unfolding suspended_step_timeout
  idle_timeout c i off = rw (suspended_step_timeout, off) refl

  -- An element that is suspended while no script is active, as when a goal has preempted one, a
  -- departure's hold included, stays as it is for as long as its quorum is lost, however isolated it is
  -- and however long that takes: neither a step's time nor the hold's runs, and nothing is resumed.
  pub preempted_stays :
      (inputs : List (Inputs F)) (c : Choreo X F)
      → c.state ≡ choreo_suspended
      → c.script.active ≡ false
      → All (λ i. is_lost i.scr.quorum_state ≡ true) inputs
      → let c' = run_ticks inputs c in
        (c'.state ≡ choreo_suspended)
        × (c'.goal ≡ c.goal)
        × (c'.script ≡ c.script)
        × (c'.parked ≡ c.parked)
        × (c'.departure ≡ c.departure)
  unfolding run_ticks
  preempted_stays [] c e off lost = (e, refl, refl, refl, refl)
  preempted_stays (i ∷ is) c e off (l, lost) =
      let b = before_timeout c i in
      rw (run_ticks, tick_suspended_lost c i e l ∙ idle_timeout b i off)
        (preempted_stays is b e off lost)
