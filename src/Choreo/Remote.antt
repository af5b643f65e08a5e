-- ===== src/Choreo/Remote.antt =====
-- choreo.c, "Remote L6 directives": the stream of directives from another host, when it is adopted
-- and when the element falls back to its own.
use tapestry.Prelude.{ℕ, ◌+◌, Bool, true, false, not, ◌&&◌, ltb, leb, if◌then◌else◌, u32}
use tapestry.WorldModel.Types.{cycle_ms}
use tapestry.Runtime.Cycle.{Directive}

-- CHOREO_REMOTE_STALE_MS
abbrev pub remote_stale_ms : ℕ
remote_stale_ms = 1500

-- CHOREO_REMOTE_ADOPT_HOLD_MS
abbrev pub remote_adopt_hold_ms : ℕ
remote_adopt_hold_ms = 2000

-- choreo_state_t
pub data ChoreoState : Type 0 where
  choreo_idle choreo_configured choreo_running choreo_suspended choreo_terminated : ChoreoState

abbrev pub is_running : ChoreoState → Bool
is_running choreo_running = true
is_running _ = false

pub record Remote (F : Type 0) : Type 0 where
  pub dir : Directive F
  pub goal_id : ℕ
  pub src : ℕ
  pub seen : Bool
  pub age_ms : ℕ
  pub fresh_ms : ℕ
  pub adopted : Bool

module _ {F : Type 0} where
  -- The reset in choreo_init(), which leaves the directive.
  unfoldable pub remote_init : Remote F → Remote F
  remote_init r = record r { seen = false; adopted = false; age_ms = 0; fresh_ms = 0 }

  unfoldable pub remote_fresh : Remote F → Bool
  remote_fresh r = r.seen && ltb r.age_ms remote_stale_ms

  -- remote_directive_tick(), behind its early return.
  unfoldable pub remote_age : Remote F → Remote F
  remote_age r =
      let r1 = record r { age_ms = u32 (r.age_ms + cycle_ms) } in
      let r2 = record r1 { fresh_ms = u32 (r1.fresh_ms + cycle_ms) } in
      if not (remote_fresh r1)
      then record r1 { adopted = false; fresh_ms = 0 }
      else if leb remote_adopt_hold_ms r2.fresh_ms
      then record r2 { adopted = true }
      else r2

  unfoldable pub remote_directive_tick : Remote F → Remote F
  remote_directive_tick r = if not r.seen then r else remote_age r

  -- choreo_remote_directive()
  unfoldable pub choreo_remote_directive : Remote F → Directive F → ℕ → ℕ → Remote F
  choreo_remote_directive r d goal_id src_id = record r {
    dir = d;
    goal_id = goal_id;
    src = src_id;
    seen = true;
    age_ms = 0;
  }

  -- choreo_remote_active()
  unfoldable pub choreo_remote_active : Remote F → ChoreoState → Bool
  choreo_remote_active r state = r.adopted && (remote_fresh r && is_running state)

  -- choreo_get_directive(), with the directive of the local engine.
  unfoldable pub choreo_get_directive : Remote F → ChoreoState → Directive F → Directive F
  choreo_get_directive r state local = if choreo_remote_active r state then r.dir else local
