-- ===== src/Facts/Timer.antt =====
-- facts.c, wm_fact_trickle_tick(): the bounds of the Trickle timer (RFC 6206).
use tapestry.Prelude.{
  ℕ, ◌+◌, ◌*◌, ◌/◌, ◌%◌, ◌^◌, ◌≤◌, ◌<◌, ◌≡◌, ◌⊎◌, true, false, not, ◌&&◌, ◌||◌, min, arith, ltb,
  leb,
}
use tapestry.Facts.Types.{Config, Facts}
use tapestry.Facts.Trickle.{
  start_interval, trickle_reset, ensure_started, fire, next_interval, trickle_tick,
}

-- A sane configuration: a minimum below a maximum whose double does not wrap.
pub record IsTimed (cfg : Config) : Type 0 where
  pub min_pos : 0 < cfg.imin_ms
  pub ordered : cfg.imin_ms ≤ cfg.imax_ms
  pub small : cfg.imax_ms < 2 ^ 31

module _ {F : Type 0} where
  -- The interval that runs has a length from the minimum to the maximum, and its send point lies in
  -- its second half.
  pub record IsRunning (cfg : Config) (t : Facts F) : Type 0 where
    pub started : t.trickle_started ≡ true
    pub long_enough : cfg.imin_ms ≤ t.trickle_i_ms
    pub short_enough : t.trickle_i_ms ≤ cfg.imax_ms
    pub after_half : t.trickle_i_ms / 2 ≤ t.trickle_t_ms
    pub before_end : t.trickle_t_ms < t.trickle_i_ms

  -- Before the first interval, when a restart is due, or in an interval.
  abbrev pub IsTimer : Config → Facts F → Type 0
  IsTimer cfg t = (t.trickle_started ≡ false) ⊎ (t.trickle_i_ms ≡ 0) ⊎ IsRunning cfg t

  start_interval-IsRunning :
      (cfg : Config) (t : Facts F) (i rnd : ℕ)
      → IsTimed cfg
      → cfg.imin_ms ≤ i
      → i ≤ cfg.imax_ms
      → IsRunning cfg (start_interval t i rnd)
  unfolding start_interval
  start_interval-IsRunning cfg t i rnd c lo hi = ground arith

  ensure_started-IsRunning :
      (cfg : Config) (t : Facts F) (rnd : ℕ)
      → IsTimed cfg
      → IsTimer cfg t
      → IsRunning cfg (ensure_started cfg t rnd)
  unfolding ensure_started
  ensure_started-IsRunning cfg t rnd c h =
      ground (arith, start_interval-IsRunning cfg t cfg.imin_ms rnd c)

  elapse-IsRunning :
      (cfg : Config) (t : Facts F) (e : ℕ)
      → IsRunning cfg t
      → IsRunning cfg (record t { trickle_elapsed_ms = e })
  elapse-IsRunning cfg t e r = ground arith

  fire-IsRunning : (cfg : Config) (t : Facts F) → IsRunning cfg t → IsRunning cfg (fire cfg t).0
  unfolding fire
  fire-IsRunning cfg t r = ground arith

  next_interval-IsRunning :
      (cfg : Config) (t : Facts F) (rnd : ℕ)
      → IsTimed cfg
      → IsRunning cfg t
      → IsRunning cfg (next_interval cfg t rnd)
  unfolding next_interval
  next_interval-IsRunning cfg t rnd c r = ground (
    arith,
    start_interval-IsRunning cfg t cfg.imax_ms rnd c,
    start_interval-IsRunning cfg t (t.trickle_i_ms * 2 % 2 ^ 32) rnd c,
  )

  -- After each wm_fact_trickle_tick(), from any state of the timer, an interval runs whose length is
  -- within the two bounds and whose send point is in its second half.
  pub trickle_tick-IsRunning :
      (cfg : Config) (t : Facts F) (elapsed_ms rnd : ℕ)
      → IsTimed cfg
      → IsTimer cfg t
      → IsRunning cfg (trickle_tick cfg t elapsed_ms rnd).0
  unfolding trickle_tick
  trickle_tick-IsRunning cfg t ms rnd c h =
      next_interval-IsRunning cfg _ rnd c
        (fire-IsRunning cfg _ (elapse-IsRunning cfg _ _ (ensure_started-IsRunning cfg t rnd c h)))

  pub trickle_reset-IsTimer :
      (cfg : Config) (t : Facts F) → IsTimer cfg t → IsTimer cfg (trickle_reset cfg t)
  unfolding trickle_reset
  trickle_reset-IsTimer cfg t h = ground arith

  -- One tick in a running interval.  A frame is due exactly when the send point has passed, was not
  -- passed before, and fewer than K matching digests were heard.  Before the interval's end it goes
  -- on, marked as fired once the send point has passed; at its end one of twice the length begins,
  -- or of the maximum length if that is less, with no digest heard.
  pub trickle_tick_lem :
      (cfg : Config) (t : Facts F) (elapsed_ms rnd : ℕ)
      → IsTimed cfg
      → IsRunning cfg t
      → t.trickle_elapsed_ms + elapsed_ms < 2 ^ 32
      → let e = t.trickle_elapsed_ms + elapsed_ms in
        let (t', send) = trickle_tick cfg t elapsed_ms rnd in
        (send ≡ (not t.trickle_fired && leb t.trickle_t_ms e && ltb t.trickle_c cfg.redundancy))
        × (e < t.trickle_i_ms
            → (t'.trickle_i_ms ≡ t.trickle_i_ms)
              × (t'.trickle_fired ≡ (t.trickle_fired || leb t.trickle_t_ms e))
              × (t'.trickle_elapsed_ms ≡ e)
              × (t'.trickle_c ≡ t.trickle_c))
        × (t.trickle_i_ms ≤ e
            → (t'.trickle_i_ms ≡ min (2 * t.trickle_i_ms) cfg.imax_ms)
              × (t'.trickle_fired ≡ false)
              × (t'.trickle_elapsed_ms ≡ 0)
              × (t'.trickle_c ≡ 0))
  unfolding trickle_tick fire ensure_started next_interval start_interval
  trickle_tick_lem cfg t ms rnd c r small = (ground arith, λ h. ground arith, λ h. ground arith)
