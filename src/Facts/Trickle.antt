-- ===== src/Facts/Trickle.antt =====
-- facts.c, "Trickle" (RFC 6206): the timer that paces fact frames, and hearing a peer's digest.
use tapestry.Prelude.{
  ℕ, ◌+◌, ◌-◌, ◌*◌, ◌/◌, ◌%◌, Bool, true, false, not, ◌&&◌, ◌||◌, ltb, leb, ◌==◌, if◌then◌else◌,
  u32,
}
use tapestry.Facts.Types.{Config, Facts}

module _ {F : Type 0} where
  unfoldable pub start_interval : Facts F → ℕ → ℕ → Facts F
  start_interval t i_ms rnd =
      let half = i_ms / 2 in
      let span = i_ms - half in
      record t {
        trickle_i_ms = i_ms;
        trickle_t_ms = u32 (half + (if ltb 0 span then rnd % span else 0));
        trickle_elapsed_ms = 0;
        trickle_c = 0;
        trickle_fired = false;
        trickle_started = true;
      }

  -- An interval length of 0 marks "restart at the minimum".
  unfoldable pub trickle_reset : Config → Facts F → Facts F
  trickle_reset cfg t =
      if t.trickle_started && ltb cfg.imin_ms t.trickle_i_ms
      then record t { trickle_i_ms = 0 }
      else t

  -- The three parts of wm_fact_trickle_tick(): begin an interval where none runs, ...
  unfoldable pub ensure_started : Config → Facts F → ℕ → Facts F
  ensure_started cfg t rnd =
      if not t.trickle_started || t.trickle_i_ms == 0 then start_interval t cfg.imin_ms rnd else t

  -- ... pass the send point, ...
  unfoldable pub fire : Config → Facts F → Facts F × Bool
  fire cfg t =
      if not t.trickle_fired && leb t.trickle_t_ms t.trickle_elapsed_ms
      then (record t { trickle_fired = true }, ltb t.trickle_c cfg.redundancy)
      else (t, false)

  -- ... and begin the next interval, doubled.
  unfoldable pub next_interval : Config → Facts F → ℕ → Facts F
  next_interval cfg t rnd =
      let next = u32 (t.trickle_i_ms * 2) in
      if leb t.trickle_i_ms t.trickle_elapsed_ms
      then start_interval t (if ltb cfg.imax_ms next then cfg.imax_ms else next) rnd
      else t

  unfoldable pub trickle_tick : Config → Facts F → ℕ → ℕ → Facts F × Bool
  trickle_tick cfg t elapsed_ms rnd =
      let t1 = ensure_started cfg t rnd in
      let t2 = record t1 { trickle_elapsed_ms = u32 (t1.trickle_elapsed_ms + elapsed_ms) } in
      let (t3, send) = fire cfg t2 in (next_interval cfg t3 rnd, send)
