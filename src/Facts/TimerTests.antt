-- ===== src/Facts/TimerTests.antt =====
-- facts.c, the Trickle timer: the theorems in an interval of a second.
use Prim.Native.Nat.{ℕ}
use tapestry.Prelude.{
  ◌<◌, ◌≡◌, refl, inr, true, false, not, ◌&&◌, arith, leb, ltb, min, ◌*◌, ◌≤◌, ◌||◌,
}
use tapestry.Prelude.Floats.{whole}
use tapestry.Facts.Types.{default_config, Facts, facts_init}
use tapestry.Facts.Trickle.{trickle_tick}
use tapestry.Facts.Timer.{IsTimed, IsRunning, trickle_tick_lem, trickle_tick-IsRunning}

default-IsTimed : IsTimed default_config
default-IsTimed = omega arith

-- An interval of a second, 50 ms before its send point.
abbrev timed : Facts ℕ
timed = record (facts_init default_config) {
  trickle_started = true;
  trickle_i_ms = 1000;
  trickle_t_ms = 700;
  trickle_elapsed_ms = 650;
  trickle_c = 1;
}

timed-IsRunning : IsRunning default_config timed
timed-IsRunning = record {
  started = refl;
  long_enough = omega arith;
  short_enough = omega arith;
  after_half = omega arith;
  before_end = omega arith;
}

trickle_tick-IsRunning_example :
    IsRunning default_config (trickle_tick default_config timed 100 77).0
trickle_tick-IsRunning_example =
    trickle_tick-IsRunning default_config timed 100 77 default-IsTimed (inr (inr timed-IsRunning))

trickle_tick_lem_example :
    let (t', send) = trickle_tick default_config timed 100 77 in
    (send ≡ (not false && leb 700 750 && ltb 1 2))
    × (750 < 1000
        → (t'.trickle_i_ms ≡ 1000)
          × (t'.trickle_fired ≡ (false || leb 700 750))
          × (t'.trickle_elapsed_ms ≡ 750)
          × (t'.trickle_c ≡ 1))
    × (1000 ≤ 750
        → (t'.trickle_i_ms ≡ min (2 * 1000) 8000)
          × (t'.trickle_fired ≡ false)
          × (t'.trickle_elapsed_ms ≡ 0)
          × (t'.trickle_c ≡ 0))
unfolding facts_init
trickle_tick_lem_example =
    trickle_tick_lem default_config timed 100 77 default-IsTimed timed-IsRunning (omega arith)
