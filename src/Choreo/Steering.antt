-- ===== src/Choreo/Steering.antt =====
-- When a remote directive steers: not after silence, and after a steady stream.
use native.Mathlib.Decide.{dec_lt}
use tapestry.Prelude.{
  ℕ, zero, suc, ◌+◌, ◌*◌, ◌<◌, ◌≤◌, ◌≡◌, refl, ◌⊎◌, inl, inr, true, false, List, [], ◌∷◌, arith,
  Option, none, some, length, u32,
}
use tapestry.WorldModel.Types.{cycle_ms}
use tapestry.Runtime.Cycle.{Directive}
use tapestry.Choreo.Remote.{
  ChoreoState, choreo_running, Remote, remote_stale_ms, remote_adopt_hold_ms, remote_fresh,
  remote_age, remote_directive_tick, choreo_remote_directive, choreo_remote_active,
  choreo_get_directive,
}

module _ {F : Type 0} where
  -- Cycles without a frame.
  unfoldable pub ticks : ℕ → Remote F → Remote F
  ticks zero r = r
  ticks (suc n) r = ticks n (remote_directive_tick r)

  -- What holds in silence: nothing is adopted, and the streak of freshness is 0 while the stream is
  -- stale, and never longer than a cycle more than the age, also after the age has wrapped.
  abbrev pub IsSilent : Remote F → Type 0
  IsSilent r =
      (r.adopted ≡ false)
      × (r.seen ≡ true)
      × (remote_stale_ms ≤ r.age_ms → r.fresh_ms ≡ 0)
      × (r.fresh_ms ≤ r.age_ms + cycle_ms)

  tick-IsSilent : (r : Remote F) → IsSilent r → IsSilent (remote_directive_tick r)
  unfolding remote_directive_tick remote_age remote_fresh
  tick-IsSilent r (a, s, stale, short) = elim (dec_lt r.age_ms remote_stale_ms) [
    | yes young ↦ (ground arith, ground arith, λ h. ground arith, ground arith)
    | no old ↦
        let none : r.fresh_ms ≡ 0 = stale (omega arith) in
        (ground arith, ground arith, λ h. ground arith, ground arith)
  ]

  ticks-IsSilent : (n : ℕ) (r : Remote F) → IsSilent r → IsSilent (ticks n r)
  unfolding ticks
  ticks-IsSilent zero r h = h
  ticks-IsSilent (suc n) r h = ticks-IsSilent n (remote_directive_tick r) (tick-IsSilent r h)

  tick_lem :
      (r : Remote F)
      → r.seen ≡ true
      → ((remote_directive_tick r).seen ≡ true)
        × ((remote_directive_tick r).age_ms ≡ u32 (r.age_ms + cycle_ms))
  unfolding remote_directive_tick remote_age remote_fresh
  tick_lem r s = (ground arith, ground arith)

  first_stale :
      (r : Remote F)
      → r.seen ≡ true
      → r.age_ms + cycle_ms ≡ remote_stale_ms
      → IsSilent (remote_directive_tick r)
  unfolding remote_directive_tick remote_age remote_fresh
  first_stale r s age = (ground arith, ground arith, λ h. ground arith, ground arith)

  -- From k cycles after the last frame to the first stale one.
  silence_from :
      (k n : ℕ) (r : Remote F)
      → r.seen ≡ true
      → r.age_ms + k * cycle_ms ≡ remote_stale_ms
      → 0 < k
      → k ≤ n
      → IsSilent (ticks n r)
  unfolding ticks
  silence_from zero n r s age pos le = absurd (omega arith)
  silence_from (suc k) zero r s age pos le = absurd (omega arith)
  silence_from (suc zero) (suc n) r s age pos le =
      ticks-IsSilent n (remote_directive_tick r) (first_stale r s (omega (arith, age)))
  silence_from (suc (suc k)) (suc n) r s age pos le =
      let (s', a) = tick_lem r s in
      silence_from (suc k) n (remote_directive_tick r) s' (omega (arith, a, age)) (omega arith)
        (omega arith)

  -- Fifteen cycles without a directive end the remote steering, and however many more follow, beyond
  -- the wrap of the age as well, the element goes by its own engine's directive: whatever the state
  -- was when the last directive came.
  pub silence_ends_remote :
      (r : Remote F) (d : Directive F) (goal_id src_id n : ℕ) (state : ChoreoState)
      (local : Directive F)
      → 15 ≤ n
      → choreo_get_directive (ticks n (choreo_remote_directive r d goal_id src_id)) state local
        ≡ local
  unfolding choreo_get_directive choreo_remote_active choreo_remote_directive
  silence_ends_remote r d goal_id src_id n state local le =
      let r0 = choreo_remote_directive r d goal_id src_id in
      let silent = silence_from 15 n r0 refl refl (omega arith) le in
      rw (choreo_get_directive, choreo_remote_active, silent.0) refl

  -- A directive with its goal and its source, if one came.
  abbrev pub receive_if : Option (Directive F × ℕ × ℕ) → Remote F → Remote F
  receive_if none r = r
  receive_if (some (d, goal_id, src_id)) r = choreo_remote_directive r d goal_id src_id

  -- Cycles, each with the directive that came before it, if one did.
  unfoldable pub cycles : List (Option (Directive F × ℕ × ℕ)) → Remote F → Remote F
  cycles [] r = r
  cycles (o ∷ os) r = cycles os (remote_directive_tick (receive_if o r))

  -- After `quiet` cycles without a directive no more than fourteen in a row are without one.
  abbrev pub Steady : ℕ → List (Option (Directive F × ℕ × ℕ)) → Type 0
  Steady quiet [] = Unit
  Steady quiet (none ∷ os) = (quiet + 1 < 15) × Steady (quiet + 1) os
  Steady quiet (some d ∷ os) = Steady 1 os

  -- Fresh, and adopted or on the way to it with `n` cycles to come.
  abbrev pub OnTheWay : ℕ → ℕ → Remote F → Type 0
  OnTheWay quiet n r =
      (r.seen ≡ true)
      × (r.age_ms ≡ quiet * cycle_ms)
      × (quiet < 15)
      × ((r.adopted ≡ true)
          ⊎ ((r.fresh_ms < remote_adopt_hold_ms)
              × (remote_adopt_hold_ms ≤ r.fresh_ms + n * cycle_ms)))

  tick-OnTheWay :
      (quiet n : ℕ) (r : Remote F)
      → quiet + 1 < 15
      → OnTheWay quiet (suc n) r
      → OnTheWay (quiet + 1) n (remote_directive_tick r)
  unfolding remote_directive_tick remote_age remote_fresh
  tick-OnTheWay quiet n r young (s, age, q, inl a) =
      (ground arith, ground arith, young, inl (ground arith))
  tick-OnTheWay quiet n r young (s, age, q, inr (low, room)) =
      elim (dec_lt (r.fresh_ms + cycle_ms) remote_adopt_hold_ms) [
        | yes p ↦ (ground arith, ground arith, young, inr (ground arith, ground arith))
        | no p ↦ (ground arith, ground arith, young, inl (ground arith))
      ]

  -- A stream of directives without a gap of fifteen cycles is adopted and steers the running element:
  -- after as many cycles as the streak of freshness lacks to the hold time, and from then on as long
  -- as the stream goes on.
  pub stream_steers :
      (quiet : ℕ) (os : List (Option (Directive F × ℕ × ℕ))) (r : Remote F)
      → OnTheWay quiet (length os) r
      → Steady quiet os
      → choreo_remote_active (cycles os r) choreo_running ≡ true
  unfolding cycles choreo_remote_active remote_fresh choreo_remote_directive
  stream_steers quiet [] r (s, age, q, inl a) steady = ground arith
  stream_steers quiet [] r (s, age, q, inr (low, room)) steady = absurd (omega arith)
  stream_steers quiet (none ∷ os) r way steady =
      stream_steers (quiet + 1) os (remote_directive_tick r)
        (tick-OnTheWay quiet (length os) r steady.0 way) steady.1
  stream_steers quiet (some (d, goal_id, src_id) ∷ os) r (s, age, q, hold) steady =
      let r0 = choreo_remote_directive r d goal_id src_id in
      stream_steers 1 os (remote_directive_tick r0)
        (tick-OnTheWay 0 (length os) r0 (omega arith) (refl, refl, omega arith, hold)) steady
