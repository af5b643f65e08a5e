-- ===== src/Runtime/Schedule.antt =====
-- tapestry_runtime_tick(): when gossip frames are sent.
use tapestry.Prelude.{
  ℕ, zero, suc, ◌+◌, ◌*◌, ◌%◌, ◌^◌, ◌<◌, ◌≤◌, ◌≡◌, refl, sym, ap, ◌∙◌, ◌⊎◌, inl, inr, Bool, true,
  not, ◌&&◌, List, [], ◌∷◌, ◌++◌, arith, leb, ◌==◌, if◌then◌else◌, length, length-append, count,
  Bool-cases,
}
use tapestry.Prelude.Floats.{FloatOps}
use tapestry.Facts.Types.{Config}
use tapestry.WorldModel.Types.{cycle_ms}
use tapestry.Scr.Types.{ScrState, is_triggered}
use tapestry.Runtime.Power.{PowerConfig}
use tapestry.Runtime.Cycle.{
  Services, Runtime, Sent, qos_hard_rt, gossip_interval_ms, sense, send_now, alarm, count_election,
  gossip, act, runtime_tick,
}

module _ {F : Type 0} where
  -- The frames that are sent out of turn.
  abbrev pub urgent : List (Sent F) → ℕ
  urgent = count (λ f. f.qos == qos_hard_rt)

  -- In the interval, or at its end at the latest with the next tick.
  abbrev pub InInterval : Runtime F → Type 0
  InInterval r = r.gossip_accum_ms < gossip_interval_ms

  -- What one tick from `r` must do, of which `accum`, `before` and `ready` are read.
  abbrev pub Acts : ℕ → Bool → Runtime F → List (Sent F) → Type 0
  Acts accum before r' sent =
      (urgent sent ≡ (if is_triggered r'.scr.abort_state && not before then 1 else 0))
      × (r'.last_abort_state ≡ r'.scr.abort_state)
      × ((0 < length sent) ⊎ (r'.gossip_accum_ms ≡ accum + cycle_ms))
      × InInterval r'
      × (r'.ready ≡ true)

  urgent-append : (xs ys : List (Sent F)) → urgent (xs ++ ys) ≡ urgent xs + urgent ys
  unfolding count
  urgent-append [] ys = omega arith
  urgent-append (x ∷ xs) ys = omega (arith, urgent-append xs ys)

  count_election-keeps :
      (r : Runtime F)
      → ((count_election r).ready ≡ r.ready)
        × ((count_election r).gossip_accum_ms ≡ r.gossip_accum_ms)
        × ((count_election r).scr ≡ r.scr)
        × ((count_election r).last_abort_state ≡ r.last_abort_state)
  unfolding count_election
  count_election-keeps r = ground arith

module _ {X F : Type 0} ⦃fl : FloatOps F⦄ where
  alarm_lem :
      (sv : Services X F) (r : Runtime F) (x : X)
      → let (r', x', sent) = alarm sv r x in
        (urgent sent ≡ (
          if is_triggered r.scr.abort_state && not (is_triggered r.last_abort_state) then 1 else 0))
        × (r'.last_abort_state ≡ r.scr.abort_state)
        × (r'.scr ≡ r.scr)
        × (r'.ready ≡ r.ready)
        × (((0 < length sent) × (r'.gossip_accum_ms ≡ 0))
            ⊎ (r'.gossip_accum_ms ≡ r.gossip_accum_ms))
  unfolding alarm send_now count
  alarm_lem sv r x =
      elim (Bool-cases (is_triggered r.scr.abort_state && not (is_triggered r.last_abort_state))) [
        | inl e ↦ rw e (omega arith, refl, refl, refl, inl (omega arith, refl))
        | inr e ↦ rw e (refl, refl, refl, refl, inr refl)
      ]

  gossip_lem :
      (sv : Services X F) (r : Runtime F) (x : X)
      → InInterval r
      → let (r', x', sent) = gossip sv r x in
        (urgent sent ≡ 0)
        × (r'.last_abort_state ≡ r.last_abort_state)
        × (r'.scr ≡ r.scr)
        × (r'.ready ≡ r.ready)
        × InInterval r'
        × ((0 < length sent) ⊎ (r'.gossip_accum_ms ≡ r.gossip_accum_ms + cycle_ms))
  unfolding gossip send_now count
  gossip_lem sv r x h =
      elim (Bool-cases (leb gossip_interval_ms ((r.gossip_accum_ms + cycle_ms) % 2 ^ 32))) [
        | inl e ↦ rw e (refl, refl, refl, refl, omega arith, inl (omega arith))
        | inr e ↦ rw e (refl, refl, refl, refl, ground arith, inr (omega arith))
      ]

  act_lem :
      (sv : Services X F) (pc : PowerConfig) (r : Runtime F) (x : X)
      → r.ready ≡ true
      → InInterval r
      → let (r', x', sent, calls) = act sv pc r x in
        Acts r.gossip_accum_ms (is_triggered r.last_abort_state) r' sent
  unfolding act
  act_lem sv pc r x ready h =
      let (r1, x1, now) = alarm sv r x in
      let (kr, ka, ks, kl) = count_election-keeps r1 in
      let (au, al, asc, ar, ai) = alarm_lem sv r x in
      let (gu, gl, gs, gr, gi, ga) = gossip_lem sv (count_election r1) x1 (ground arith) in
      let (r2, x2, later) = gossip sv (count_election r1) x1 in
      let same : r2.scr ≡ r.scr = gs ∙ ks ∙ asc in
      let n = length-append now later in
      let u = urgent-append now later in
      (
        rw same (omega (arith, u, gu, au)),
        gl ∙ kl ∙ al ∙ ap (λ (c : ScrState). c.abort_state) (sym same),
        elim ga [
          | inl p ↦ inl (omega (arith, n, p))
          | inr p ↦ elim ai [
            | inl (q, z) ↦ inl (omega (arith, n, q))
            | inr z ↦ inr (omega (arith, p, z, ka))
          ]
        ],
        gi,
        gr ∙ kr ∙ ar ∙ ready,
      )

  runtime_tick-act :
      (sv : Services X F) (cfg : Config) (pc : PowerConfig) (r : Runtime F) (x : X)
      → r.ready ≡ true
      → runtime_tick sv cfg pc r x ≡ act sv pc (sense sv cfg r x).0 (sense sv cfg r x).1
  unfolding runtime_tick
  runtime_tick-act sv cfg pc r x ready = simp ready

  -- One tick of a runtime that is ready and within its interval.  It sends an urgent frame, and one
  -- only, exactly if the abort signal is TRIGGERED and was not after the tick before.  It sends some
  -- frame or the interval goes on by one cycle, and does not run over.
  pub runtime_tick_lem :
      (sv : Services X F) (cfg : Config) (pc : PowerConfig) (r : Runtime F) (x : X)
      → r.ready ≡ true
      → InInterval r
      → let (r', x', sent, calls) = runtime_tick sv cfg pc r x in
        Acts r.gossip_accum_ms (is_triggered r.last_abort_state) r' sent
  unfolding sense
  runtime_tick_lem sv cfg pc r x ready h =
      rw (runtime_tick-act sv cfg pc r x ready)
        (act_lem sv pc (sense sv cfg r x).0 (sense sv cfg r x).1 ready h)

  -- A number of ticks: the state after them, and all frames.
  pub run : Services X F → Config → PowerConfig → ℕ → Runtime F → X → Runtime F × X × List (Sent F)
  run sv cfg pc zero r x = (r, x, [])
  run sv cfg pc (suc n) r x =
      let (r', x', sent, calls) = runtime_tick sv cfg pc r x in
      let (r'', x'', more) = run sv cfg pc n r' x' in (r'', x'', sent ++ more)

  sends_within :
      (sv : Services X F) (cfg : Config) (pc : PowerConfig) (n : ℕ) (r : Runtime F) (x : X)
      → r.ready ≡ true
      → InInterval r
      → gossip_interval_ms ≤ r.gossip_accum_ms + n * cycle_ms
      → 0 < length (run sv cfg pc n r x).2
  unfolding run
  sends_within sv cfg pc zero r x ready h k = absurd (omega (arith, h, k))
  sends_within sv cfg pc (suc n) r x ready h k =
      let (r', x', sent, calls) = runtime_tick sv cfg pc r x in
      let (u, l, s, i, ready') = runtime_tick_lem sv cfg pc r x ready h in
      let m = length-append sent (run sv cfg pc n r' x').2 in
      elim s [
        | inl p ↦ omega (arith, m, p)
        | inr p ↦ omega (arith, m, sends_within sv cfg pc n r' x' ready' i (omega (arith, p, k)))
      ]

  -- Gossip never stops.  Whatever the transport delivers and the choreography does, a runtime that is
  -- ready and within its interval sends a frame in any five ticks in a row.
  pub five_ticks_send :
      (sv : Services X F) (cfg : Config) (pc : PowerConfig) (r : Runtime F) (x : X)
      → r.ready ≡ true
      → InInterval r
      → 0 < length (run sv cfg pc 5 r x).2
  five_ticks_send sv cfg pc r x ready h = sends_within sv cfg pc 5 r x ready h (omega arith)
