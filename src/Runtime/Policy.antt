-- ===== src/Runtime/Policy.antt =====
-- tapestry_power_tick() over runs of ticks.
use tapestry.Prelude.{
  ℕ, ◌+◌, ◌<◌, ◌≤◌, ◌^◌, suc, ◌≡◌, refl, sym, ap, ◌∙◌, true, false, List, [], ◌∷◌, ◌++◌, arith, ltb,
  if◌then◌else◌, length, All, Bool-cases, inl, inr,
}
use tapestry.Scr.Types.{Quorum, is_lost}
use tapestry.Runtime.Power.{
  active, idle, PowerConfig, PowerCall, set_power, Power, power_init, enter, power_request,
  without_quorum, with_quorum, power_tick,
}

-- A run of ticks: the state after it, and all calls.
pub run_power : PowerConfig → Power → List Quorum → Power × List PowerCall
run_power cfg p [] = (p, [])
run_power cfg p (q ∷ qs) =
    let (p', calls) = power_tick cfg p q in
    let (p'', more) = run_power cfg p' qs in (p'', calls ++ more)

-- Where the policy stands after `k` cycles without quorum.
abbrev pub lost_for : PowerConfig → ℕ → Power
lost_for cfg k = record {
  state = if ltb k cfg.grace_cycles then active else idle;
  quorum_lost_cyc = k;
}

-- The calls from the `k`-th to the `n`-th such cycle.
abbrev pub calls_between : PowerConfig → ℕ → ℕ → List PowerCall
calls_between cfg k n =
    if ltb k cfg.grace_cycles
    then (if ltb n cfg.grace_cycles then [] else set_power idle ∷ [])
    else []

lost_step :
    (cfg : PowerConfig) (k : ℕ) (q : Quorum)
    → cfg.auto_policy ≡ true
    → is_lost q ≡ true
    → k + 1 < 2 ^ 32
    → power_tick cfg (lost_for cfg k) q ≡ (lost_for cfg (k + 1), calls_between cfg k (k + 1))
unfolding power_tick without_quorum power_request enter
lost_step cfg k q a l s = ground arith

calls_join :
    (cfg : PowerConfig) (k n : ℕ)
    → k + 1 ≤ n
    → calls_between cfg k (k + 1) ++ calls_between cfg (k + 1) n ≡ calls_between cfg k n
calls_join cfg k n h = elim (Bool-cases (ltb (k + 1) cfg.grace_cycles)) [
  | inl e ↦ let w : ltb k cfg.grace_cycles ≡ true = ground arith in rw (e, w) refl
  | inr e ↦
      let w : ltb n cfg.grace_cycles ≡ false = ground arith in
      elim (Bool-cases (ltb k cfg.grace_cycles)) [
        | inl v ↦ rw (e, w, v) refl
        | inr v ↦ rw (e, w, v) refl
      ]
]

run_lost :
    (cfg : PowerConfig) (k : ℕ) (qs : List Quorum)
    → cfg.auto_policy ≡ true
    → All (λ q. is_lost q ≡ true) qs
    → k + length qs < 2 ^ 32
    → run_power cfg (lost_for cfg k) qs
      ≡ (lost_for cfg (k + length qs), calls_between cfg k (k + length qs))
unfolding run_power
run_lost cfg k [] a l s =
    let w : k + 0 ≡ k = omega arith in
    let c : calls_between cfg k k ≡ [] = ground arith in rw (w, c) refl
run_lost cfg k (q ∷ qs) a l s =
    let w : k + suc (length qs) ≡ k + 1 + length qs = omega arith in
    rw
      (
        lost_step cfg k q a l.0 (omega arith),
        run_lost cfg (k + 1) qs a l.1 (omega arith),
        w,
        calls_join cfg k (k + 1 + length qs) (omega arith),
      )
      refl

-- The automatic policy, over a run of cycles without quorum from the start.  As long as there are
-- fewer than the grace cycles the element stays active and no call is made; from then on it is idle,
-- and the substrate has been told so exactly once.  One cycle with quorum makes it active again, with
-- one call, and resets the count.
pub policy_lem :
    (cfg : PowerConfig) (qs : List Quorum) (q : Quorum)
    → cfg.auto_policy ≡ true
    → 0 < cfg.grace_cycles
    → All (λ q. is_lost q ≡ true) qs
    → length qs < 2 ^ 32
    → is_lost q ≡ false
    → let (p, calls) = run_power cfg power_init.0 qs in
      let (p', more) = power_tick cfg p q in
      (length qs < cfg.grace_cycles → (p.state ≡ active) × (calls ≡ []) × (more ≡ []))
      × (cfg.grace_cycles ≤ length qs
          → (p.state ≡ idle) × (calls ≡ set_power idle ∷ []) × (more ≡ set_power active ∷ []))
      × (p' ≡ power_init.0)
unfolding power_init power_tick with_quorum power_request enter
policy_lem cfg qs q a g l s h =
    let z : ltb 0 cfg.grace_cycles ≡ true = ground arith in
    let w : run_power cfg power_init.0 qs
        ≡ (lost_for cfg (length qs), calls_between cfg 0 (length qs)) =
      from_start z in
    rw w (elim (Bool-cases (ltb (length qs) cfg.grace_cycles)) [
      | inl e ↦ rw (e, z, a, h) ((λ _. (refl, refl, refl)), (λ k. absurd (ground arith)), refl)
      | inr e ↦ rw (e, z, a, h) ((λ k. absurd (ground arith)), (λ _. (refl, refl, refl)), refl)
    ])
  where
    from_start :
        ltb 0 cfg.grace_cycles ≡ true
        → run_power cfg power_init.0 qs
          ≡ (lost_for cfg (length qs), calls_between cfg 0 (length qs))
    from_start z =
        let n : 0 + length qs ≡ length qs = omega arith in
        let w : run_power cfg (lost_for cfg 0) qs
            ≡ (lost_for cfg (0 + length qs), calls_between cfg 0 (0 + length qs)) =
          run_lost cfg 0 qs a l (omega arith) in
        let start : lost_for cfg 0 ≡ power_init.0 = rw z refl in
        ap (λ p. run_power cfg p qs) (sym start) ∙ w ∙ rw n refl
