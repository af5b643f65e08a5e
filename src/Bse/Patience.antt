-- ===== src/Bse/Patience.antt =====
-- bse.c: a goal counts as achieved only after its hold time.
use tapestry.Prelude.{
  ℕ, suc, ◌∙◌, ◌+◌, ◌*◌, ◌≤◌, ◌<◌, ◌≡◌, Bool, true, false, List, [], ◌∷◌, Option, none, some, arith,
  inl, inr, Bool-cases, length, if◌then◌else◌,
}
use tapestry.Prelude.Floats.{FloatOps}
use tapestry.Facts.Types.{Position}
use tapestry.WorldModel.Types.{WorldModel}
use tapestry.Scr.Types.{ScrState}
use tapestry.Choreo.Goals.{Intent}
use tapestry.Bse.Types.{TrigOps, Bse}
use tapestry.Bse.Participants.{own_position}
use tapestry.Bse.Intents.{
  bse_submit_intent, activate, reset_activation, snapshot_prev_goal, fresh_activation,
}
use tapestry.Bse.Achieve.{
  hold_of, count_achieved, achieve_spread, achieve_point, is_hold_intent, is_disperse, achieve,
}
use tapestry.Bse.Tick.{decide, bse_tick}
use tapestry.Bse.Kept.{run_ticks}
use tapestry.Bse.Leaves.{decide-Leaves}

module _ {F : Type 0} where
  -- An intent that is no HOLD, with at most so much time behind it, all of which an achievement needs.
  record Patient (i : Intent F) (most : ℕ) (b : Bse F) : Type 0 where
    pursued : b.intent ≡ i
    spent : b.act.achieve_accum_ms ≤ most
    earned : b.act.achieved ≡ true → hold_of i ≤ b.act.achieve_accum_ms

  Patient-more : (i : Intent F) (most : ℕ) (b : Bse F) → Patient i most b → Patient i (most + 100) b
  Patient-more i most b k = record {
    pursued = k.pursued;
    spent = omega (arith, k.spent);
    earned = k.earned;
  }

  Patient-if :
      (i : Intent F) (most : ℕ) (t : Bool) (b1 b2 : Bse F)
      → Patient i most b1
      → Patient i most b2
      → Patient i most (if t then b1 else b2)
  Patient-if i most true b1 b2 k1 k2 = k1
  Patient-if i most false b1 b2 k1 k2 = k2

  count_lem :
      (i : Intent F) (most : ℕ) (b : Bse F) (met : Bool)
      → Patient i most b
      → Patient i (most + 100) (count_achieved b met)
  unfolding count_achieved
  count_lem i most b true k = record {
    pursued = k.pursued;
    spent = omega (arith, k.spent);
    earned = λ e. ground (arith, k.pursued);
  }
  count_lem i most b false k = record {
    pursued = k.pursued;
    spent = omega arith;
    earned = λ e. ground (arith, k.pursued);
  }

module _ {F : Type 0} ⦃fl : FloatOps F⦄ where
  spread_lem :
      (i : Intent F) (most : ℕ) (b : Bse F) (wm : WorldModel F) (scr : ScrState)
      (own : Option (Position F))
      → Patient i most b
      → Patient i (most + 100) (achieve_spread b wm scr own)
  spread_lem i most b wm scr none k = Patient-more i most b k
  spread_lem i most b wm scr (some own) k = count_lem i most b _ k

  point_lem :
      (i : Intent F) (most : ℕ) (b : Bse F) (own : Option (Position F))
      → Patient i most b
      → Patient i (most + 100) (achieve_point b own)
  point_lem i most b none k = Patient-more i most b k
  point_lem i most b (some own) k = count_lem i most b _ k

  achieve_lem :
      (i : Intent F) (most : ℕ) (b : Bse F) (wm : WorldModel F) (scr : ScrState)
      → is_hold_intent b.intent.type ≡ false
      → Patient i most b
      → Patient i (most + 100) (achieve b wm scr)
  unfolding achieve
  achieve_lem i most b wm scr h k =
      rw (achieve, h)
        (Patient-if i (most + 100) (is_disperse b.intent.type) _ _
          (spread_lem i most b wm scr (own_position wm.entries) k)
          (Patient-if i (most + 100) b.goal_pt_valid _ _
            (point_lem i most b (own_position wm.entries) k)
            (record { pursued = k.pursued; spent = omega arith; earned = λ e. cc })))

module _ {F : Type 0} ⦃fl : FloatOps F⦄ (trig : TrigOps F) where
  tick_lem :
      (i : Intent F) (most : ℕ) (b : Bse F) (wm : WorldModel F) (scr : ScrState)
      → is_hold_intent i.type ≡ false
      → Patient i most b
      → Patient i (most + 100) (bse_tick trig b wm scr)
  unfolding bse_tick
  tick_lem i most b wm scr h k =
      let b0 = record b { goal_pt_valid = false; anchor_lost = false } in
      let l = decide-Leaves trig b0 wm scr b.intent.type in
      achieve_lem i most (decide trig b0 wm scr b.intent.type) wm scr
        (ground (arith, l.intent, k.pursued, h))
        (record {
          pursued = l.intent ∙ k.pursued;
          spent = ground (arith, l.ms, k.spent);
          earned = λ e. ground (arith, l.ms, l.achieved, k.earned, e);
        })

  ticks_lem :
      (i : Intent F) (most : ℕ) (seen : List (WorldModel F × ScrState)) (b : Bse F)
      → is_hold_intent i.type ≡ false
      → Patient i most b
      → Patient i (most + 100 * length seen) (run_ticks trig seen b)
  ticks_lem i most [] b h k = let e : most + 100 * 0 ≡ most = omega arith in rw e k
  ticks_lem i most ((wm, scr) ∷ seen) b h k =
      let e : most + 100 * suc (length seen) ≡ (most + 100) + 100 * length seen = omega arith in
      rw e (ticks_lem i (most + 100) seen _ h (tick_lem i most b wm scr h k))

  submit_lem : (b : Bse F) (i : Intent F) → Patient i 0 (bse_submit_intent b (some i)).0
  unfolding bse_submit_intent activate reset_activation snapshot_prev_goal fresh_activation
  submit_lem b i = record {
    pursued = ground arith;
    spent = ground arith;
    earned = λ e. ground arith;
  }

  -- An intent that is no HOLD is not achieved before its ticks make up its hold time, wherever the
  -- elements are: neither what the intent before it had achieved nor any world model makes it sooner.
  pub achieved_waits :
      (b : Bse F) (i : Intent F) (seen : List (WorldModel F × ScrState))
      → is_hold_intent i.type ≡ false
      → 100 * length seen < hold_of i
      → (run_ticks trig seen (bse_submit_intent b (some i)).0).act.achieved ≡ false
  achieved_waits b i seen h few =
      let k = ticks_lem i 0 seen (bse_submit_intent b (some i)).0 h (submit_lem b i) in
      elim (Bool-cases (run_ticks trig seen (bse_submit_intent b (some i)).0).act.achieved) [
        | inl e ↦ absurd (omega (arith, k.earned e, k.spent))
        | inr e ↦ e
      ]
