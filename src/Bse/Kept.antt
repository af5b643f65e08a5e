-- ===== src/Bse/Kept.antt =====
-- bse.c: what a tick leaves alone, and an intent that is parked and resumed.
use mathlib.Core.Path.{◌∙◌}
use tapestry.Prelude.{
  ◌≡◌, refl, Bool, true, false, List, [], ◌∷◌, Option, none, some, arith, ◌&&◌, if◌then◌else◌,
}
use tapestry.Prelude.Floats.{FloatOps}
use tapestry.Facts.Types.{Position}
use tapestry.WorldModel.Types.{WorldModel}
use tapestry.Scr.Types.{ScrState}
use tapestry.Choreo.Goals.{Intent}
use tapestry.Bse.Types.{TrigOps, ParkedIntent, Bse}
use tapestry.Bse.Participants.{own_position}
use tapestry.Bse.Intents.{
  bse_preempt_intent, bse_resume_intent, activate, reset_activation, snapshot_prev_goal,
}
use tapestry.Bse.Achieve.{
  count_achieved, achieve_spread, achieve_point, is_hold_intent, is_disperse, achieve,
}
use tapestry.Bse.Tick.{decide, bse_tick}
use tapestry.Bse.Leaves.{decide-Leaves}

module _ {F : Type 0} where
  -- The intent, and what is parked, are those from before.
  pub record Keeps (b b' : Bse F) : Type 0 where
    pub intent : b'.intent ≡ b.intent
    pub parked : b'.parked ≡ b.parked

  Keeps-trans : {b b1 b2 : Bse F} → Keeps b b1 → Keeps b1 b2 → Keeps b b2
  Keeps-trans k1 k2 = record { intent = k2.intent ∙ k1.intent; parked = k2.parked ∙ k1.parked }

  Keeps-if :
      (b : Bse F) (t : Bool) (b1 b2 : Bse F)
      → Keeps b b1
      → Keeps b b2
      → Keeps b (if t then b1 else b2)
  Keeps-if b true b1 b2 k1 k2 = k1
  Keeps-if b false b1 b2 k1 k2 = k2

  pub resume_lem :
      (b : Bse F) (p : ParkedIntent F) (ps : List (ParkedIntent F))
      → b.parked ≡ p ∷ ps
      → ((bse_resume_intent b).0.intent ≡ p.intent)
        × ((bse_resume_intent b).0.act ≡ p.act)
        × ((bse_resume_intent b).0.parked ≡ ps)
        × ((bse_resume_intent b).1 ≡ true)
  unfolding bse_resume_intent
  resume_lem b p ps h = rw h (refl, refl, refl, refl)

module _ {F : Type 0} ⦃fl : FloatOps F⦄ where
  achieve_spread-Keeps :
      (b : Bse F) (wm : WorldModel F) (scr : ScrState) (p : Option (Position F))
      → Keeps b (achieve_spread b wm scr p)
  unfolding count_achieved
  achieve_spread-Keeps b wm scr none = record { intent = refl; parked = refl }
  achieve_spread-Keeps b wm scr (some p) = record { intent = refl; parked = refl }

  achieve_point-Keeps : (b : Bse F) (p : Option (Position F)) → Keeps b (achieve_point b p)
  unfolding count_achieved
  achieve_point-Keeps b none = record { intent = refl; parked = refl }
  achieve_point-Keeps b (some p) = record { intent = refl; parked = refl }

  achieve-Keeps : (b : Bse F) (wm : WorldModel F) (scr : ScrState) → Keeps b (achieve b wm scr)
  unfolding achieve
  achieve-Keeps b wm scr =
      Keeps-if b (is_hold_intent b.intent.type && b.act.hold_captured) _ _
        (record { intent = refl; parked = refl })
        (Keeps-if b (is_disperse b.intent.type) _ _
          (achieve_spread-Keeps b wm scr (own_position wm.entries))
          (Keeps-if b b.goal_pt_valid _ _ (achieve_point-Keeps b (own_position wm.entries))
            (record { intent = refl; parked = refl })))

module _ {F : Type 0} ⦃fl : FloatOps F⦄ (trig : TrigOps F) where
  pub bse_tick-Keeps :
      (b : Bse F) (wm : WorldModel F) (scr : ScrState) → Keeps b (bse_tick trig b wm scr)
  unfolding bse_tick
  bse_tick-Keeps b wm scr =
      let b' = record b { goal_pt_valid = false; anchor_lost = false } in
      let kept = decide-Leaves trig b' wm scr b.intent.type in
      Keeps-trans (record { intent = kept.intent; parked = kept.parked })
        (achieve-Keeps (decide trig b' wm scr b.intent.type) wm scr)

  -- Ticks in a row, each with what it sees.
  abbrev pub run_ticks : List (WorldModel F × ScrState) → Bse F → Bse F
  run_ticks [] b = b
  run_ticks ((wm, scr) ∷ seen) b = run_ticks seen (bse_tick trig b wm scr)

  pub run_ticks-Keeps :
      (seen : List (WorldModel F × ScrState)) (b : Bse F) → Keeps b (run_ticks seen b)
  run_ticks-Keeps [] b = record { intent = refl; parked = refl }
  run_ticks-Keeps ((wm, scr) ∷ seen) b =
      Keeps-trans (bse_tick-Keeps b wm scr) (run_ticks-Keeps seen (bse_tick trig b wm scr))

  preempt-parked :
      (b : Bse F) (i : Intent F)
      → b.parked ≡ []
      → (bse_preempt_intent b (some i)).0.parked ≡ record { intent = b.intent; act = b.act } ∷ []
  unfolding bse_preempt_intent activate reset_activation snapshot_prev_goal
  preempt-parked b i h = ground arith

  -- A preemption while nothing is parked, then any number of ticks, then a resumption: the intent that
  -- was displaced is active again, with all that its activation had gathered, and nothing is parked.
  pub preempt_resume :
      (b : Bse F) (i : Intent F) (seen : List (WorldModel F × ScrState))
      → b.parked ≡ []
      → let (b', resumed) = bse_resume_intent (run_ticks seen (bse_preempt_intent b (some i)).0) in
        (b'.intent ≡ b.intent) × (b'.act ≡ b.act) × (b'.parked ≡ []) × (resumed ≡ true)
  preempt_resume b i seen h =
      let b1 = (bse_preempt_intent b (some i)).0 in
      resume_lem (run_ticks seen b1) (record { intent = b.intent; act = b.act }) []
        ((run_ticks-Keeps seen b1).parked ∙ preempt-parked b i h)
