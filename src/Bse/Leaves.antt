-- ===== src/Bse/Leaves.antt =====
-- bse.c: what the choice of a directive leaves alone.
use mathlib.Core.Path.{◌∙◌}
use tapestry.Prelude.{
  ℕ, ◌≡◌, refl, Bool, true, false, List, Option, none, some, arith, inl, inr, Option-cases, ◌&&◌,
  ◌==◌, if◌then◌else◌,
}
use tapestry.Prelude.Floats.{FloatOps}
use tapestry.Prelude.Int.{pos}
use tapestry.Facts.Types.{Position, Fact}
use tapestry.Facts.Query.{find}
use tapestry.WorldModel.Types.{WorldModel}
use tapestry.Scr.Types.{ScrState}
use tapestry.Choreo.Goals.{
  IntentType, intent_idle, intent_form, intent_move, intent_disperse, intent_converge, intent_hold,
  intent_exchange,
}
use tapestry.Bse.Types.{TrigOps, Activation, Bse}
use tapestry.Bse.Participants.{Participant, own_position, collect_participants, own_rank, centroid}
use tapestry.Bse.Anchors.{
  resolve_effective_target, note_anchor, resolve_landmark, resolve_element, resolve_found,
  switch_landmark, follow_landmark, locked_landmark, resolve_anchor_selector, debounce_anchor,
  follow_anchor,
}
use tapestry.Bse.Exchange.{
  exchange_capture, exchange_arc_target, capture_at, capture_between, capture_arc,
}
use tapestry.Bse.Tick.{
  move_to_or_hold, capture_station, decide_hold, wait_for_station, is_occupied, decide_move,
  capture_offset, participant_at, decide_disperse, follow_arc, after_capture, decide_exchange,
  take_slot, form_at, decide_form, decide,
}

module _ {F : Type 0} where
  -- Neither does the time of the goal change.
  pub record Leaves (b b' : Bse F) : Type 0 where
    pub intent : b'.intent ≡ b.intent
    pub parked : b'.parked ≡ b.parked
    pub achieved : b'.act.achieved ≡ b.act.achieved
    pub ms : b'.act.achieve_accum_ms ≡ b.act.achieve_accum_ms

  -- The same time of the goal, in two activations.
  record SameTime (a a' : Activation F) : Type 0 where
    achieved : a'.achieved ≡ a.achieved
    ms : a'.achieve_accum_ms ≡ a.achieve_accum_ms

  resolve_found-SameTime :
      (a : Activation F) (held : Option (Fact F)) (raw : Fact F)
      → SameTime a (resolve_found a held raw).0
  unfolding resolve_found switch_landmark follow_landmark
  resolve_found-SameTime a none raw = record { achieved = refl; ms = refl }
  resolve_found-SameTime a (some held) raw = record { achieved = ground arith; ms = ground arith }

  resolve_landmark-SameTime :
      (b : Bse F) (wm : WorldModel F) → SameTime b.act (resolve_landmark b wm).0
  unfolding resolve_landmark
  resolve_landmark-SameTime b wm =
      elim (Option-cases
        (find wm.facts b.intent.aim.landmark_type (pos b.intent.aim.landmark_rank))) [
          | inl e ↦ rw (resolve_landmark, e) (record { achieved = refl; ms = refl })
          | inr (raw, e) ↦
              rw (resolve_landmark, e) (resolve_found-SameTime b.act (locked_landmark b.act wm) raw)
        ]

  debounce_anchor-SameTime : (a : Activation F) (id : ℕ) → SameTime a (debounce_anchor a id).0
  unfolding debounce_anchor follow_anchor
  debounce_anchor-SameTime a id = record { achieved = ground arith; ms = ground arith }

  resolve_element-SameTime :
      (b : Bse F) (wm : WorldModel F) (scr : ScrState) → SameTime b.act (resolve_element b wm scr).0
  unfolding resolve_element
  resolve_element-SameTime b wm scr = elim (Option-cases (resolve_anchor_selector b wm scr)) [
    | inl e ↦ rw (resolve_element, e) (record { achieved = refl; ms = refl })
    | inr (id, e) ↦ rw (resolve_element, e) (debounce_anchor-SameTime b.act id)
  ]

  Leaves-if :
      (b : Bse F) (t : Bool) (b1 b2 : Bse F)
      → Leaves b b1
      → Leaves b b2
      → Leaves b (if t then b1 else b2)
  Leaves-if b true b1 b2 k1 k2 = k1
  Leaves-if b false b1 b2 k1 k2 = k2

  capture_station-Leaves : (b : Bse F) (p : Option (Position F)) → Leaves b (capture_station b p)
  capture_station-Leaves b none = record {
    intent = refl;
    parked = refl;
    achieved = refl;
    ms = refl;
  }
  capture_station-Leaves b (some p) = record {
    intent = refl;
    parked = refl;
    achieved = refl;
    ms = refl;
  }

  decide_hold-Leaves : (b : Bse F) (wm : WorldModel F) → Leaves b (decide_hold b wm)
  unfolding decide_hold
  decide_hold-Leaves b wm =
      Leaves-if b b.act.hold_captured _ _
        (record { intent = refl; parked = refl; achieved = refl; ms = refl })
        (Leaves-if b b.prev_goal_valid _ _
          (record { intent = refl; parked = refl; achieved = refl; ms = refl })
          (capture_station-Leaves b (own_position wm.entries)))

  move_to_or_hold-Leaves :
      (b : Bse F) (r : Bse F × Option (Position F)) → Leaves b r.0 → Leaves b (move_to_or_hold r)
  move_to_or_hold-Leaves b (b', none) h = record {
    intent = h.intent;
    parked = h.parked;
    achieved = h.achieved;
    ms = h.ms;
  }
  move_to_or_hold-Leaves b (b', some p) h = record {
    intent = h.intent;
    parked = h.parked;
    achieved = h.achieved;
    ms = h.ms;
  }

module _ {F : Type 0} ⦃fl : FloatOps F⦄ where
  resolve-Leaves :
      (b : Bse F) (wm : WorldModel F) (scr : ScrState)
      → Leaves b (resolve_effective_target b wm scr).0
  unfolding resolve_effective_target note_anchor
  resolve-Leaves b wm scr =
      let l = resolve_landmark-SameTime b wm in
      let e = resolve_element-SameTime b wm scr in
      record {
        intent = ground arith;
        parked = ground arith;
        achieved = ground (arith, l.achieved, e.achieved);
        ms = ground (arith, l.ms, e.ms);
      }

  capture_offset-Leaves :
      (b : Bse F) (c : Position F) (p : Option (Participant F)) → Leaves b (capture_offset b c p)
  capture_offset-Leaves b c none = record {
    intent = refl;
    parked = refl;
    achieved = refl;
    ms = refl;
  }
  capture_offset-Leaves b c (some p) = record {
    intent = refl;
    parked = refl;
    achieved = refl;
    ms = refl;
  }

  decide_move-Leaves :
      (b : Bse F) (wm : WorldModel F) (scr : ScrState) → Leaves b (decide_move b wm scr)
  unfolding decide_move
  decide_move-Leaves b wm scr =
      let ps = collect_participants b wm scr in
      Leaves-if b b.act.move_captured _ _
        (record { intent = refl; parked = refl; achieved = refl; ms = refl })
        (capture_offset-Leaves b (centroid ps) (participant_at ps (own_rank b ps)))

  wait-Leaves : (b0 b : Bse F) (wm : WorldModel F) → Leaves b0 b → Leaves b0 (wait_for_station b wm)
  unfolding wait_for_station
  wait-Leaves b0 b wm h =
      Leaves-if b0 (b.intent.aim.direct_path && is_occupied b.act.ex_dest wm.entries) _ _
        (record { intent = h.intent; parked = h.parked; achieved = h.achieved; ms = h.ms }) h

module _ {F : Type 0} ⦃fl : FloatOps F⦄ (trig : TrigOps F) where
  follow_arc-Leaves : (b : Bse F) (wm : WorldModel F) → Leaves b (follow_arc trig b wm)
  unfolding follow_arc exchange_arc_target
  follow_arc-Leaves b wm =
      wait-Leaves b _ wm (record { intent = refl; parked = refl; achieved = refl; ms = refl })

  capture_at-SameTime :
      (b : Bse F) (ps : List (Participant F)) (rank : Option ℕ) (a : Activation F)
      → capture_at trig b ps rank ≡ some a
      → SameTime b.act a
  unfolding capture_at capture_between capture_arc
  capture_at-SameTime b ps none a e = cc
  capture_at-SameTime b ps (some rank) a e = record { achieved = ground arith; ms = ground arith }

  after_capture-Leaves :
      (b : Bse F) (wm : WorldModel F) (o : Option (Activation F))
      → ((a : Activation F) → o ≡ some a → SameTime b.act a)
      → Leaves b (after_capture trig b wm o)
  after_capture-Leaves b wm none h = record {
    intent = refl;
    parked = refl;
    achieved = refl;
    ms = refl;
  }
  after_capture-Leaves b wm (some a) h =
      let kept = follow_arc-Leaves (record b { act = a }) wm in
      record {
        intent = kept.intent;
        parked = kept.parked;
        achieved = kept.achieved ∙ (h a refl).achieved;
        ms = kept.ms ∙ (h a refl).ms;
      }

  decide_exchange-Leaves :
      (b : Bse F) (wm : WorldModel F) (scr : ScrState) → Leaves b (decide_exchange trig b wm scr)
  unfolding decide_exchange exchange_capture
  decide_exchange-Leaves b wm scr = Leaves-if b b.act.ex_captured _ _ (follow_arc-Leaves b wm) (
      after_capture-Leaves b wm (exchange_capture trig b wm scr) (λ a e.
        let ps = collect_participants b wm scr in capture_at-SameTime b ps (own_rank b ps) a e))

  take_slot-Leaves :
      (b : Bse F) (ps : List (Participant F)) (rank : ℕ) (r : Bse F × Option (Position F))
      → Leaves b r.0
      → Leaves b (take_slot trig ps rank r)
  unfolding take_slot
  take_slot-Leaves b ps rank (b', none) h = record {
    intent = h.intent;
    parked = h.parked;
    achieved = h.achieved;
    ms = h.ms;
  }
  take_slot-Leaves b ps rank (b', some p) h = ground (arith, h.intent, h.parked, h.achieved, h.ms)

  form_at-Leaves :
      (b : Bse F) (wm : WorldModel F) (scr : ScrState) (ps : List (Participant F)) (rank : Option ℕ)
      → Leaves b (form_at trig b wm scr ps rank)
  form_at-Leaves b wm scr ps none = record {
    intent = refl;
    parked = refl;
    achieved = refl;
    ms = refl;
  }
  form_at-Leaves b wm scr ps (some rank) = take_slot-Leaves b ps rank _ (resolve-Leaves b wm scr)

  decide_form-Leaves :
      (b : Bse F) (wm : WorldModel F) (scr : ScrState) → Leaves b (decide_form trig b wm scr)
  unfolding decide_form
  decide_form-Leaves b wm scr =
      let ps = collect_participants b wm scr in
      Leaves-if b (scr.swarm_size == 0) _ _
        (record { intent = refl; parked = refl; achieved = refl; ms = refl })
        (form_at-Leaves b wm scr ps (own_rank b ps))

  pub decide-Leaves :
      (b : Bse F) (wm : WorldModel F) (scr : ScrState) (t : IntentType)
      → Leaves b (decide trig b wm scr t)
  unfolding decide decide_disperse
  decide-Leaves b wm scr intent_idle = record {
    intent = refl;
    parked = refl;
    achieved = refl;
    ms = refl;
  }
  decide-Leaves b wm scr intent_hold = decide_hold-Leaves b wm
  decide-Leaves b wm scr intent_exchange = decide_exchange-Leaves b wm scr
  decide-Leaves b wm scr intent_form = decide_form-Leaves b wm scr
  decide-Leaves b wm scr intent_move = decide_move-Leaves b wm scr
  decide-Leaves b wm scr intent_converge = move_to_or_hold-Leaves b _ (resolve-Leaves b wm scr)
  decide-Leaves b wm scr intent_disperse = record {
    intent = refl;
    parked = refl;
    achieved = refl;
    ms = refl;
  }
