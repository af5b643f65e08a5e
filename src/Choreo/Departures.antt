-- ===== src/Choreo/Departures.antt =====
-- choreo.c, "Departure policy": which peers have dropped out, why, and what follows.
use tapestry.Prelude.{
  ℕ, zero, suc, ◌+◌, Bool, true, false, not, ◌&&◌, ◌||◌, List, [], ◌∷◌, Option, none, some, ltb,
  leb, ◌==◌, if◌then◌else◌, u8,
}
use tapestry.Prelude.Floats.{FloatOps}
use tapestry.Facts.Types.{Position, max_elements}
use tapestry.WorldModel.Types.{Entry, WorldModel, is_participating, departed_reason}
use tapestry.WorldModel.Ops.{get_entry}
use tapestry.Scr.Types.{has_bit, set_bit}
use tapestry.Choreo.Goals.{Goal, goal_converge, goal_hold}
use tapestry.Choreo.Steps.{Policy, carry_on, hold, land_in_place, recall, Step}
use tapestry.Choreo.State.{Engine, Answer, accepted, Departure, Choreo}
use tapestry.Choreo.Lifecycle.{zero_aim, origin, choreo_terminate, choreo_preempt_goal}

abbrev pub is_carry_on : Policy → Bool
is_carry_on carry_on = true
is_carry_on _ = false

-- CHOREO_DEPARTURE_REASON_LOST_BIT
abbrev pub lost_bit : ℕ
lost_bit = 4

-- `(a & b) != 0`, for reasons: `a` has bits 0 to 4 only.
unfoldable pub share_reason : ℕ → ℕ → Bool
share_reason a b =
    (has_bit a 0 && has_bit b 0)
    || (has_bit a 1 && has_bit b 1)
    || (has_bit a 2 && has_bit b 2)
    || (has_bit a 3 && has_bit b 3)
    || (has_bit a 4 && has_bit b 4)

-- `surviving`, from 1: the bits of a mask below `n`.
unfoldable pub count_bits : ℕ → ℕ → ℕ
count_bits mask zero = 1
count_bits mask (suc n) = u8 (count_bits mask n + (if has_bit mask n then 1 else 0))

module _ {F : Type 0} where
  unfoldable pub participating_mask : List (Entry F) → ℕ → ℕ
  participating_mask [] mask = mask
  participating_mask (e ∷ es) mask = participating_mask es (
      if e.is_self || not e.is_active
      then mask
      else if is_participating e
      then set_bit mask e.state.id
      else mask)

  -- The reason's bit for an element that has dropped out.
  unfoldable pub reason_bit : WorldModel F → ℕ → ℕ
  reason_bit wm id = elim (get_entry wm id) [
    | none ↦ lost_bit
    | some e ↦ if not e.is_active then lost_bit else departed_reason e.state.health_flags
  ]

  -- The loop over `s_prev_participating_mask & ~mask`: rounds left, the element, the reasons so far.
  unfoldable pub departed_reasons : ℕ → ℕ → ℕ → WorldModel F → ℕ → ℕ → ℕ
  departed_reasons zero id prev wm mask reasons = reasons
  departed_reasons (suc rounds) id prev wm mask reasons =
      departed_reasons rounds (id + 1) prev wm mask (
        if has_bit prev id && not (has_bit mask id)
        then set_bit reasons (reason_bit wm id)
        else reasons)

  -- The new storage, whether the policy fires, and the policy.
  unfoldable pub departure_policy_should_fire :
      Departure → WorldModel F → Step F → Departure × Bool × Policy
  departure_policy_should_fire d wm st =
      let mask = participating_mask wm.entries 0 in
      let reasons : ℕ =
        if d.prev_mask_valid then departed_reasons max_elements 0 d.prev_mask wm mask 0 else 0 in
      let policy = if st.on_departure_set then st.on_departure else d.mode in
      let fires =
        if reasons == 0 || is_carry_on policy
        then false
        else if not (share_reason reasons d.reasons)
        then false
        else if ltb 0 d.min_participants && leb d.min_participants (count_bits mask max_elements)
        then false
        else true in
      (record d { prev_mask = mask; prev_mask_valid = true }, fires, policy)

module _ {X F : Type 0} ⦃fl : FloatOps F⦄ (engine : Engine X F) where
  -- land_for_departure()
  unfoldable pub land_for_departure : Choreo X F → Policy → Choreo X F
  land_for_departure c executed = choreo_terminate engine (record c {
    departure = record (c.departure) { triggered = true; triggered_policy = executed };
    script_done = true;
  })

  abbrev pub recall_goal : Position F → Goal F
  recall_goal p = record { type = goal_converge; required_caps = 0; aim = zero_aim p }

  abbrev pub hold_goal : Goal F
  hold_goal = record { type = goal_hold; required_caps = 0; aim = zero_aim origin }

  -- The two cases that preempt, or land if they cannot.
  unfoldable pub after_recall : Choreo X F × Answer → Choreo X F
  after_recall (c, accepted) = record c {
    departure = record (c.departure) { recall_in_progress = true };
  }
  after_recall (c, _) = land_for_departure c land_in_place

  unfoldable pub trigger_recall : Choreo X F → Option (Position F) → Choreo X F
  trigger_recall c none = land_for_departure c land_in_place
  trigger_recall c (some p) = after_recall (choreo_preempt_goal engine c (some (recall_goal p)))

  unfoldable pub after_hold : Choreo X F × Answer → Choreo X F
  after_hold (c, accepted) = record c {
    departure = record (c.departure) { hold_in_progress = true; hold_ms = 0 };
  }
  after_hold (c, _) = land_for_departure c land_in_place

  unfoldable pub trigger_hold : Choreo X F → Choreo X F
  trigger_hold c = after_hold (choreo_preempt_goal engine c (some hold_goal))

  -- trigger_departure_policy(); `point` is what s_departure_recall_fn gives, if it is set.
  unfoldable pub trigger_departure_policy : Choreo X F → Policy → Option (Position F) → Choreo X F
  trigger_departure_policy c recall point = trigger_recall c point
  trigger_departure_policy c hold point = trigger_hold c
  trigger_departure_policy c land_in_place point = land_for_departure c land_in_place
  trigger_departure_policy c carry_on point = c
