-- ===== src/Choreo/Edges.antt =====
-- choreo.c, departure_policy_should_fire(): the policy answers to departures, each one once.
use tapestry.Prelude.{
  ℕ, zero, suc, ◌+◌, ◌<◌, ◌≡◌, refl, ◌≢◌, ◌⊎◌, inl, inr, Bool, true, false, not, ◌&&◌, arith,
  if◌then◌else◌, Bool-cases, ◌↔◌, ◌==◌, ap,
}
use tapestry.Facts.Types.{max_elements}
use tapestry.WorldModel.Types.{WorldModel}
use tapestry.Scr.Types.{has_bit}
use tapestry.Choreo.Steps.{Step, Policy, carry_on, hold, land_in_place, recall}
use tapestry.Choreo.State.{Departure}
use tapestry.Choreo.Departures.{
  is_carry_on, count_bits, share_reason, participating_mask, departed_reasons,
  departure_policy_should_fire,
}

share_reason-zero : (b : ℕ) → share_reason 0 b ≡ false
unfolding share_reason
share_reason-zero b = refl

nonzero : (n : ℕ) → n ≢ 0 → (n == 0) ≡ false
nonzero n h = ground arith

shares_some : (a b : ℕ) → share_reason a b ≡ true → (a == 0) ≡ false
shares_some a b h = nonzero a (λ z.
    let same : share_reason a b ≡ share_reason 0 b = ap (λ x. share_reason x b) z in
    let none_ = share_reason-zero b in cc)

carries_not : (p : Policy) → p ≢ carry_on → is_carry_on p ≡ false
carries_not carry_on h = absurd (h refl)
carries_not hold h = refl
carries_not land_in_place h = refl
carries_not recall h = refl

not_both : (b : Bool) → (b && not b) ≡ false
not_both true = refl
not_both false = refl

-- Element `id` took part according to one mask, and does not according to the other.
abbrev pub HasDropped : ℕ → ℕ → ℕ → Type 0
HasDropped prev mask id = (id < 32) × (has_bit prev id ≡ true) × (has_bit mask id ≡ false)

module _ {F : Type 0} where
  same_mask : (n id mask r : ℕ) (wm : WorldModel F) → departed_reasons n id mask wm mask r ≡ r
  unfolding departed_reasons
  same_mask zero id mask r wm = refl
  same_mask (suc n) id mask r wm =
      rw (departed_reasons, not_both (has_bit mask id)) (same_mask n (id + 1) mask r wm)

  dropped_lem :
      (n id prev mask r : ℕ) (wm : WorldModel F)
      → id + n < 33
      → departed_reasons n id prev wm mask r ≢ r
      → (k : ℕ) × HasDropped prev mask k
  unfolding departed_reasons
  dropped_lem zero id prev mask r wm lt h = absurd (h refl)
  dropped_lem (suc n) id prev mask r wm lt h =
      elim (Bool-cases (has_bit prev id && not (has_bit mask id))) [
        | inl e ↦ (id, (omega arith, ground arith, ground arith))
        | inr e ↦ dropped_lem n (id + 1) prev mask r wm (omega arith) (rw e at h)
      ]

  -- What the storage, the world and the step have been, when the policy fires.
  abbrev pub IsDeparture : Departure → WorldModel F → Step F → Type 0
  IsDeparture d wm st =
      let mask = participating_mask wm.entries 0 in
      ((k : ℕ) × HasDropped d.prev_mask mask k)
      × (d.prev_mask_valid ≡ true)
      × ((if st.on_departure_set then st.on_departure else d.mode) ≢ carry_on)
      × (share_reason (departed_reasons max_elements 0 d.prev_mask wm mask 0) d.reasons ≡ true)
      × ((d.min_participants ≡ 0) ⊎ (count_bits mask max_elements < d.min_participants))

  fires_parts :
      (d : Departure) (wm : WorldModel F) (st : Step F)
      → (departure_policy_should_fire d wm st).1 ≡ true
      → let mask = participating_mask wm.entries 0 in
        (departed_reasons max_elements 0 d.prev_mask wm mask 0 ≢ 0)
        × (d.prev_mask_valid ≡ true)
        × ((if st.on_departure_set then st.on_departure else d.mode) ≢ carry_on)
        × (share_reason (departed_reasons max_elements 0 d.prev_mask wm mask 0) d.reasons ≡ true)
        × ((d.min_participants ≡ 0) ⊎ (count_bits mask max_elements < d.min_participants))
  unfolding departure_policy_should_fire
  fires_parts d wm st h = ground arith

  fires_lem :
      (d : Departure) (wm : WorldModel F) (st : Step F)
      → (departure_policy_should_fire d wm st).1 ≡ true
      → IsDeparture d wm st
  unfolding departure_policy_should_fire
  fires_lem d wm st h =
      let mask = participating_mask wm.entries 0 in
      let reasons = departed_reasons max_elements 0 d.prev_mask wm mask 0 in
      let (some_, valid, policy, shared, few) = fires_parts d wm st h in
      (
        dropped_lem max_elements 0 d.prev_mask mask 0 wm (omega arith) some_,
        valid,
        policy,
        shared,
        few,
      )

  must_fire :
      (d : Departure) (wm : WorldModel F) (st : Step F)
      → IsDeparture d wm st
      → (departure_policy_should_fire d wm st).1 ≡ true
  unfolding departure_policy_should_fire
  must_fire d wm st (dropped, valid, policy, shared, few) =
      let reasons =
        departed_reasons max_elements 0 d.prev_mask wm (participating_mask wm.entries 0) 0 in
      let some_ = shares_some reasons d.reasons shared in
      let acts = carries_not (if st.on_departure_set then st.on_departure else d.mode) policy in
      rw (valid, some_, acts, shared) (ground (arith, few))

  again_lem :
      (d : Departure) (wm : WorldModel F) (st st' : Step F)
      → (departure_policy_should_fire (departure_policy_should_fire d wm st).0 wm st').1 ≡ false
  unfolding departure_policy_should_fire
  again_lem d wm st st' =
      let mask = participating_mask wm.entries 0 in rw (same_mask max_elements 0 mask 0 wm) refl

  -- The departure policy fires exactly if it has looked before, an element that took part in the tick
  -- before does not any more, the policy of the step or the script is not to carry on, one of the reasons
  -- of this tick's departures passes the filter, and the count of the element and those that take part is
  -- strictly below the floor, where there is one; and with the same world it does not fire again, in
  -- whatever step.
  pub departure_edge :
      (d : Departure) (wm : WorldModel F) (st st' : Step F)
      → ((departure_policy_should_fire d wm st).1 ≡ true ↔ IsDeparture d wm st)
        × ((departure_policy_should_fire (departure_policy_should_fire d wm st).0 wm st').1 ≡ false)
  departure_edge d wm st st' = ((fires_lem d wm st, must_fire d wm st), again_lem d wm st st')
