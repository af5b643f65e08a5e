-- ===== src/Facts/Preservation.antt =====
-- Every operation of facts.c keeps the invariant of the table.
use tapestry.Prelude.{
  ℕ, suc, ◌≤◌, ◌<◌, ◌≡◌, refl, inl, inr, Bool, true, false, ◌&&◌, ◌||◌, List, Option, none, some,
  arith, ltb, leb, ◌==◌, if◌then◌else◌, length, get_elem?, count-le-length, All-get, Bool-cases,
}
use tapestry.Prelude.Floats.{FloatOps}
use tapestry.Facts.Types.{Config, Fact, FactSlot, Facts, max_elements, type_none}
use tapestry.Facts.Order.{is_live}
use tapestry.Facts.Table.{is_used, holds_key, find_slot, admit}
use tapestry.Facts.Keys.{Absent, Found, find_slot-Found}
use tapestry.Facts.Invariant.{IsTable, IsTable-mono, IsValid, Holds, rewrite-IsTable}
use tapestry.Facts.Admission.{admit-Admits}
use tapestry.Facts.Clearing.{Clears, yield_or_clear-Clears}
use tapestry.Facts.Trickle.{trickle_reset}
use tapestry.Facts.Merge.{
  merge_held, apply_outcome, yield_or_clear, lamport, merge_absent, merge_present, merge_record,
  receive,
}

module _ {F : Type 0} where
  abbrev pub WellFormed : Config → Facts F → Type 0
  WellFormed cfg t = IsTable cfg t.clock t.slots

  pub trickle_reset-WellFormed :
      (cfg : Config) (t : Facts F) → WellFormed cfg t → WellFormed cfg (trickle_reset cfg t)
  unfolding trickle_reset
  trickle_reset-WellFormed cfg t ok =
      elim (Bool-cases (t.trickle_started && ltb cfg.imin_ms t.trickle_i_ms)) [
        | inl e ↦ rw e ok
        | inr e ↦ rw e ok
      ]

  -- An outcome never revives a tombstone, keeps the key, and leaves a stamp that the clock has seen.
  outcome_lem :
      (c : ℕ) (s : FactSlot F) (f : Fact F)
      → s.used ≡ true
      → f.key ≡ s.fact.key
      → s.fact.stamp ≤ c
      → f.stamp ≤ c
      → let v = apply_outcome (merge_held s.fact f) s f in
        (v.used ≡ true)
        × (v.fact.key ≡ s.fact.key)
        × (is_live v.fact ≡ true → is_live s.fact ≡ true)
        × (v.fact.stamp ≤ c)
  unfolding apply_outcome merge_held
  outcome_lem c s f u k h1 h2 = ground arith

  merge_present-WellFormed :
      (cfg : Config) (t : Facts F) (i : ℕ) (s : FactSlot F) (f : Fact F)
      → get_elem? t.slots i ≡ some s
      → holds_key f.key s ≡ true
      → f.stamp ≤ t.clock
      → WellFormed cfg t
      → WellFormed cfg (merge_present t i s f).0
  unfolding merge_present
  merge_present-WellFormed cfg t i s f g k st ok =
      let u : s.used ≡ true = ground arith in
      let e : f.key ≡ s.fact.key = ground arith in
      let old : IsValid t.clock s.fact = All-get (Holds t.clock) t.slots i s ok.valid g u in
      let v = apply_outcome (merge_held s.fact f) s f in
      let (vu, vk, vl, vs) = outcome_lem t.clock s f u e old.seen st in
      rewrite-IsTable t.slots i s v g u vu vk vl vs ok

module _ {F : Type 0} ⦃fl : FloatOps F⦄ where
  merge_absent-WellFormed :
      (cfg : Config) (t : Facts F) (f : Fact F)
      → 0 < cfg.max_per_origin
      → IsValid t.clock f
      → Absent f.key t.slots
      → WellFormed cfg t
      → WellFormed cfg (merge_absent cfg t f).0
  unfolding merge_absent
  merge_absent-WellFormed cfg t f pos v a ok = elim (Bool-cases (is_live f)) [
    | inr d ↦ rw d (admitted t a ok refl)
    | inl l ↦ rw l (
        cleared (yield_or_clear (suc (length t.slots)) t.slots f) (
          yield_or_clear-Clears cfg t.clock _ t.slots f
            (omega (arith, count-le-length is_used t.slots)) ok a))
  ]
    where
      admitted :
          (t' : Facts F)
          → Absent f.key t'.slots
          → WellFormed cfg t'
          → t'.clock ≡ t.clock
          → WellFormed cfg (admit cfg t' f).0
      admitted t' a' ok' e =
          let r = admit-Admits cfg t'.clock t' f pos ok' a' (rw e v) in rw r.1 r.0

      cleared :
          (r : Option (List (FactSlot F) × Bool))
          → Clears cfg t.clock f.key r
          → let out : Facts F × Bool = elim r [
            | none ↦ (t, false)
            | some (slots, goes_on) ↦
                let t' = record t { slots = slots } in
                if goes_on then admit cfg t' f else (t', false)
          ] in
            WellFormed cfg out.0
      cleared none c = elim c [ ]
      cleared (some (ys, true)) c = admitted (record t { slots = ys }) c.1 c.0 refl
      cleared (some (ys, false)) c = c.0

  lamport-WellFormed :
      (cfg : Config) (t : Facts F) (f : Fact F)
      → WellFormed cfg t
      → WellFormed cfg (lamport t f) × (f.stamp ≤ (lamport t f).clock)
  lamport-WellFormed cfg t f ok = (IsTable-mono (ground arith) ok, ground arith)

  merge_record-WellFormed :
      (cfg : Config) (t : Facts F) (f : Fact F)
      → 0 < cfg.max_per_origin
      → WellFormed cfg t
      → WellFormed cfg (merge_record cfg t f).0
  unfolding merge_record
  merge_record-WellFormed cfg t f pos ok =
      elim (Bool-cases (f.key.type == type_none || leb max_elements f.key.origin)) [
        | inl e ↦ rw e ok
        | inr e ↦ rw e (
            seek (find_slot t.slots f.key) (find_slot-Found t.slots f.key)
              (record { typed = ground arith; origin_in = ground arith; seen = moved.1 }))
      ]
    where
      moved : WellFormed cfg (lamport t f) × (f.stamp ≤ (lamport t f).clock)
      moved = lamport-WellFormed cfg t f ok

      seek :
          (r : Option (ℕ × FactSlot F))
          → Found f.key t.slots r
          → IsValid (lamport t f).clock f
          → let out : Facts F × Bool = elim r [
            | some (i, held) ↦ merge_present (lamport t f) i held f
            | none ↦ merge_absent cfg (lamport t f) f
          ] in
            WellFormed cfg out.0
      seek none a v = merge_absent-WellFormed cfg (lamport t f) f pos v a moved.0
      seek (some (i, s)) (g, k) v =
          merge_present-WellFormed cfg (lamport t f) i s f g k moved.1 moved.0

  -- Receiving any record, valid or not, keeps the invariant: the table keeps its size, no two held
  -- records share a key, every held record has a type, an origin in range and a stamp that the
  -- Lamport clock has seen, and no origin exceeds its share of live records.
  pub receive-WellFormed :
      (cfg : Config) (t : Facts F) (f : Fact F)
      → 0 < cfg.max_per_origin
      → WellFormed cfg t
      → WellFormed cfg (receive cfg t f).0
  unfolding receive
  receive-WellFormed cfg t f pos ok =
      settle (merge_record cfg t f) (merge_record-WellFormed cfg t f pos ok)
    where
      settle :
          (r : Facts F × Bool)
          → WellFormed cfg r.0
          → let (t', changed) = r in
            let out : Facts F × Bool =
              if changed then (trickle_reset cfg t', true) else (t', false) in
            WellFormed cfg out.0
      settle (t', true) w = trickle_reset-WellFormed cfg t' w
      settle (t', false) w = w
