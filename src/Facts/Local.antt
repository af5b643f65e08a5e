-- ===== src/Facts/Local.antt =====
-- wm_fact_publish(), wm_fact_retract(), wm_fact_tick() and wm_facts_init() keep the invariant.
use tapestry.Prelude.{
  ℕ, zero, suc, ◌+◌, ◌≤◌, ◌<◌, ◌^◌, ◌%◌, ◌≡◌, refl, inl, inr, ◌≢◌, Bool, true, false, not, ◌||◌,
  List, [], ◌∷◌, Option, none, some, arith, leb, ◌==◌, if◌then◌else◌, map, length, set, count, All,
  All-replicate, length-replicate, replicate, Bool-cases,
}
use tapestry.Prelude.Floats.{FloatOps}
use tapestry.Facts.Types.{
  Config, Fact, FactSlot, Facts, FactKey, Position, max_elements, type_none, zero_slot, facts_init,
}
use tapestry.Facts.Order.{is_live}
use tapestry.Facts.Table.{find_slot, same_origin, nearby_duplicate, admit}
use tapestry.Facts.Keys.{Absent, Distinct, Found, find_slot-Found}
use tapestry.Facts.Invariant.{IsTable-mono, Holds, rewrite-IsTable}
use tapestry.Facts.Admission.{Admits, admit-Admits}
use tapestry.Facts.Preservation.{WellFormed, trickle_reset-WellFormed}
use tapestry.Facts.Trickle.{trickle_reset}
use tapestry.Facts.Publish.{
  Published, err_full, created, reused, new_key, new_fact, published, publish_new, publish,
  tombstone, retract, age_slot, tick,
}

module _ {F : Type 0} where
  publish_new-WellFormed :
      (cfg : Config) (t : Facts F) (f : Fact F)
      → 0 < cfg.max_per_origin
      → f.key.type ≢ type_none
      → f.key.origin < max_elements
      → f.stamp ≡ t.clock + 1
      → Absent f.key t.slots
      → WellFormed cfg t
      → WellFormed cfg (publish_new cfg t f).0
  unfolding publish_new
  publish_new-WellFormed cfg t f pos ty og st a ok = settle (admit cfg t f) (
      admit-Admits cfg f.stamp t f pos (IsTable-mono (omega arith) ok) a
        (record { typed = ty; origin_in = og; seen = omega arith }))
    where
      settle :
          (r : Facts F × Bool)
          → Admits cfg f.stamp t f r
          → let (t', admitted) = r in
            let out : Facts F × Published =
              if not admitted then (t', err_full) else (published cfg t' f, created f.key) in
            WellFormed cfg out.0
      settle (t', true) w = trickle_reset-WellFormed cfg _ w.0
      settle (t', false) w = rw (w.2 refl) ok

  -- wm_fact_retract() keeps the invariant, as long as the Lamport clock does not wrap.
  pub retract-WellFormed :
      (cfg : Config) (t : Facts F) (key : FactKey)
      → t.clock + 1 < 2 ^ 32
      → WellFormed cfg t
      → WellFormed cfg (retract cfg t key).0
  unfolding retract
  retract-WellFormed cfg t key small ok = seek (find_slot t.slots key) (find_slot-Found t.slots key)
    where
      seek :
          (r : Option (ℕ × FactSlot F))
          → Found key t.slots r
          → let out : Facts F × Bool = elim r [
            | none ↦ (t, false)
            | some (i, s) ↦ if not (is_live s.fact) then (t, false) else (
              trickle_reset cfg (record t {
                clock = (t.clock + 1) % 2 ^ 32;
                slots = set t.slots i (tombstone ((t.clock + 1) % 2 ^ 32) s);
              }),
              true,
            )
          ] in
            WellFormed cfg out.0
      seek none f = ok
      seek (some (i, s)) (g, k) = elim (Bool-cases (is_live s.fact)) [
        | inr e ↦ rw e ok
        | inl e ↦ rw e (
            trickle_reset-WellFormed cfg _ (
              rewrite-IsTable t.slots i s (tombstone ((t.clock + 1) % 2 ^ 32) s) g (ground arith)
                (ground arith) refl (λ l. e) (omega arith) (IsTable-mono (omega arith) ok)))
      ]

  -- Ageing a slot keeps its record, and can only free it.
  age_slot_lem :
      (cfg : Config) (ms : ℕ) (s : FactSlot F)
      → let s' = age_slot cfg ms s in (s'.fact ≡ s.fact) × (s'.used ≡ true → s.used ≡ true)
  unfolding age_slot
  age_slot_lem cfg ms s = ground arith

  Absent-age :
      (cfg : Config) (ms : ℕ) (key : FactKey) (xs : List (FactSlot F))
      → Absent key xs
      → Absent key (map (age_slot cfg ms) xs)
  Absent-age cfg ms key [] a = tt
  Absent-age cfg ms key (s ∷ xs) a =
      (ground (arith, age_slot_lem cfg ms s), Absent-age cfg ms key xs a.1)

  Distinct-age :
      (cfg : Config) (ms : ℕ) (xs : List (FactSlot F))
      → Distinct xs
      → Distinct (map (age_slot cfg ms) xs)
  Distinct-age cfg ms [] d = tt
  Distinct-age cfg ms (s ∷ xs) d = (
    λ u.
        rw ((age_slot_lem cfg ms s).0)
          (Absent-age cfg ms s.fact.key xs (d.0 ((age_slot_lem cfg ms s).1 u))),
    Distinct-age cfg ms xs d.1,
  )

  Holds-age :
      (cfg : Config) (ms c : ℕ) (xs : List (FactSlot F))
      → All (Holds c) xs
      → All (Holds c) (map (age_slot cfg ms) xs)
  Holds-age cfg ms c [] v = tt
  Holds-age cfg ms c (s ∷ xs) v = (
    λ u. rw ((age_slot_lem cfg ms s).0) (v.0 ((age_slot_lem cfg ms s).1 u)),
    Holds-age cfg ms c xs v.1,
  )

  count-age :
      (cfg : Config) (ms : ℕ) (f : Fact F) (xs : List (FactSlot F))
      → count (same_origin f) (map (age_slot cfg ms) xs) ≤ count (same_origin f) xs
  unfolding count
  count-age cfg ms f [] = omega arith
  count-age cfg ms f (s ∷ xs) = ground (arith, age_slot_lem cfg ms s, count-age cfg ms f xs)

  length-age :
      (cfg : Config) (ms : ℕ) (xs : List (FactSlot F))
      → length (map (age_slot cfg ms) xs) ≡ length xs
  length-age cfg ms [] = refl
  length-age cfg ms (s ∷ xs) = omega (arith, length-age cfg ms xs)

  -- wm_fact_tick() keeps the invariant.
  pub tick-WellFormed :
      (cfg : Config) (t : Facts F) (ms : ℕ) → WellFormed cfg t → WellFormed cfg (tick cfg t ms)
  unfolding tick
  tick-WellFormed cfg t ms ok = record {
    sized = omega (arith, length-age cfg ms t.slots, ok.sized);
    distinct = Distinct-age cfg ms t.slots ok.distinct;
    valid = Holds-age cfg ms t.clock t.slots ok.valid;
    limited = λ f. omega (arith, count-age cfg ms f t.slots, ok.limited f);
  }

  Distinct-replicate : (n : ℕ) (s : FactSlot F) → s.used ≡ false → Distinct (replicate n s)
  Distinct-replicate zero s u = tt
  Distinct-replicate (suc n) s u = (λ h. cc, Distinct-replicate n s u)

module _ {F : Type 0} ⦃fl : FloatOps F⦄ where
  -- wm_fact_publish() keeps the invariant on every branch, as long as the Lamport clock does not
  -- wrap and no held record has the next key: the 8-bit sequence number comes round after 256
  -- records, and the code does not look the key up.
  pub publish-WellFormed :
      (cfg : Config) (t : Facts F) (owner type : ℕ) (pos : Option (Position F)) (attr flags : ℕ)
      → 0 < cfg.max_per_origin
      → t.clock + 1 < 2 ^ 32
      → Absent (new_key t owner type) t.slots
      → WellFormed cfg t
      → WellFormed cfg (publish cfg t owner type pos attr flags).0
  unfolding publish
  publish-WellFormed cfg t owner type none attr flags m small a ok = ok
  publish-WellFormed cfg t owner type (some p) attr flags m small a ok =
      elim (Bool-cases (type == type_none || leb max_elements owner)) [
        | inl e ↦ rw e ok
        | inr e ↦ rw e (elim (Bool-cases t.epoch_set) [
          | inr n ↦ simp n ok
          | inl n ↦ simp n (elim (Bool-cases t.synced) [
            | inr y ↦ simp y ok
            | inl y ↦ simp y (seek e (nearby_duplicate t.slots type none p))
          ])
        ])
      ]
    where
      f : Fact F
      f = new_fact t owner type p attr flags

      seek :
          ((type == type_none || leb max_elements owner) ≡ false)
          → (r : Option (ℕ × FactSlot F))
          → let out : Facts F × Published = elim r [
            | some (i, dup) ↦ (t, reused dup.fact.key)
            | none ↦ publish_new cfg t f
          ] in
            WellFormed cfg out.0
      seek e (some r) = ok
      seek e none =
          publish_new-WellFormed cfg t f m (ground arith) (ground arith) (omega arith) a ok

  count-replicate : (f : Fact F) (n : ℕ) → count (same_origin f) (replicate n zero_slot) ≡ 0
  unfolding count
  count-replicate f zero = refl
  count-replicate f (suc n) = ground (arith, count-replicate f n)

  -- The zeroed table satisfies the invariant.
  pub facts_init-WellFormed : (cfg : Config) → WellFormed {F = F} cfg (facts_init cfg)
  unfolding facts_init
  facts_init-WellFormed cfg = record {
    sized = length-replicate cfg.max_facts zero_slot;
    distinct = Distinct-replicate cfg.max_facts zero_slot refl;
    valid = All-replicate (Holds 0) cfg.max_facts zero_slot (λ u. cc);
    limited = λ f. omega (arith, count-replicate f cfg.max_facts);
  }
