-- ===== src/Facts/Outcomes.antt =====
-- facts.c, wm_fact_publish(): each result and what it says of the table.
use tapestry.Prelude.{
  ℕ, ◌+◌, ◌≤◌, ◌<◌, ◌^◌, ◌%◌, ◌≡◌, refl, inl, inr, ◌⊎◌, ◌≢◌, Bool, true, false, not, ◌||◌, Option,
  none, some, arith, leb, ◌==◌, if◌then◌else◌, Bool-cases, get_elem?,
}
use tapestry.Prelude.Floats.{FloatOps}
use tapestry.Facts.Types.{
  Config, Fact, FactSlot, Facts, Position, type_none, max_elements, position_distance,
}
use tapestry.Facts.Order.{is_live}
use tapestry.Facts.Table.{
  nearby_duplicate, is_near_duplicate, merge_radius, room_at_origin, room_in_table, evict, admit,
  fresh_slot,
}
use tapestry.Facts.Keys.{Absent}
use tapestry.Facts.Invariant.{IsTable-mono}
use tapestry.Facts.Admission.{Admits, admit-Admits}
use tapestry.Facts.Clearing.{Near, nearby_duplicate-Near}
use tapestry.Facts.Refusal.{NoRoom, NoneNear, admit_refuses, nearby_duplicate-NoneNear}
use tapestry.Facts.Trickle.{trickle_reset}
use tapestry.Facts.Publish.{
  Published, created, reused, err_invalid, err_unsynced, err_full, err_noepoch, new_key, new_fact,
  published, publish_new, publish,
}
use tapestry.Facts.Query.{get}
use tapestry.Facts.Preservation.{WellFormed}
use tapestry.Facts.Replicas.{get_at, slots-trickle_reset}

module _ {F : Type 0} where
  trickle_reset-keeps :
      (cfg : Config) (t : Facts F)
      → ((trickle_reset cfg t).clock ≡ t.clock) × ((trickle_reset cfg t).next_seq ≡ t.next_seq)
  unfolding trickle_reset
  trickle_reset-keeps cfg t = ground arith

  next_seq-admit :
      (cfg : Config) (t : Facts F) (f : Fact F) → (admit cfg t f).0.next_seq ≡ t.next_seq
  unfolding admit room_at_origin room_in_table evict
  next_seq-admit cfg t f = ground arith

module _ {F : Type 0} ⦃fl : FloatOps F⦄ where
  -- May this element publish at all?
  abbrev pub MayPublish : Facts F → ℕ → ℕ → Type 0
  MayPublish t owner type =
      (type ≢ type_none) × (owner < max_elements) × (t.epoch_set ≡ true) × (t.synced ≡ true)

  -- What each result says; `none` is a NULL position.
  abbrev pub Means :
      Config → Facts F → ℕ → ℕ → Option (Position F) → ℕ → ℕ → Facts F × Published → Type 0
  Means cfg t owner type pos attr flags (t', err_invalid) =
      (t' ≡ t) × ((pos ≡ none) ⊎ ((type ≡ type_none) ⊎ (max_elements ≤ owner)))
  Means cfg t owner type pos attr flags (t', err_noepoch) = (t' ≡ t) × (t.epoch_set ≡ false)
  Means cfg t owner type pos attr flags (t', err_unsynced) =
      (t' ≡ t) × (t.epoch_set ≡ true) × (t.synced ≡ false)
  Means cfg t owner type pos attr flags (t', reused key) =
      (t' ≡ t)
      × MayPublish t owner type
      × ((p : Position F) × (i : ℕ) × (s : FactSlot F) × (pos ≡ some p)
          × (get_elem? t.slots i ≡ some s)
          × (s.fact.key ≡ key)
          × (s.used ≡ true)
          × (is_live s.fact ≡ true)
          × (key.type ≡ type)
          × (fl.lt (merge_radius type) (position_distance s.fact.pos p) ≡ false))
  Means cfg t owner type pos attr flags (t', err_full) =
      (t' ≡ t)
      × MayPublish t owner type
      × ((p : Position F) × (pos ≡ some p)
          × NoneNear t.slots type p
          × NoRoom cfg t (new_fact t owner type p attr flags))
  Means cfg t owner type pos attr flags (t', created key) =
      MayPublish t owner type
      × (key ≡ new_key t owner type)
      × ((p : Position F) × (pos ≡ some p)
          × NoneNear t.slots type p
          × (get t' key ≡ some (new_fact t owner type p attr flags)))
      × (t'.clock ≡ t.clock + 1)
      × (t'.next_seq ≡ (t.next_seq + 1) % 2 ^ 8)

  near_lem :
      (type : ℕ) (p : Position F) (s : FactSlot F)
      → is_near_duplicate type none p (merge_radius type) s ≡ true
      → (s.used ≡ true)
        × (is_live s.fact ≡ true)
        × (s.fact.key.type ≡ type)
        × (fl.lt (merge_radius type) (position_distance s.fact.pos p) ≡ false)
  unfolding is_near_duplicate
  near_lem type p s h = (ground arith, ground arith, ground arith, ground arith)

  publish_new-Means :
      (cfg : Config) (t : Facts F) (owner type : ℕ) (p : Position F) (attr flags : ℕ)
      → 0 < cfg.max_per_origin
      → t.clock + 1 < 2 ^ 32
      → Absent (new_key t owner type) t.slots
      → WellFormed cfg t
      → MayPublish t owner type
      → NoneNear t.slots type p
      → Means cfg t owner type
          (some p)
          attr
          flags
          (publish_new cfg t (new_fact t owner type p attr flags))
  unfolding publish_new
  publish_new-Means cfg t owner type p attr flags m small a ok may far =
      settle (admit cfg t f)
        (admit-Admits cfg f.stamp t f m (IsTable-mono (omega arith) ok) a
          (record { typed = may.0; origin_in = may.1; seen = omega arith }))
        (next_seq-admit cfg t f) (admit_refuses cfg f.stamp t f m (IsTable-mono (omega arith) ok) a)
    where
      f : Fact F
      f = new_fact t owner type p attr flags

      settle :
          (r : Facts F × Bool)
          → Admits cfg f.stamp t f r
          → r.0.next_seq ≡ t.next_seq
          → (r.1 ≡ false → NoRoom cfg t f)
          → let (t', admitted) = r in
            let out : Facts F × Published =
              if not admitted then (t', err_full) else (published cfg t' f, created f.key) in
            Means cfg t owner type (some p) attr flags out
      settle (t', false) w n full = (w.2 refl, may, (p, refl, far, full refl))
      settle (t', true) w n full =
          let (i, g) = w.3 refl in
          let t1 : Facts F = record t' { clock = f.stamp; next_seq = (t'.next_seq + 1) % 2 ^ 8 } in
          let t2 = trickle_reset cfg t1 in
          let sl : t2.slots ≡ t'.slots = slots-trickle_reset cfg t1 in
          (
            may,
            refl,
            (p, refl, far, get_at t2 i (fresh_slot f) (rw sl g) refl (rw sl w.0.distinct)),
            omega (arith, trickle_reset-keeps cfg t1),
            omega (arith, trickle_reset-keeps cfg t1),
          )

  -- wm_fact_publish(), branch by branch.  An error, or the reuse of a nearby fact, leaves the table
  -- as it was: the arguments are invalid (no position, no type, or no valid owner), no epoch is set, or
  -- the table is not synced, checked in that order; or a live fact of the type lies within the merge
  -- radius, and its key is given back; or none does, and there is no room: the new record goes, in
  -- the eviction order, before every live record of an origin that has its share, or before every
  -- record of a table that is full.  Otherwise no such fact is near, and the table answers the new key,
  -- (type, own id, epoch, next seq), with the record published, one tick later on the Lamport clock, and
  -- the sequence number moves on.  The table is well-formed and has a share for an origin, the clock
  -- must not wrap, and no held record may have the new key already.
  pub publish_lem :
      (cfg : Config) (t : Facts F) (owner type : ℕ) (pos : Option (Position F)) (attr flags : ℕ)
      → 0 < cfg.max_per_origin
      → t.clock + 1 < 2 ^ 32
      → Absent (new_key t owner type) t.slots
      → WellFormed cfg t
      → Means cfg t owner type pos attr flags (publish cfg t owner type pos attr flags)
  unfolding publish
  publish_lem cfg t owner type none attr flags m small a ok = (refl, inl refl)
  publish_lem cfg t owner type (some p) attr flags m small a ok =
      elim (Bool-cases (type == type_none || leb max_elements owner)) [
        | inl e ↦ rw e (refl, inr (ground arith))
        | inr e ↦ rw e (elim (Bool-cases t.epoch_set) [
          | inr n ↦ simp n (refl, refl)
          | inl n ↦ simp n (elim (Bool-cases t.synced) [
            | inr y ↦ simp y (refl, n, refl)
            | inl y ↦ simp y (
                seek (ground arith, ground arith, n, y) (nearby_duplicate t.slots type none p)
                  (nearby_duplicate-Near t.slots type none p)
                  (nearby_duplicate-NoneNear t.slots type p))
          ])
        ])
      ]
    where
      seek :
          MayPublish t owner type
          → (r : Option (ℕ × FactSlot F)) → Near t.slots type none p r
          → (r ≡ none → NoneNear t.slots type p)
          → let out : Facts F × Published = elim r [
            | some (i, dup) ↦ (t, reused dup.fact.key)
            | none ↦ publish_new cfg t (new_fact t owner type p attr flags)
          ] in
            Means cfg t owner type (some p) attr flags out
      seek may (some (i, s)) (g, n) far =
          let (u, l, k, d) = near_lem type p s n in
          (refl, may, (p, i, s, refl, g, refl, u, l, k, d))
      seek may none n far =
          publish_new-Means cfg t owner type p attr flags m small a ok may (far refl)
