-- ===== src/Facts/Invariant.antt =====
-- The invariant of the fact table, and the slot writes that keep it.
use tapestry.Prelude.{
  ℕ, ◌≤◌, ◌<◌, ◌≡◌, refl, ◌≢◌, inl, inr, true, false, List, [], ◌∷◌, some, arith, if◌then◌else◌,
  length, get_elem?, set, count, count-set, count-set_eq_true, count-set_eq_false, All, All-set,
  All-get, length-set, Bool-cases,
}
use tapestry.Facts.Types.{Config, Fact, FactSlot, max_elements, type_none}
use tapestry.Facts.Order.{is_live}
use tapestry.Facts.Table.{same_origin}
use tapestry.Facts.Keys.{
  Distinct, Absent, Distinct-set_unused, Distinct-set-Absent, Distinct-set_same,
}

module _ {F : Type 0} where
  -- A held record is valid: it has a type, an origin in range, and a stamp that the clock has seen.
  pub record IsValid (clock : ℕ) (f : Fact F) : Type 0 where
    pub typed : f.key.type ≢ type_none
    pub origin_in : f.key.origin < max_elements
    pub seen : f.stamp ≤ clock

  abbrev pub Holds : ℕ → FactSlot F → Type 0
  Holds clock s = s.used ≡ true → IsValid clock s.fact

  -- Of a table of slots under a clock.
  pub record IsTable (cfg : Config) (clock : ℕ) (slots : List (FactSlot F)) : Type 0 where
    pub sized : length slots ≡ cfg.max_facts
    pub distinct : Distinct slots
    pub valid : All (Holds clock) slots
    pub limited : (f : Fact F) → count (same_origin f) slots ≤ cfg.max_per_origin

  abbrev pub unused : FactSlot F → FactSlot F
  unused s = record s { used = false }

  -- The clock may only move forward.
  pub Holds-mono : (c d : ℕ) (xs : List (FactSlot F)) → c ≤ d → All (Holds c) xs → All (Holds d) xs
  Holds-mono c d [] h v = tt
  Holds-mono c d (s ∷ xs) h v = (
    λ u. record {
      typed = (v.0 u).typed;
      origin_in = (v.0 u).origin_in;
      seen = omega (arith, (v.0 u).seen);
    },
    Holds-mono c d xs h v.1,
  )

  pub IsTable-mono :
      {cfg : Config} {c d : ℕ} {xs : List (FactSlot F)}
      → c ≤ d
      → IsTable cfg c xs
      → IsTable cfg d xs
  IsTable-mono {c} {d} {xs} h t = record {
    sized = t.sized;
    distinct = t.distinct;
    valid = Holds-mono c d xs h t.valid;
    limited = t.limited;
  }

  -- Clearing a slot keeps the invariant.
  pub unused-IsTable :
      {cfg : Config} {clock : ℕ} (xs : List (FactSlot F)) (i : ℕ) (s : FactSlot F)
      → get_elem? xs i ≡ some s
      → IsTable cfg clock xs
      → IsTable cfg clock (set xs i (unused s))
  unused-IsTable xs i s g t = record {
    sized = omega (arith, length-set xs i (unused s), t.sized);
    distinct = Distinct-set_unused xs i (unused s) refl t.distinct;
    valid = All-set _ xs i (unused s) t.valid (λ u. cc);
    limited = λ f. omega (arith, count-set (same_origin f) xs i s (unused s) g, t.limited f);
  }

  -- Rewriting a used slot under its own key, without reviving a tombstone, keeps it.
  pub rewrite-IsTable :
      {cfg : Config} {clock : ℕ} (xs : List (FactSlot F)) (i : ℕ) (s v : FactSlot F)
      → get_elem? xs i ≡ some s
      → s.used ≡ true
      → v.used ≡ true
      → v.fact.key ≡ s.fact.key
      → (is_live v.fact ≡ true → is_live s.fact ≡ true)
      → v.fact.stamp ≤ clock
      → IsTable cfg clock xs
      → IsTable cfg clock (set xs i v)
  rewrite-IsTable {clock} xs i s v g u w e l st t = record {
    sized = omega (arith, length-set xs i v, t.sized);
    distinct = Distinct-set_same xs i s v g u e t.distinct;
    valid =
        let old : IsValid clock s.fact = All-get (Holds clock) xs i s t.valid g u in
        All-set (Holds clock) xs i v t.valid
          (λ _. record { typed = rw e old.typed; origin_in = rw e old.origin_in; seen = st });
    limited = λ f. omega (arith, count-set (same_origin f) xs i s v g, t.limited f, fewer f);
  }
    where
      fewer :
          (f : Fact F)
          → (if same_origin f v then 1 else 0) ≤ (let b = same_origin f s in if b then 1 else 0)
      fewer f = ground (arith, l)

  -- Facts of one origin and epoch count the same slots.
  pub count-same_origin :
      (f h : Fact F) (xs : List (FactSlot F))
      → f.key.origin ≡ h.key.origin
      → f.key.epoch ≡ h.key.epoch
      → count (same_origin f) xs ≡ count (same_origin h) xs
  unfolding count
  count-same_origin f h [] p q = refl
  count-same_origin f h (s ∷ xs) p q = rw (p, q, count-same_origin f h xs p q)

  -- Filling an unused slot with an absent key keeps it, where the origin has room.
  pub fill-IsTable :
      {cfg : Config} {clock : ℕ} (xs : List (FactSlot F)) (i : ℕ) (s v : FactSlot F)
      → get_elem? xs i ≡ some s
      → s.used ≡ false
      → Absent v.fact.key xs
      → IsValid clock v.fact
      → (is_live v.fact ≡ true → count (same_origin v.fact) xs < cfg.max_per_origin)
      → IsTable cfg clock xs
      → IsTable cfg clock (set xs i v)
  fill-IsTable {cfg} {clock} xs i s v g u a ok room t = record {
    sized = omega (arith, length-set xs i v, t.sized);
    distinct = Distinct-set-Absent xs i v a t.distinct;
    valid = All-set (Holds clock) xs i v t.valid (λ _. ok);
    limited = fits;
  }
    where
      fits : (f : Fact F) → count (same_origin f) (set xs i v) ≤ cfg.max_per_origin
      fits f = elim (Bool-cases (same_origin f v)) [
        | inl e ↦ omega (
          arith,
          count-set_eq_true (same_origin f) xs i s v g e,
          count-same_origin f v.fact xs (ground arith) (ground arith),
          room (ground arith),
        )
        | inr e ↦ omega (arith, count-set_eq_false (same_origin f) xs i s v g e, t.limited f)
      ]
