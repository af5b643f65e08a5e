-- ===== src/Facts/Clearing.antt =====
-- facts.c, the `for (;;)` of merge_record(): it ends within its fuel, and only clears slots.
use tapestry.Prelude.{
  ℕ, zero, suc, ◌<◌, ◌≡◌, refl, inl, inr, Bool, true, false, List, Option, none, some, arith,
  get_elem?, set, count, count-set, All-set, Bool-cases,
}
use tapestry.Prelude.Floats.{FloatOps}
use tapestry.Facts.Types.{Config, Fact, FactSlot, FactKey, Position}
use tapestry.Facts.Order.{is_above, rank_cmp, rank_fields, rank_cmp-lex}
use tapestry.Facts.Table.{is_used, merge_radius, is_near_duplicate, nearby_duplicate}
use tapestry.Facts.Least.{Selected, least-Selected}
use tapestry.Facts.Keys.{Absent}
use tapestry.Facts.Invariant.{IsTable, unused, unused-IsTable}
use tapestry.Facts.Merge.{yield_or_clear}

module _ {F : Type 0} ⦃fl : FloatOps F⦄ where
  -- What nearby_duplicate() finds: a slot of the table that is a near duplicate.
  abbrev pub Near :
      List (FactSlot F) → ℕ → Option FactKey → Position F → Option (ℕ × FactSlot F) → Type 0
  Near xs type skip pos none = Unit {0}
  Near xs type skip pos (some (i, s)) =
      (get_elem? xs i ≡ some s) × (is_near_duplicate type skip pos (merge_radius type) s ≡ true)

  Near-of :
      (xs : List (FactSlot F)) (type : ℕ) (skip : Option FactKey) (pos : Position F)
      (r : Option (ℕ × FactSlot F))
      → Selected
          (is_near_duplicate type skip pos (merge_radius type))
          rank_cmp
          rank_fields
          rank_cmp-lex
          xs
          r
      → Near xs type skip pos r
  Near-of xs type skip pos none s = tt
  Near-of xs type skip pos (some (i, b)) s = (s.0, s.1)

  pub nearby_duplicate-Near :
      (xs : List (FactSlot F)) (type : ℕ) (skip : Option FactKey) (pos : Position F)
      → Near xs type skip pos (nearby_duplicate xs type skip pos)
  unfolding nearby_duplicate
  nearby_duplicate-Near xs type skip pos =
      elim (Bool-cases (fl.le (merge_radius type) (fl.of_ℕ 0))) [
        | inl e ↦ rw e tt
        | inr e ↦
            rw e
              (Near-of xs type skip pos _ (least-Selected _ rank_cmp rank_fields rank_cmp-lex xs))
      ]

  is_near_duplicate-used :
      (type : ℕ) (skip : Option FactKey) (pos : Position F) (r : F) (s : FactSlot F)
      → is_near_duplicate type skip pos r s ≡ true
      → s.used ≡ true
  unfolding is_near_duplicate
  is_near_duplicate-used type skip pos r s h = ground arith

  -- It has a result, whose slots keep the invariant and gain no key.
  abbrev pub Clears : Config → ℕ → FactKey → Option (List (FactSlot F) × Bool) → Type 0
  Clears cfg clock key none = ⊥
  Clears cfg clock key (some (ys, b)) = IsTable cfg clock ys × Absent key ys

  -- The loop that yields to nearby duplicates or clears them ends: with more fuel than there are used
  -- slots it gives a result, and the slots that it leaves keep the invariant and do not gain the key.
  pub yield_or_clear-Clears :
      (cfg : Config) (clock fuel : ℕ) (xs : List (FactSlot F)) (f : Fact F)
      → count is_used xs < fuel
      → IsTable cfg clock xs
      → Absent f.key xs
      → Clears cfg clock f.key (yield_or_clear fuel xs f)
  unfolding yield_or_clear
  yield_or_clear-Clears cfg clock zero xs f h ok a = elim h [ ]
  yield_or_clear-Clears cfg clock (suc fuel) xs f h ok a =
      round (nearby_duplicate xs f.key.type (some f.key) f.pos)
        (nearby_duplicate-Near xs f.key.type (some f.key) f.pos)
        (λ i s. yield_or_clear-Clears cfg clock fuel (set xs i (unused s)) f)
    where
      round :
          (r : Option (ℕ × FactSlot F))
          → Near xs f.key.type (some f.key) f.pos r
          → ((i : ℕ) (s : FactSlot F)
              → count is_used (set xs i (unused s)) < fuel
              → IsTable cfg clock (set xs i (unused s))
              → Absent f.key (set xs i (unused s))
              → Clears cfg clock f.key (yield_or_clear fuel (set xs i (unused s)) f))
          → Clears cfg clock f.key (elim r [
            | none ↦ some (xs, true)
            | some (i, dup) ↦ elim (is_above (rank_cmp f dup.fact)) [
              | true ↦ some (xs, false)
              | false ↦ yield_or_clear fuel (set xs i (record dup { used = false })) f
            ]
          ])
      round none n rec = (ok, a)
      round (some (i, s)) (g, n) rec = elim (Bool-cases (is_above (rank_cmp f s.fact))) [
        | inl e ↦ rw e (ok, a)
        | inr e ↦
            let u = is_near_duplicate-used _ _ f.pos _ s n in
            rw e (
              rec i s (ground (arith, count-set is_used xs i s (unused s) g))
                (unused-IsTable xs i s g ok) (All-set _ xs i (unused s) a refl))
      ]
