-- ===== src/Facts/Merge.antt =====
-- facts.c, wm_fact_receive(): the merge rules for one received record.
use tapestry.Prelude.{
  ℕ, zero, suc, Bool, true, false, not, ◌&&◌, ◌||◌, List, Option, none, some, ltb, leb, ◌==◌,
  if◌then◌else◌, length, set,
}
use tapestry.Prelude.Floats.{FloatOps}
use tapestry.Facts.Types.{Config, Fact, FactSlot, Facts, type_none, max_elements, is_immutable}
use tapestry.Facts.Order.{is_below, is_above, is_live, rank_cmp}
use tapestry.Facts.Table.{find_slot, nearby_duplicate, admit}
use tapestry.Facts.Trickle.{trickle_reset}

-- What a received version does to the held one: nothing, replace it, or replace it and start the
-- tombstone's age.
pub data Outcome : Type 0 where
  keep replace bury : Outcome

-- What merge_record() returns after the outcome.
abbrev pub changes : Outcome → Bool
changes keep = false
changes _ = true

module _ {F : Type 0} where
  -- The branch of merge_record() for a key that is held: `h` is held, `f` received.
  unfoldable pub merge_held : Fact F → Fact F → Outcome
  merge_held h f =
      if not (is_live h)
      then (if not (is_live f) && ltb f.stamp h.stamp then replace else keep)
      else if not (is_live f)
      then bury
      else if (is_immutable h.flags && is_below (rank_cmp f h))
          || (not (is_immutable h.flags) && is_above (rank_cmp f h))
      then replace
      else keep

  -- The write that an outcome makes to the held slot.
  unfoldable pub apply_outcome : Outcome → FactSlot F → Fact F → FactSlot F
  apply_outcome keep s f = s
  apply_outcome replace s f = record s { fact = f }
  apply_outcome bury s f = record s { fact = f; tomb_ms = 0 }

  -- The `for (;;)` that yields to, or clears, nearby facts: the slots it leaves, and whether the
  -- record goes on to admit().  `none` is out of fuel; each round clears a used slot.
  unfoldable pub yield_or_clear :
      ⦃fl : FloatOps F⦄ → ℕ → List (FactSlot F) → Fact F → Option (List (FactSlot F) × Bool)
  yield_or_clear zero slots f = none
  yield_or_clear (suc fuel) slots f = elim (nearby_duplicate slots f.key.type (some f.key) f.pos) [
    | none ↦ some (slots, true)
    | some (i, dup) ↦ elim (is_above (rank_cmp f dup.fact)) [
      | true ↦ some (slots, false)
      | false ↦ yield_or_clear fuel (set slots i (record dup { used = false })) f
    ]
  ]

  -- The Lamport receive rule.
  abbrev pub lamport : Facts F → Fact F → Facts F
  lamport t f = record t { clock = if ltb t.clock f.stamp then f.stamp else t.clock }

  unfoldable pub merge_absent : ⦃fl : FloatOps F⦄ → Config → Facts F → Fact F → Facts F × Bool
  merge_absent cfg t f =
      if not (is_live f)
      then admit cfg t f
      else elim (yield_or_clear (suc (length t.slots)) t.slots f) [
        | none ↦ (t, false)
        | some (slots, goes_on) ↦
            let t' = record t { slots = slots } in if goes_on then admit cfg t' f else (t', false)
      ]

  unfoldable pub merge_present : Facts F → ℕ → FactSlot F → Fact F → Facts F × Bool
  merge_present t i held f =
      let o = merge_held held.fact f in
      (record t { slots = set t.slots i (apply_outcome o held f) }, changes o)

  unfoldable pub merge_record : ⦃fl : FloatOps F⦄ → Config → Facts F → Fact F → Facts F × Bool
  merge_record cfg t f =
      if f.key.type == type_none || leb max_elements f.key.origin
      then (t, false)
      else elim (find_slot t.slots f.key) [
        | some (i, held) ↦ merge_present (lamport t f) i held f
        | none ↦ merge_absent cfg (lamport t f) f
      ]

  -- wm_fact_receive()
  unfoldable pub receive : ⦃fl : FloatOps F⦄ → Config → Facts F → Fact F → Facts F × Bool
  receive cfg t f =
      let (t', changed) = merge_record cfg t f in
      if changed then (trickle_reset cfg t', true) else (t', false)
