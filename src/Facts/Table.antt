-- ===== src/Facts/Table.antt =====
-- facts.c, "Slots": looking a key up, eviction, admission, and the search for a nearby duplicate.
-- A slot pointer is the slot's index beside its contents.  The functions of facts.c touch
-- `wm->facts` alone (wm_fact_publish reads `wm->owner_id` too), so they work on `Facts`.
use mathlib.Core.Option
use tapestry.Prelude.{
  ℕ, suc, ◌+◌, Bool, true, false, not, ◌&&◌, List, [], ◌∷◌, Option, none, some, leb, ◌==◌,
  if◌then◌else◌, set, count, u32,
}
use tapestry.Prelude.Floats.{FloatOps}
use tapestry.Facts.Types.{
  Config, FactKey, Fact, FactSlot, Facts, Position, position_distance, fact_key_equal, type_target,
  evict_capacity, evict_per_origin,
}
use tapestry.Facts.Order.{Sign, is_below, is_live, rank_cmp, evict_cmp}

-- `skip != NULL && fact_key_equal(key, skip)`
abbrev pub skips : Option FactKey → FactKey → Bool
skips none key = false
skips (some k) key = fact_key_equal key k

module _ {F : Type 0} where
  abbrev pub holds_key : FactKey → FactSlot F → Bool
  holds_key key s = s.used && fact_key_equal s.fact.key key

  -- The first used slot with the key.
  unfoldable pub find_slot : List (FactSlot F) → FactKey → Option (ℕ × FactSlot F)
  find_slot [] key = none
  find_slot (s ∷ ss) key =
      if holds_key key s
      then some (0, s)
      else Option.map (λ (p : ℕ × FactSlot F). (suc p.0, p.1)) (find_slot ss key)

  -- The best-so-far test of the selection loops: `best == NULL || cmp(s, best) < 0`.
  abbrev pub improves : (Fact F → Fact F → Sign) → FactSlot F → Option (ℕ × FactSlot F) → Bool
  improves cmp s none = true
  improves cmp s (some (j, b)) = is_below (cmp s.fact b.fact)

  -- The selection loop from index `i` on: the first of the lowest slots that pass `keep`.
  unfoldable pub least :
      (FactSlot F → Bool)
      → (Fact F → Fact F → Sign)
      → List (FactSlot F)
      → ℕ
      → Option (ℕ × FactSlot F)
      → Option (ℕ × FactSlot F)
  least keep cmp [] i best = best
  least keep cmp (s ∷ ss) i best =
      least keep cmp ss (i + 1) (if keep s && improves cmp s best then some (i, s) else best)

  -- The first slot that is not used.
  unfoldable pub free_slot : List (FactSlot F) → Option ℕ
  free_slot [] = none
  free_slot (s ∷ ss) = if not s.used then some 0 else Option.map suc (free_slot ss)

  unfoldable pub evict : Facts F → ℕ → FactSlot F → ℕ → Facts F
  evict t i s reason = record t {
    evictions = u32 (t.evictions + 1);
    last_evicted = s.fact.key;
    last_evict_reason = reason;
    last_evicted_age_ms = s.held_ms;
    last_evicted_flags = s.fact.flags;
    slots = set t.slots i (record s { used = false });
  }

  -- The slots that the per-origin limit of `f` counts.
  abbrev pub same_origin : Fact F → FactSlot F → Bool
  same_origin f s =
      s.used
      && is_live s.fact
      && s.fact.key.origin == f.key.origin
      && s.fact.key.epoch == f.key.epoch

  abbrev pub is_used : FactSlot F → Bool
  is_used s = s.used

  -- The first half of admit(): `none` is its early `return false`.
  unfoldable pub room_at_origin : Config → Facts F → Fact F → Option (Facts F)
  room_at_origin cfg t f =
      if not (is_live f)
      then some t
      else if not (leb cfg.max_per_origin (count (same_origin f) t.slots))
      then some t
      else elim (least (same_origin f) evict_cmp t.slots 0 none) [
        | none ↦ some t
        | some (i, oldest) ↦
            if is_below (evict_cmp f oldest.fact)
            then none
            else some (evict t i oldest evict_per_origin)
      ]

  -- The second half: a free slot, made by an eviction if need be.  (`none` at an empty `lowest`
  -- stands for a table of no slots.)
  unfoldable pub room_in_table : Facts F → Fact F → Option (ℕ × Facts F)
  room_in_table t f = elim (free_slot t.slots) [
    | some i ↦ some (i, t)
    | none ↦ elim (least is_used evict_cmp t.slots 0 none) [
      | none ↦ none
      | some (i, lowest) ↦
          if is_below (evict_cmp f lowest.fact)
          then none
          else some (i, evict t i lowest evict_capacity)
    ]
  ]

  abbrev pub fresh_slot : Fact F → FactSlot F
  fresh_slot f = record { fact = f; used = true; held_ms = 0; tomb_ms = 0 }

  unfoldable pub admit : Config → Facts F → Fact F → Facts F × Bool
  admit cfg t f = elim (room_at_origin cfg t f) [
    | none ↦ (t, false)
    | some t1 ↦ elim (room_in_table t1 f) [
      | none ↦ (t1, false)
      | some (i, t2) ↦ (record t2 { slots = set t2.slots i (fresh_slot f) }, true)
    ]
  ]

  -- wm_fact_merge_radius()
  unfoldable pub merge_radius : ⦃fl : FloatOps F⦄ → ℕ → F
  merge_radius ⦃fl⦄ type = if type == type_target then fl.of_ℕ 15 else fl.of_ℕ 0

  -- The slots that nearby_duplicate() considers.
  unfoldable pub is_near_duplicate :
      ⦃fl : FloatOps F⦄ → ℕ → Option FactKey → Position F → F → FactSlot F → Bool
  is_near_duplicate ⦃fl⦄ type skip pos r s =
      s.used
      && is_live s.fact
      && s.fact.key.type == type
      && not (skips skip s.fact.key)
      && not (fl.lt r (position_distance s.fact.pos pos))

  unfoldable pub nearby_duplicate :
      ⦃fl : FloatOps F⦄
      → List (FactSlot F)
      → ℕ
      → Option FactKey
      → Position F
      → Option (ℕ × FactSlot F)
  nearby_duplicate ⦃fl⦄ slots type skip pos =
      let r = merge_radius type in
      if fl.le r (fl.of_ℕ 0)
      then none
      else least (is_near_duplicate type skip pos r) rank_cmp slots 0 none
