-- ===== src/Facts/Refusal.antt =====
-- facts.c: when admit() refuses a record, and when nearby_duplicate() finds nothing.
use tapestry.Prelude.{
  ℕ, ◌≤◌, ◌<◌, ◌≡◌, refl, sym, ◌∙◌, ◌⊎◌, inl, inr, Bool, true, false, List, [], ◌∷◌, Option, none,
  some, arith, leb, Bool-cases, Option-cases, ap, All, count, if◌then◌else◌,
}
use mathlib.Core.Path.{subst}
use tapestry.Prelude.Floats.{FloatOps}
use tapestry.Prelude.Lex.{lex_le_trans}
use tapestry.Facts.Types.{Config, Fact, FactSlot, Facts, Position, evict_per_origin}
use tapestry.Facts.Order.{
  is_live, is_below, evict_cmp, evict_fields, evict_cmp-lex, rank_cmp, rank_fields, rank_cmp-lex,
}
use tapestry.Facts.Table.{
  same_origin, is_used, least, free_slot, evict, room_at_origin, room_in_table, admit,
  is_near_duplicate, merge_radius, nearby_duplicate,
}
use tapestry.Facts.Least.{Selected, least-Selected}
use tapestry.Facts.Keys.{Absent}
use tapestry.Facts.Invariant.{IsTable}
use tapestry.Facts.Room.{
  Free, free_slot-Free, RoomAtOrigin, room_at_origin_lem, RoomInTable, room_in_table_lem,
}
use tapestry.Facts.Eviction.{goes_before, IsFull}

module _ {F : Type 0} where
  -- `f` goes before every slot that some predicate selects.
  abbrev pub GoesBefore : (FactSlot F → Bool) → Fact F → List (FactSlot F) → Type 0
  GoesBefore p f = All (λ s. p s ≡ true → goes_before f s.fact ≡ true)

  -- The origin has its share, and `f` goes before each of its live records; or every slot is used, and
  -- `f` goes before each of them.
  abbrev pub NoRoom : Config → Facts F → Fact F → Type 0
  NoRoom cfg t f =
      ((cfg.max_per_origin ≤ count (same_origin f) t.slots) × GoesBefore (same_origin f) f t.slots)
      ⊎ (IsFull t.slots × GoesBefore is_used f t.slots)

  before-All :
      (p : FactSlot F → Bool) (f : Fact F) (b : FactSlot F) (xs : List (FactSlot F))
      → goes_before f b.fact ≡ true
      → All (λ s. p s ≡ true → goes_before s.fact b.fact ≡ false) xs
      → GoesBefore p f xs
  before-All p f b [] h a = tt
  before-All p f b (s ∷ xs) h a = (strictly, before-All p f b xs h a.1)
    where
      strictly : p s ≡ true → goes_before f s.fact ≡ true
      strictly u = elim (Bool-cases (goes_before f s.fact)) [
        | inl e ↦ e
        | inr e ↦
            let le =
              lex_le_trans (evict_fields f) (evict_fields s.fact) (evict_fields b.fact) e (a.0 u) in
            absurd (ground arith)
      ]

  before_none :
      (p : FactSlot F → Bool) (f : Fact F) (xs : List (FactSlot F))
      → All (λ s. p s ≡ false) xs
      → GoesBefore p f xs
  before_none p f [] a = tt
  before_none p f (s ∷ xs) a = (λ u. absurd (ground (arith, a.0, u)), before_none p f xs a.1)

  -- What a search for the lowest record says, when the newcomer is below it.
  below_lem :
      (p : FactSlot F → Bool) (f : Fact F) (t : Facts F) (i : ℕ) (b : FactSlot F)
      → Selected p evict_cmp evict_fields evict_cmp-lex t.slots (some (i, b))
      → is_below (evict_cmp f b.fact) ≡ true
      → GoesBefore p f t.slots
  below_lem p f t i b (g, u, a) e = before-All p f b t.slots (sym (evict_cmp-lex f b.fact) ∙ e) a

  origin_refuses :
      (cfg : Config) (t : Facts F) (f : Fact F) → room_at_origin cfg t f ≡ none → NoRoom cfg t f
  unfolding room_at_origin
  origin_refuses cfg t f h = elim (Bool-cases (is_live f)) [
    | inr d ↦ absurd (ground arith)
    | inl l ↦ elim (Bool-cases (leb cfg.max_per_origin (count (same_origin f) t.slots))) [
      | inr m ↦ absurd (ground arith)
      | inl m ↦
          choose l m (least (same_origin f) evict_cmp t.slots 0 none)
            (least-Selected (same_origin f) evict_cmp evict_fields evict_cmp-lex t.slots)
            (rw (room_at_origin, l, m) at h)
    ]
  ]
    where
      choose :
          is_live f ≡ true
          → leb cfg.max_per_origin (count (same_origin f) t.slots) ≡ true
          → (r : Option (ℕ × FactSlot F))
          → Selected (same_origin f) evict_cmp evict_fields evict_cmp-lex t.slots r
          → let out : Option (Facts F) = elim r [
            | none ↦ some t
            | some (i, oldest) ↦
                if is_below (evict_cmp f oldest.fact)
                then none
                else some (evict t i oldest evict_per_origin)
          ] in
            out ≡ none → NoRoom cfg t f
      choose l m none s q = absurd (ground arith)
      choose l m (some (i, b)) s q =
          inl (ground arith, below_lem (same_origin f) f t i b s (ground arith))

  table_refuses :
      (cfg : Config) (t : Facts F) (f : Fact F) → room_in_table t f ≡ none → NoRoom cfg t f
  unfolding room_in_table
  table_refuses cfg t f h = seek (free_slot t.slots) (free_slot-Free t.slots) refl
    where
      choose :
          IsFull t.slots
          → (r : Option (ℕ × FactSlot F)) → least is_used evict_cmp t.slots 0 none ≡ r
          → Selected is_used evict_cmp evict_fields evict_cmp-lex t.slots r
          → free_slot t.slots ≡ none
          → NoRoom cfg t f
      choose full none e s g = inr (full, before_none is_used f t.slots s)
      choose full (some (i, b)) e s g =
          inr (full, below_lem is_used f t i b s (ground (arith, h, e, g)))

      seek : (r : Option ℕ) → Free t.slots r → free_slot t.slots ≡ r → NoRoom cfg t f
      seek none full g =
          choose full (least is_used evict_cmp t.slots 0 none) refl
            (least-Selected is_used evict_cmp evict_fields evict_cmp-lex t.slots) g
      seek (some i) free g = absurd (ground arith)

  -- Where admit() refuses a record, there is no room for it.
  pub admit_refuses :
      (cfg : Config) (c : ℕ) (t : Facts F) (f : Fact F)
      → 0 < cfg.max_per_origin
      → IsTable cfg c t.slots
      → Absent f.key t.slots
      → (admit cfg t f).1 ≡ false
      → NoRoom cfg t f
  unfolding admit
  admit_refuses cfg c t f pos ok a h =
      first (room_at_origin cfg t f) (room_at_origin_lem cfg c t f pos ok a) refl
    where
      first :
          (r : Option (Facts F))
          → RoomAtOrigin cfg c t f r
          → room_at_origin cfg t f ≡ r
          → NoRoom cfg t f
      first none p e = origin_refuses cfg t f e
      first (some t1) (room, p) e = elim (Option-cases (room_in_table t1 f)) [
        | inr (found, g) ↦ absurd (ground (arith, h, e, g))
        | inl g ↦ elim p [
          | inl same ↦ table_refuses cfg t f (ap (λ x. room_in_table x f) (sym same) ∙ g)
          | inr free ↦ absurd (
              subst (λ r. RoomInTable t1.slots cfg c t f r) g (room_in_table_lem cfg c t t1 f room)
                free)
        ]
      ]

module _ {F : Type 0} ⦃fl : FloatOps F⦄ where
  -- No live fact of the type is near the place, unless the type has no merge radius.
  abbrev pub NoneNear : List (FactSlot F) → ℕ → Position F → Type 0
  NoneNear xs type p =
      (fl.le (merge_radius type) (fl.of_ℕ 0) ≡ true)
      ⊎ All (λ s. is_near_duplicate type none p (merge_radius type) s ≡ false) xs

  pub nearby_duplicate-NoneNear :
      (xs : List (FactSlot F)) (type : ℕ) (p : Position F)
      → nearby_duplicate xs type none p ≡ none
      → NoneNear xs type p
  unfolding nearby_duplicate
  nearby_duplicate-NoneNear xs type p h =
      elim (Bool-cases (fl.le (merge_radius type) (fl.of_ℕ 0))) [
        | inl e ↦ inl e
        | inr e ↦ inr (
            subst
              (Selected (is_near_duplicate type none p (merge_radius type)) rank_cmp rank_fields
                rank_cmp-lex xs)
              (rw (nearby_duplicate, e) at h)
              (least-Selected _ rank_cmp rank_fields rank_cmp-lex xs))
      ]
