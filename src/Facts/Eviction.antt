-- ===== src/Facts/Eviction.antt =====
-- facts.c, admit() on a full table: which record goes.
use tapestry.Prelude.{
  ℕ, ◌<◌, ◌≡◌, refl, sym, ◌∙◌, inl, inr, Bool, true, false, List, [], ◌∷◌, Option, none, some,
  arith, leb, if◌then◌else◌, Bool-cases, All, All-get, get_elem?, set, length, count,
}
use tapestry.Prelude.Lex.{lex_lt, lex_le_trans}
use tapestry.Facts.Types.{Config, Fact, FactSlot, Facts, evict_capacity}
use tapestry.Facts.Order.{is_live, is_below, evict_cmp, evict_fields, evict_cmp-lex}
use tapestry.Facts.Table.{
  same_origin, is_used, free_slot, evict, room_at_origin, room_in_table, admit, fresh_slot,
}
use tapestry.Facts.Least.{Selected, least-Selected}
use tapestry.Facts.Room.{Free, free_slot-Free}

module _ {F : Type 0} where
  -- `a` goes before `b`.
  abbrev pub goes_before : Fact F → Fact F → Bool
  goes_before a b = lex_lt (evict_fields a) (evict_fields b)

  abbrev pub IsFull : List (FactSlot F) → Type 0
  IsFull = All (λ s. s.used ≡ true)

  free_slot-none : (xs : List (FactSlot F)) → IsFull xs → free_slot xs ≡ none
  free_slot-none xs full = seek (free_slot xs) (free_slot-Free xs)
    where
      seek : (r : Option ℕ) → Free xs r → r ≡ none
      seek none f = refl
      seek (some i) (s, g, u) =
          let w : s.used ≡ true = All-get (λ (x : FactSlot F). x.used ≡ true) xs i s full g in
          absurd (ground arith)

  -- The origin of `f` is below its share, or `f` is a tombstone, which counts against none.
  abbrev pub HasShare : Config → Facts F → Fact F → Type 0
  HasShare cfg t f = is_live f ≡ true → count (same_origin f) t.slots < cfg.max_per_origin

  room_at_origin-share :
      (cfg : Config) (t : Facts F) (f : Fact F) → HasShare cfg t f → room_at_origin cfg t f ≡ some t
  unfolding room_at_origin
  room_at_origin-share cfg t f share = elim (Bool-cases (is_live f)) [
    | inr d ↦ rw d refl
    | inl l ↦
        let few : leb cfg.max_per_origin (count (same_origin f) t.slots) ≡ false =
          ground (arith, share l) in
        rw (l, few)
  ]

  All-before :
      (f : Fact F) (b : FactSlot F) (xs : List (FactSlot F))
      → IsFull xs
      → goes_before f b.fact ≡ true
      → All (λ s. s.used ≡ true → goes_before s.fact b.fact ≡ false) xs
      → All (λ s. goes_before f s.fact ≡ true) xs
  All-before f b [] full h a = tt
  All-before f b (s ∷ xs) full h a = (strictly, All-before f b xs full.1 h a.1)
    where
      strictly : goes_before f s.fact ≡ true
      strictly = elim (Bool-cases (goes_before f s.fact)) [
        | inl e ↦ e
        | inr e ↦
            let le =
              lex_le_trans (evict_fields f) (evict_fields s.fact) (evict_fields b.fact) e
                (a.0 full.0) in
            absurd (ground arith)
      ]

  none_before :
      (b : FactSlot F) (xs : List (FactSlot F))
      → IsFull xs
      → All (λ s. s.used ≡ true → goes_before s.fact b.fact ≡ false) xs
      → All (λ s. goes_before s.fact b.fact ≡ false) xs
  none_before b [] full a = tt
  none_before b (s ∷ xs) full a = (a.0 full.0, none_before b xs full.1 a.1)

  not_empty :
      (xs : List (FactSlot F)) → 0 < length xs → IsFull xs → All (λ s. is_used s ≡ false) xs → ⊥
  not_empty [] h full none_used = elim h [ ]
  not_empty (s ∷ xs) h full none_used = ground arith

  -- What admit() does on a full table: the newcomer is refused, since it goes before every held
  -- record; or it takes the slot of a held record before which no held record goes, nor the newcomer.
  abbrev pub Replaces : Facts F → Fact F → Facts F × Bool → Type 0
  Replaces t f (t', false) = (t' ≡ t) × All (λ s. goes_before f s.fact ≡ true) t.slots
  Replaces t f (t', true) =
      (i : ℕ) × (s : FactSlot F) × (get_elem? t.slots i ≡ some s)
      × All (λ x. goes_before x.fact s.fact ≡ false) t.slots
      × (goes_before f s.fact ≡ false)
      × (t' ≡ record (evict t i s evict_capacity) {
        slots = set (evict t i s evict_capacity).slots i (fresh_slot f);
      })

  -- A record that comes to a full table, its origin below its share: either it goes before every held
  -- record in the eviction order (live, priority, rank), and is refused, the table left as it was;
  -- or it takes the slot of a held record that is lowest in that order, which is counted as evicted.
  pub admit_full :
      (cfg : Config) (t : Facts F) (f : Fact F)
      → 0 < length t.slots
      → IsFull t.slots
      → HasShare cfg t f
      → Replaces t f (admit cfg t f)
  unfolding admit room_in_table
  admit_full cfg t f some_slot full share =
      rw (room_at_origin-share cfg t f share, admit, free_slot-none t.slots full, room_in_table)
        (choose _ (least-Selected is_used evict_cmp evict_fields evict_cmp-lex t.slots))
    where
      choose :
          (r : Option (ℕ × FactSlot F))
          → Selected is_used evict_cmp evict_fields evict_cmp-lex t.slots r
          → let room : Option (ℕ × Facts F) = elim r [
            | none ↦ none
            | some (i, lowest) ↦
                if is_below (evict_cmp f lowest.fact)
                then none
                else some (i, evict t i lowest evict_capacity)
          ] in
            let out : Facts F × Bool = elim room [
              | none ↦ (t, false)
              | some (i, t2) ↦ (record t2 { slots = set t2.slots i (fresh_slot f) }, true)
            ] in
            Replaces t f out
      choose none h = absurd (not_empty t.slots some_slot full h)
      choose (some (i, s)) (g, u, a) = elim (Bool-cases (is_below (evict_cmp f s.fact))) [
        | inl e ↦ rw e (refl, All-before f s t.slots full (sym (evict_cmp-lex f s.fact) ∙ e) a)
        | inr e ↦
            rw e (i, s, g, none_before s t.slots full a, sym (evict_cmp-lex f s.fact) ∙ e, refl)
      ]
