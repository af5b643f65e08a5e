-- ===== src/Facts/Room.antt =====
-- facts.c, admit(): how room is made at the origin and in the table.
use mathlib.Core.Option
use tapestry.Prelude.{
  ℕ, suc, ◌+◌, ◌<◌, ◌≡◌, refl, ◌⊎◌, inl, inr, Bool, true, false, List, [], ◌∷◌, Option, none, some,
  arith, leb, if◌then◌else◌, get_elem?, set, count, count-set, All, All-set, All-get, lt-length,
  get_elem?-set_self, Bool-cases,
}
use tapestry.Facts.Types.{Config, Fact, FactSlot, Facts, FactKey, evict_per_origin, evict_capacity}
use tapestry.Facts.Order.{is_below, is_live, evict_cmp, evict_fields, evict_cmp-lex}
use tapestry.Facts.Table.{
  same_origin, is_used, least, free_slot, evict, room_at_origin, room_in_table,
}
use tapestry.Facts.Least.{Selected, least-Selected}
use tapestry.Facts.Keys.{Absent}
use tapestry.Facts.Invariant.{IsTable, unused, unused-IsTable}

module _ {F : Type 0} where
  -- What a search for a free slot finds.
  abbrev pub Free : List (FactSlot F) → Option ℕ → Type 0
  Free xs none = All (λ s. s.used ≡ true) xs
  Free xs (some i) = (s : FactSlot F) × (get_elem? xs i ≡ some s) × (s.used ≡ false)

  Free-cons :
      (s : FactSlot F) (xs : List (FactSlot F)) (r : Option ℕ)
      → s.used ≡ true
      → Free xs r
      → Free (s ∷ xs) (Option.map suc r)
  Free-cons s xs none u f = (u, f)
  Free-cons s xs (some i) u f = f

  pub free_slot-Free : (xs : List (FactSlot F)) → Free xs (free_slot xs)
  unfolding free_slot
  free_slot-Free [] = tt
  free_slot-Free (s ∷ xs) = elim (Bool-cases s.used) [
    | inl u ↦ simp u (Free-cons s xs (free_slot xs) u (free_slot-Free xs))
    | inr u ↦ simp u (s, refl, u)
  ]

  -- The slot that an eviction leaves, and that the rest of the table state is what it was.
  pub slots-evict :
      (t : Facts F) (i : ℕ) (s : FactSlot F) (reason : ℕ)
      → (evict t i s reason).slots ≡ set t.slots i (unused s)
  unfolding evict
  slots-evict t i s reason = refl

  pub clock-evict :
      (t : Facts F) (i : ℕ) (s : FactSlot F) (reason : ℕ) → (evict t i s reason).clock ≡ t.clock
  unfolding evict
  clock-evict t i s reason = refl

  Absent-unused :
      (key : FactKey) (xs : List (FactSlot F)) (i : ℕ) (s : FactSlot F)
      → Absent key xs
      → Absent key (set xs i (unused s))
  Absent-unused key xs i s a = All-set _ xs i (unused s) a refl

  abbrev pub HasUnused : List (FactSlot F) → Type 0
  HasUnused xs = (i : ℕ) × (s : FactSlot F) × (get_elem? xs i ≡ some s) × (s.used ≡ false)

  -- A table in which the origin of `f` has room, reached from `t` by clearing slots.
  abbrev pub HasRoom : Config → ℕ → Facts F → Fact F → Facts F → Type 0
  HasRoom cfg c t f t1 =
      IsTable cfg c t1.slots
      × (t1.clock ≡ t.clock)
      × Absent f.key t1.slots
      × (is_live f ≡ true → count (same_origin f) t1.slots < cfg.max_per_origin)

  abbrev pub RoomAtOrigin : Config → ℕ → Facts F → Fact F → Option (Facts F) → Type 0
  RoomAtOrigin cfg c t f none = Unit {0}
  RoomAtOrigin cfg c t f (some t1) = HasRoom cfg c t f t1 × ((t1 ≡ t) ⊎ HasUnused t1.slots)

  evicted-HasRoom :
      (cfg : Config) (c : ℕ) (t : Facts F) (f : Fact F) (i : ℕ) (s : FactSlot F) (reason : ℕ)
      → get_elem? t.slots i ≡ some s
      → same_origin f s ≡ true
      → IsTable cfg c t.slots
      → Absent f.key t.slots
      → HasRoom cfg c t f (evict t i s reason)
  evicted-HasRoom cfg c t f i s reason g k ok a =
      rw (slots-evict, clock-evict)
        (
          unused-IsTable t.slots i s g ok,
          refl,
          Absent-unused f.key t.slots i s a,
          λ l. omega (arith, fewer, ok.limited f),
        )
    where
      fewer : count (same_origin f) (set t.slots i (unused s)) + 1 ≡ count (same_origin f) t.slots
      fewer = ground (arith, count-set (same_origin f) t.slots i s (unused s) g)

  evicted_slot :
      (t : Facts F) (i : ℕ) (s : FactSlot F) (reason : ℕ)
      → get_elem? t.slots i ≡ some s
      → get_elem? (evict t i s reason).slots i ≡ some (unused s)
  evicted_slot t i s reason g =
      rw slots-evict (get_elem?-set_self t.slots i (unused s) (lt-length t.slots i s g))

  none_kept :
      (p : FactSlot F → Bool) (xs : List (FactSlot F)) → All (λ s. p s ≡ false) xs → count p xs ≡ 0
  unfolding count
  none_kept p [] h = refl
  none_kept p (s ∷ xs) h = ground (arith, none_kept p xs h.1)

  pub room_at_origin_lem :
      (cfg : Config) (c : ℕ) (t : Facts F) (f : Fact F)
      → 0 < cfg.max_per_origin
      → IsTable cfg c t.slots
      → Absent f.key t.slots
      → RoomAtOrigin cfg c t f (room_at_origin cfg t f)
  unfolding room_at_origin
  room_at_origin_lem cfg c t f pos ok a = elim (Bool-cases (is_live f)) [
    | inr d ↦ rw d ((ok, refl, a, λ l. cc), inl refl)
    | inl l ↦ rw l (elim (Bool-cases (leb cfg.max_per_origin (count (same_origin f) t.slots))) [
      | inr few ↦ rw few ((ok, refl, a, λ l. ground arith), inl refl)
      | inl many ↦
          rw many
            (choose _ (least-Selected (same_origin f) evict_cmp evict_fields evict_cmp-lex t.slots))
    ])
  ]
    where
      choose :
          (r : Option (ℕ × FactSlot F))
          → Selected (same_origin f) evict_cmp evict_fields evict_cmp-lex t.slots r
          → RoomAtOrigin cfg c t f (elim r [
            | none ↦ some t
            | some (i, oldest) ↦
                if is_below (evict_cmp f oldest.fact)
                then none
                else some (evict t i oldest evict_per_origin)
          ])
      choose none h =
          ((ok, refl, a, λ l. omega (arith, none_kept (same_origin f) t.slots h)), inl refl)
      choose (some (i, s)) h = elim (Bool-cases (is_below (evict_cmp f s.fact))) [
        | inl e ↦ rw e tt
        | inr e ↦ rw e (
          evicted-HasRoom cfg c t f i s evict_per_origin h.0 h.1 ok a,
          inr (i, unused s, evicted_slot t i s evict_per_origin h.0, refl),
        )
      ]

  -- A slot that is ready for `f`, in a table reached from `t` by clearing slots.
  abbrev pub IsReady : Config → ℕ → Facts F → Fact F → ℕ × Facts F → Type 0
  IsReady cfg c t f (i, t2) =
      HasRoom cfg c t f t2 × ((s : FactSlot F) × (get_elem? t2.slots i ≡ some s) × (s.used ≡ false))

  abbrev pub RoomInTable :
      List (FactSlot F) → Config → ℕ → Facts F → Fact F → Option (ℕ × Facts F) → Type 0
  RoomInTable xs cfg c t f none = HasUnused xs → ⊥
  RoomInTable xs cfg c t f (some r) = IsReady cfg c t f r

  cleared-IsReady :
      (cfg : Config) (c : ℕ) (t t1 : Facts F) (f : Fact F) (i : ℕ) (s : FactSlot F) (reason : ℕ)
      → get_elem? t1.slots i ≡ some s
      → s.used ≡ true
      → HasRoom cfg c t f t1
      → IsReady cfg c t f (i, evict t1 i s reason)
  cleared-IsReady cfg c t t1 f i s reason g u (ok, cl, a, room) =
      rw (slots-evict, clock-evict)
        (
          (
            unused-IsTable t1.slots i s g ok,
            cl,
            Absent-unused f.key t1.slots i s a,
            λ l. omega (arith, room l, count-set (same_origin f) t1.slots i s (unused s) g),
          ),
          (unused s, get_elem?-set_self t1.slots i (unused s) (lt-length t1.slots i s g), refl),
        )

  pub room_in_table_lem :
      (cfg : Config) (c : ℕ) (t t1 : Facts F) (f : Fact F)
      → HasRoom cfg c t f t1
      → RoomInTable t1.slots cfg c t f (room_in_table t1 f)
  unfolding room_in_table
  room_in_table_lem cfg c t t1 f h = seek (free_slot t1.slots) (free_slot-Free t1.slots)
    where
      none_unused : All (λ s. s.used ≡ true) t1.slots → HasUnused t1.slots → ⊥
      none_unused full (i, s, g, u) =
          let w : s.used ≡ true = All-get (λ (x : FactSlot F). x.used ≡ true) t1.slots i s full g in
          ground arith

      choose :
          (r : Option (ℕ × FactSlot F))
          → All (λ s. s.used ≡ true) t1.slots
          → Selected is_used evict_cmp evict_fields evict_cmp-lex t1.slots r
          → RoomInTable t1.slots cfg c t f (elim r [
            | none ↦ none
            | some (i, lowest) ↦
                if is_below (evict_cmp f lowest.fact)
                then none
                else some (i, evict t1 i lowest evict_capacity)
          ])
      choose none full s = none_unused full
      choose (some (i, s)) full p = elim (Bool-cases (is_below (evict_cmp f s.fact))) [
        | inl e ↦ rw e (none_unused full)
        | inr e ↦ rw e (cleared-IsReady cfg c t t1 f i s evict_capacity p.0 p.1 h)
      ]

      seek :
          (r : Option ℕ)
          → Free t1.slots r
          → RoomInTable t1.slots cfg c t f (elim r [
            | some i ↦ some (i, t1)
            | none ↦ elim (least is_used evict_cmp t1.slots 0 none) [
              | none ↦ none
              | some (i, lowest) ↦
                  if is_below (evict_cmp f lowest.fact)
                  then none
                  else some (i, evict t1 i lowest evict_capacity)
            ]
          ])
      seek (some i) (s, g, u) = (h, (s, g, u))
      seek none all_used =
          choose _ all_used (least-Selected is_used evict_cmp evict_fields evict_cmp-lex t1.slots)
