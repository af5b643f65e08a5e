-- ===== src/Facts/Admission.antt =====
-- facts.c, admit(): what it leaves, and that the invariant is kept.
use tapestry.Prelude.{
  ℕ, ◌<◌, ◌≡◌, refl, ◌⊎◌, inl, inr, Bool, true, false, Option, none, some, get_elem?, set,
  lt-length, get_elem?-set_self,
}
use tapestry.Facts.Types.{Config, Fact, Facts}
use tapestry.Facts.Table.{room_at_origin, room_in_table, admit, fresh_slot}
use tapestry.Facts.Keys.{Absent}
use tapestry.Facts.Invariant.{IsTable, IsValid, fill-IsTable}
use tapestry.Facts.Room.{
  HasRoom, RoomAtOrigin, HasUnused, RoomInTable, IsReady, room_at_origin_lem, room_in_table_lem,
}

module _ {F : Type 0} where
  -- What admit() leaves: the invariant and the clock; where it refuses, the table as it was; where it
  -- admits, the record in a slot.
  abbrev pub Admits : Config → ℕ → Facts F → Fact F → Facts F × Bool → Type 0
  Admits cfg c t f (t', admitted) =
      IsTable cfg c t'.slots
      × (t'.clock ≡ t.clock)
      × (admitted ≡ false → t' ≡ t)
      × (admitted ≡ true → (i : ℕ) × (get_elem? t'.slots i ≡ some (fresh_slot f)))

  store-Admits :
      (cfg : Config) (c : ℕ) (t t2 : Facts F) (f : Fact F) (i : ℕ)
      → IsValid c f
      → IsReady cfg c t f (i, t2)
      → Admits cfg c t f (record t2 { slots = set t2.slots i (fresh_slot f) }, true)
  store-Admits cfg c t t2 f i v ((ok, cl, a, room), (s, g, u)) = (
    fill-IsTable t2.slots i s (fresh_slot f) g u a v room ok,
    cl,
    λ e. cc,
    λ _. (i, get_elem?-set_self t2.slots i (fresh_slot f) (lt-length t2.slots i s g)),
  )

  pub admit-Admits :
      (cfg : Config) (c : ℕ) (t : Facts F) (f : Fact F)
      → 0 < cfg.max_per_origin
      → IsTable cfg c t.slots
      → Absent f.key t.slots
      → IsValid c f
      → Admits cfg c t f (admit cfg t f)
  unfolding admit
  admit-Admits cfg c t f pos ok a v =
      first (room_at_origin cfg t f) (room_at_origin_lem cfg c t f pos ok a)
    where
      second :
          (t1 : Facts F) (r : Option (ℕ × Facts F))
          → HasRoom cfg c t f t1 × ((t1 ≡ t) ⊎ HasUnused t1.slots)
          → RoomInTable t1.slots cfg c t f r
          → Admits cfg c t f (elim r [
            | none ↦ (t1, false)
            | some (i, t2) ↦ (record t2 { slots = set t2.slots i (fresh_slot f) }, true)
          ])
      second t1 none (h, inl e) p = (h.0, h.1, λ _. e, λ e. cc)
      second t1 none (h, inr n) p = absurd (p n)
      second t1 (some (i, t2)) h p = store-Admits cfg c t t2 f i v p

      first :
          (r : Option (Facts F))
          → RoomAtOrigin cfg c t f r
          → Admits cfg c t f (elim r [
            | none ↦ (t, false)
            | some t1 ↦ elim (room_in_table t1 f) [
              | none ↦ (t1, false)
              | some (i, t2) ↦ (record t2 { slots = set t2.slots i (fresh_slot f) }, true)
            ]
          ])
      first none p = (ok, refl, λ _. refl, λ e. cc)
      first (some t1) p = second t1 (room_in_table t1 f) p (room_in_table_lem cfg c t t1 f p.0)
