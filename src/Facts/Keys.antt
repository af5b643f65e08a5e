-- ===== src/Facts/Keys.antt =====
-- facts.c, find_slot(): what it finds, and tables in which no two used slots share a key.
use mathlib.Core.Option
use tapestry.Prelude.{
  ℕ, zero, suc, ◌≡◌, refl, ◌↔◌, inl, inr, true, false, List, [], ◌∷◌, Option, none, some, arith,
  get_elem?, set, All, All-set, All-get, Bool-cases,
}
use tapestry.Facts.Types.{FactKey, FactSlot, fact_key_equal}
use tapestry.Facts.Table.{holds_key, find_slot}

pub fact_key_equal_iff : (a b : FactKey) → (fact_key_equal a b ≡ true) ↔ (a ≡ b)
fact_key_equal_iff a b = (λ h. ground arith, λ e. ground arith)

pub fact_key_equal_refl : (a : FactKey) → fact_key_equal a a ≡ true
fact_key_equal_refl a = ground arith

pub fact_key_equal_comm : (a b : FactKey) → fact_key_equal a b ≡ fact_key_equal b a
fact_key_equal_comm a b = ground arith

module _ {F : Type 0} where
  -- No used slot has the key.
  abbrev pub Absent : FactKey → List (FactSlot F) → Type 0
  Absent key = All (λ s. holds_key key s ≡ false)

  -- What find_slot() finds: a used slot with the key; nothing only if no used slot has it.
  abbrev pub Found : FactKey → List (FactSlot F) → Option (ℕ × FactSlot F) → Type 0
  Found key xs none = Absent key xs
  Found key xs (some (i, s)) = (get_elem? xs i ≡ some s) × (holds_key key s ≡ true)

  Found-cons :
      (key : FactKey) (s : FactSlot F) (xs : List (FactSlot F)) (r : Option (ℕ × FactSlot F))
      → holds_key key s ≡ false
      → Found key xs r
      → Found key (s ∷ xs) (Option.map (λ (p : ℕ × FactSlot F). (suc p.0, p.1)) r)
  Found-cons key s xs none e f = (e, f)
  Found-cons key s xs (some (i, b)) e f = f

  pub find_slot-Found : (xs : List (FactSlot F)) (key : FactKey) → Found key xs (find_slot xs key)
  unfolding find_slot
  find_slot-Found [] key = tt
  find_slot-Found (s ∷ xs) key = elim (Bool-cases (holds_key key s)) [
    | inl e ↦ rw e (refl, e)
    | inr e ↦ rw e (Found-cons key s xs _ e (find_slot-Found xs key))
  ]

  -- In a table where no two used slots share a key, find_slot() finds the slot that has it.
  abbrev pub Distinct : List (FactSlot F) → Type 0
  Distinct [] = Unit
  Distinct (s ∷ xs) = (s.used ≡ true → Absent s.fact.key xs) × Distinct xs

  pub holds_key_same :
      (key : FactKey) (s v : FactSlot F)
      → s.used ≡ true
      → v.fact.key ≡ s.fact.key
      → holds_key key s ≡ false
      → holds_key key v ≡ false
  holds_key_same key s v u e h = ground arith

  pub Distinct-set_unused :
      (xs : List (FactSlot F)) (i : ℕ) (v : FactSlot F)
      → v.used ≡ false
      → Distinct xs
      → Distinct (set xs i v)
  Distinct-set_unused [] i v u d = tt
  Distinct-set_unused (s ∷ xs) zero v u d = (λ h. cc, d.1)
  Distinct-set_unused (s ∷ xs) (suc i) v u d =
      (λ h. All-set _ xs i v (d.0 h) (rw u refl), Distinct-set_unused xs i v u d.1)

  -- A slot that no used slot shares its key with may be written anywhere.
  pub Distinct-set-Absent :
      (xs : List (FactSlot F)) (i : ℕ) (v : FactSlot F)
      → Absent v.fact.key xs
      → Distinct xs
      → Distinct (set xs i v)
  Distinct-set-Absent [] i v a d = tt
  Distinct-set-Absent (s ∷ xs) zero v a d = (λ h. a.1, d.1)
  Distinct-set-Absent (s ∷ xs) (suc i) v a d =
      (λ h. All-set _ xs i v (d.0 h) (ground (arith, a.0)), Distinct-set-Absent xs i v a.1 d.1)

  -- A used slot may be rewritten under its own key.
  pub Distinct-set_same :
      (xs : List (FactSlot F)) (i : ℕ) (s v : FactSlot F)
      → get_elem? xs i ≡ some s
      → s.used ≡ true
      → v.fact.key ≡ s.fact.key
      → Distinct xs
      → Distinct (set xs i v)
  Distinct-set_same [] i s v g u e d = tt
  Distinct-set_same (x ∷ xs) zero s v g u e d =
      let p : x ≡ s = cc in (λ h. rw (e, ← p) (d.0 (rw p u)), d.1)
  Distinct-set_same (x ∷ xs) (suc i) s v g u e d = (
    λ h. All-set _ xs i v (d.0 h) (holds_key_same x.fact.key s v u e (All-get _ xs i s (d.0 h) g)),
    Distinct-set_same xs i s v g u e d.1,
  )

  -- The slot that find_slot() finds for a used slot's key is that slot.
  pub find_slot_at :
      (xs : List (FactSlot F)) (i : ℕ) (s : FactSlot F)
      → get_elem? xs i ≡ some s
      → s.used ≡ true
      → Distinct xs
      → find_slot xs s.fact.key ≡ some (i, s)
  unfolding find_slot
  find_slot_at [] i s g u d = cc
  find_slot_at (x ∷ xs) zero s g u d =
      let p : x ≡ s = cc in
      let e : holds_key s.fact.key x ≡ true = ground (arith, fact_key_equal_refl s.fact.key) in
      rw (e, p)
  find_slot_at (x ∷ xs) (suc i) s g u d = elim (Bool-cases (holds_key s.fact.key x)) [
    | inl e ↦
        let xu : x.used ≡ true = ground arith in
        let a : holds_key x.fact.key s ≡ false = All-get _ xs i s (d.0 xu) g in
        absurd (ground (arith, fact_key_equal_comm x.fact.key s.fact.key))
    | inr e ↦ rw (e, find_slot_at xs i s g u d.1)
  ]
