-- ===== src/Facts/Least.antt =====
-- The selection loops of facts.c: what `least` selects.
use mathlib.Core.Path.{subst}
use tapestry.Prelude.{
  sym, ap, ◌∙◌, ℕ, suc, ◌+◌, ◌≡◌, refl, ◌⊎◌, inl, inr, Bool, true, false, ◌&&◌, List, [], ◌∷◌,
  Option, none, some, arith, if◌then◌else◌, get_elem?, All, Bool-cases,
}
use tapestry.Prelude.Lex.{lex_lt, lex_lt_irrefl, lex_lt_asymm, lex_le_trans}
use tapestry.Facts.Types.{Fact, FactSlot}
use tapestry.Facts.Order.{Sign, is_below}
use tapestry.Facts.Table.{least, improves}

-- The two orders are lexicographic: `fields` lists what `cmp` compares.
module _ {F : Type 0} (keep : FactSlot F → Bool) (cmp : Fact F → Fact F → Sign)
    (fields : Fact F → List ℕ)
    (cmp_lex : (a b : Fact F) → is_below (cmp a b) ≡ lex_lt (fields a) (fields b)) where
  -- No slot that passes comes before the selected one.
  abbrev NotBefore : FactSlot F → FactSlot F → Type 0
  NotBefore b s = keep s ≡ true → lex_lt (fields s.fact) (fields b.fact) ≡ false

  -- A slot is selected from the list, or is the one that the loop began with.
  abbrev Source : List (FactSlot F) → ℕ → Option (ℕ × FactSlot F) → ℕ × FactSlot F → Type 0
  Source xs i best r =
      (best ≡ some r) ⊎ ((m : ℕ) × (r.0 ≡ i + m) × (get_elem? xs m ≡ some r.1) × (keep r.1 ≡ true))

  Source-cons :
      (s : FactSlot F) (xs : List (FactSlot F)) (i : ℕ) (best best' : Option (ℕ × FactSlot F))
      (r : ℕ × FactSlot F)
      → (best' ≡ best) ⊎ ((best' ≡ some (i, s)) × (keep s ≡ true))
      → Source xs (i + 1) best' r
      → Source (s ∷ xs) i best r
  Source-cons s xs i best best' r (inl e) (inl h) = inl (sym e ∙ h)
  Source-cons s xs i best best' r (inr (e, k)) (inl h) =
      let p : (i, s) ≡ r = cc in
      inr
        (0, ground arith, ap (λ (q : ℕ × FactSlot F). some q.1) p, subst (λ q. keep q.1 ≡ true) p k)
  Source-cons s xs i best best' r c (inr (m, e, g, k)) = inr (suc m, omega arith, g, k)

  step : (s : FactSlot F) (i : ℕ) (best : Option (ℕ × FactSlot F)) → Option (ℕ × FactSlot F)
  step s i best = if keep s && improves cmp s best then some (i, s) else best

  step-cases :
      (s : FactSlot F) (i : ℕ) (best : Option (ℕ × FactSlot F))
      → (step s i best ≡ best) ⊎ ((step s i best ≡ some (i, s)) × (keep s ≡ true))
  unfolding step
  step-cases s i best = elim (Bool-cases (keep s && improves cmp s best)) [
    | inl e ↦ inr (rw e refl, ground arith)
    | inr e ↦ inl (rw e refl)
  ]

  least-Source :
      (xs : List (FactSlot F)) (i : ℕ) (best : Option (ℕ × FactSlot F)) (r : ℕ × FactSlot F)
      → least keep cmp xs i best ≡ some r
      → Source xs i best r
  unfolding least step
  least-Source [] i best r h = inl h
  least-Source (s ∷ xs) i best r h =
      Source-cons s xs i best _ r (step-cases s i best) (least-Source xs (i + 1) _ r h)

  abbrev BestLe : Option (ℕ × FactSlot F) → FactSlot F → Type 0
  BestLe none b = Unit
  BestLe (some (j, c)) b = lex_lt (fields c.fact) (fields b.fact) ≡ false

  BestLe-step :
      (s : FactSlot F) (i : ℕ) (best : Option (ℕ × FactSlot F)) (b : FactSlot F)
      → BestLe (step s i best) b
      → BestLe best b × NotBefore b s
  unfolding step
  BestLe-step s i none b h = (tt, ground arith)
  BestLe-step s i (some (j, c)) b h = ground (
    arith,
    cmp_lex s.fact c.fact,
    lex_le_trans (fields s.fact) (fields c.fact) (fields b.fact),
    lex_lt_asymm (fields s.fact) (fields c.fact),
    lex_le_trans (fields c.fact) (fields s.fact) (fields b.fact),
  )

  least-NotBefore :
      (xs : List (FactSlot F)) (i : ℕ) (best : Option (ℕ × FactSlot F)) (r : ℕ × FactSlot F)
      → least keep cmp xs i best ≡ some r
      → BestLe best r.1 × All (NotBefore r.1) xs
  unfolding least step
  least-NotBefore [] i none r h = cc
  least-NotBefore [] i (some (j, c)) r h =
      let p : (j, c) ≡ r = cc in
      (
        subst (λ q. lex_lt (fields c.fact) (fields q.1.fact) ≡ false) p
            (lex_lt_irrefl (fields c.fact)),
        tt,
      )
  least-NotBefore (s ∷ xs) i best r h =
      let (hd, tl) = least-NotBefore xs (i + 1) (step s i best) r h in
      let (a, b) = BestLe-step s i best r.1 hd in (a, (b, tl))

  least-none :
      (xs : List (FactSlot F)) (i : ℕ) (best : Option (ℕ × FactSlot F))
      → least keep cmp xs i best ≡ none
      → (best ≡ none) × All (λ s. keep s ≡ false) xs
  unfolding least step
  least-none [] i best h = (h, tt)
  least-none (s ∷ xs) i none h =
      let (a, b) = least-none xs (i + 1) (step s i none) h in (refl, (ground arith, b))
  least-none (s ∷ xs) i (some c) h =
      let (a, b) = least-none xs (i + 1) (step s i (some c)) h in ground arith

  -- What the loop selects: a slot of the table that passes, before which no slot that passes comes;
  -- nothing if no slot passes.
  abbrev pub Selected : List (FactSlot F) → Option (ℕ × FactSlot F) → Type 0
  Selected xs none = All (λ s. keep s ≡ false) xs
  Selected xs (some (i, b)) =
      (get_elem? xs i ≡ some b)
      × (keep b ≡ true)
      × All (λ s. keep s ≡ true → lex_lt (fields s.fact) (fields b.fact) ≡ false) xs

  Selected-of :
      (xs : List (FactSlot F)) (r : Option (ℕ × FactSlot F))
      → least keep cmp xs 0 none ≡ r
      → Selected xs r
  Selected-of xs none h = (least-none xs 0 none h).1
  Selected-of xs (some r) h = elim (least-Source xs 0 none r h) [
    | inl e ↦ absurd (cc)
    | inr (m, e, g, k) ↦
        let p : m ≡ r.0 = omega arith in (rw p at g, k, (least-NotBefore xs 0 none r h).1)
  ]

  pub least-Selected : (xs : List (FactSlot F)) → Selected xs (least keep cmp xs 0 none)
  least-Selected xs = Selected-of xs _ refl
