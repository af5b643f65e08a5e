-- ===== src/Gossip/Gate.antt =====
-- A gate that lets an item pass only if its stamp is new for its source: the duplicate suppression of
-- the relay and the replay defence of directives.
use tapestry.Prelude.{
  ℕ, ◌≤◌, ◌<◌, ◌≡◌, ap, inl, inr, Bool, true, List, [], ◌∷◌, arith, if◌then◌else◌, Bool-cases, All,
}

-- `mark s k` is the least stamp that `s` may still let pass for the source `k`.
pub record Gate (S A : Type 0) : Type 1 where
  pub step : S → A → S
  pub passes : S → A → Bool
  pub source : A → ℕ
  pub stamp : A → ℕ
  pub mark : S → ℕ → ℕ
  pub IsSized : S → Type 0
  pub step_sized : (s : S) (a : A) → IsSized s → IsSized (step s a)
  pub passes_new : (s : S) (a : A) → passes s a ≡ true → mark s (source a) ≤ stamp a
  pub mark_grows : (s : S) (a : A) (k : ℕ) → IsSized s → mark s k ≤ mark (step s a) k
  pub mark_passed :
      (s : S) (a : A) → IsSized s → passes s a ≡ true → stamp a < mark (step s a) (source a)

module _ {S A : Type 0} (gate : Gate S A) where
  -- What passes of a sequence of items, in its order.
  unfoldable pub passed : S → List A → List A
  passed s [] = []
  passed s (x ∷ xs) =
      let rest = passed (gate.step s x) xs in if gate.passes s x then x ∷ rest else rest

  -- Of two items from one source the later one has the greater stamp.
  abbrev pub StampsGrow : List A → Type 0
  StampsGrow [] = Unit
  StampsGrow (x ∷ xs) =
      All (λ y. gate.source y ≡ gate.source x → gate.stamp x < gate.stamp y) xs × StampsGrow xs

  abbrev pub Above : S → A → Type 0
  Above s y = gate.mark s (gate.source y) ≤ gate.stamp y

  All-map : (P Q : A → Type 0) → ((a : A) → P a → Q a) → (xs : List A) → All P xs → All Q xs
  All-map P Q h [] a = tt
  All-map P Q h (x ∷ xs) a = (h x a.0, All-map P Q h xs a.1)

  passed-Above : (s : S) (xs : List A) → gate.IsSized s → All (Above s) (passed s xs)
  unfolding passed
  passed-Above s [] sized = tt
  passed-Above s (x ∷ xs) sized =
      let tail : All (Above s) (passed (gate.step s x) xs) =
        All-map (Above (gate.step s x)) (Above s)
          (λ y h. omega (arith, gate.mark_grows s x (gate.source y) sized, h))
          (passed (gate.step s x) xs)
          (passed-Above (gate.step s x) xs (gate.step_sized s x sized)) in
      elim (Bool-cases (gate.passes s x)) [
        | inl e ↦ rw e (gate.passes_new s x e, tail)
        | inr e ↦ rw e tail
      ]

  -- Whatever the items and their order, the stamps of those that pass grow strictly for each source.
  pub passed-StampsGrow : (s : S) (xs : List A) → gate.IsSized s → StampsGrow (passed s xs)
  unfolding passed
  passed-StampsGrow s [] sized = tt
  passed-StampsGrow s (x ∷ xs) sized = elim (Bool-cases (gate.passes s x)) [
    | inl e ↦
        let s' = gate.step s x in
        rw e (
          All-map (Above s') (λ y. gate.source y ≡ gate.source x → gate.stamp x < gate.stamp y)
              (λ y h q. omega (arith, gate.mark_passed s x sized e, h, ap (gate.mark s') q))
              (passed s' xs) (passed-Above s' xs (gate.step_sized s x sized)),
          passed-StampsGrow s' xs (gate.step_sized s x sized),
        )
    | inr e ↦ rw e (passed-StampsGrow (gate.step s x) xs (gate.step_sized s x sized))
  ]
