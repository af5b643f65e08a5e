-- ===== src/Facts/Digest.antt =====
-- facts.c, wm_fact_digest(): it depends on the held records alone, not on their slots.
use mathlib.Core.Logic.{∥∥₁_elim}
use mathlib.Core.List.{Perm, Permᴰ}
use native.Mathlib.Nat.{ℕ_set}
use tapestry.Prelude.{
  ℕ, ◌+◌, ◌%◌, ◌^◌, ◌<◌, ◌≡◌, refl, sym, ◌∙◌, ap, List, [], ◌∷◌, arith, if◌then◌else◌, Bool-cases,
  inl, inr,
}
use tapestry.Facts.Types.{Fact, FactSlot, Facts}
use tapestry.Facts.Query.{record_hash, digest_from, digest}

module _ {F : Type 0} where
  -- The records that a table holds, in slot order.
  unfoldable pub held : List (FactSlot F) → List (Fact F)
  held [] = []
  held (s ∷ xs) = if s.used then s.fact ∷ held xs else held xs

  hash_sum : List (Fact F) → ℕ
  hash_sum [] = 0
  hash_sum (f ∷ fs) = record_hash f + hash_sum fs

  digest_from-hash_sum :
      (d : ℕ) (xs : List (FactSlot F))
      → d < 2 ^ 16
      → digest_from d xs ≡ (d + hash_sum (held xs)) % 2 ^ 16
  unfolding digest_from hash_sum held
  digest_from-hash_sum d [] h = omega arith
  digest_from-hash_sum d (s ∷ xs) h = elim (Bool-cases s.used) [
    | inl u ↦
        simp u
          (omega (arith, digest_from-hash_sum ((d + record_hash s.fact) % 2 ^ 16) xs (omega arith)))
    | inr u ↦ simp u (digest_from-hash_sum d xs h)
  ]

  hash_sum-permᴰ : {xs ys : List (Fact F)} → Permᴰ xs ys → hash_sum xs ≡ hash_sum ys
  unfolding hash_sum
  hash_sum-permᴰ Permᴰ.nil = refl
  hash_sum-permᴰ (Permᴰ.cons e p) = omega (arith, ap record_hash e, hash_sum-permᴰ p)
  hash_sum-permᴰ (Permᴰ.swap e e') = omega (arith, ap record_hash e, ap record_hash e')
  hash_sum-permᴰ (Permᴰ.trans p q) = hash_sum-permᴰ p ∙ hash_sum-permᴰ q

  -- Two tables that hold the same records, in whatever slots, have the same digest.
  pub digest_perm : (t u : Facts F) → Perm (held t.slots) (held u.slots) → digest t ≡ digest u
  unfolding digest
  digest_perm t u p =
      digest_from-hash_sum 0 t.slots (omega arith)
      ∙ ap (λ n. (0 + n) % 2 ^ 16) (∥∥₁_elim p (ℕ_set _ _) hash_sum-permᴰ)
      ∙ sym (digest_from-hash_sum 0 u.slots (omega arith))
