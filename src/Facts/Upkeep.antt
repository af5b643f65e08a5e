-- ===== src/Facts/Upkeep.antt =====
-- facts.c: the operations that leave the table alone, and those that only restart the timer.
use mathlib.Core.Path.{subst}
use tapestry.Prelude.{ℕ, ◌+◌, ◌≡◌, refl, sym, inl, inr, true, arith, ltb, ◌==◌, Bool-cases, u32}
use tapestry.Prelude.Floats.{FloatOps}
use tapestry.Facts.Types.{Config, Facts}
use tapestry.Facts.Query.{pack, digest, heard_digest}
use tapestry.Facts.Trickle.{start_interval, ensure_started, fire, next_interval, trickle_tick}
use tapestry.Facts.Invariant.{IsTable}
use tapestry.Facts.Preservation.{WellFormed, trickle_reset-WellFormed}

module _ {F : Type 0} where
  -- The table of t' is that of t.
  abbrev pub SameTable : Facts F → Facts F → Type 0
  SameTable t t' = (t'.slots ≡ t.slots) × (t'.clock ≡ t.clock)

  pub SameTable-WellFormed :
      (cfg : Config) (t t' : Facts F) → SameTable t t' → WellFormed cfg t → WellFormed cfg t'
  SameTable-WellFormed cfg t t' (e, c) ok =
      subst (λ k. IsTable {F = F} cfg k t'.slots) (sym c)
        (subst (λ s. IsTable {F = F} cfg t.clock s) (sym e) ok)

  pub trickle_tick-SameTable :
      (cfg : Config) (t : Facts F) (dt rnd : ℕ) → SameTable t (trickle_tick cfg t dt rnd).0
  unfolding trickle_tick fire ensure_started next_interval start_interval
  trickle_tick-SameTable cfg t dt rnd = ground arith

  pub pack-SameTable : (t : Facts F) → SameTable t (pack t).0
  unfolding pack
  pack-SameTable t = (refl, refl)

module _ {F : Type 0} ⦃fl : FloatOps F⦄ where
  pub heard_digest-WellFormed :
      (cfg : Config) (t : Facts F) (d : ℕ)
      → WellFormed cfg t
      → WellFormed cfg (heard_digest cfg t d)
  unfolding heard_digest
  heard_digest-WellFormed cfg t d ok =
      let t1 = record t { synced = true; frames_heard = u32 (t.frames_heard + 1) } in
      elim (Bool-cases (d == digest t1)) [
        | inl e ↦
            rw (heard_digest, e)
              (elim (Bool-cases (ltb t.trickle_c 255)) [ inl c ↦ rw c ok | inr c ↦ rw c ok ])
        | inr e ↦ rw (heard_digest, e) (trickle_reset-WellFormed cfg t1 ok)
      ]
