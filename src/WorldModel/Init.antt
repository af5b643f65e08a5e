-- ===== src/WorldModel/Init.antt =====
-- wm_init() establishes the invariant.
use tapestry.Prelude.{
  ℕ, zero, suc, ◌+◌, ◌≤◌, ◌<◌, ◌≡◌, refl, sym, ◌⊎◌, inl, inr, true, false, arith, leb, Bool-cases,
  count, set, length-set, replicate,
}
use tapestry.Prelude.Floats.{FloatOps}
use tapestry.Facts.Types.{Config, max_elements}
use tapestry.WorldModel.Types.{ElementState, Entry, id_invalid}
use tapestry.WorldModel.Ops.{self_entry}
use tapestry.WorldModel.Cycle.{wm_init, blank_entry}
use tapestry.WorldModel.Invariant.{is_known, IsPlaced, PlacedFrom, IsModel}
use tapestry.WorldModel.Kept.{recompute_metric-IsModel}

module _ {F : Type 0} where
  placed-blank :
      (b : Entry F) (owner i n : ℕ)
      → (b.state.id ≡ id_invalid) × (b.is_self ≡ false)
      → (owner < i) ⊎ (i + n ≤ owner)
      → PlacedFrom owner i (replicate n b)
  placed-blank b owner i zero bl h = tt
  placed-blank b owner i (suc n) bl h = (
    record {
      id_fits = inl bl.0;
      self_at_owner = λ s. ground arith;
      owner_is_self = λ e. absurd (omega arith);
    },
    placed-blank b owner (i + 1) n bl (omega arith),
  )

  placed_self :
      (b : Entry F) (owner i n j : ℕ) (v : Entry F)
      → (b.state.id ≡ id_invalid) × (b.is_self ≡ false)
      → i + j ≡ owner
      → j < n
      → IsPlaced owner owner v
      → PlacedFrom owner i (set (replicate n b) j v)
  placed_self b owner i zero j v bl e h p = elim h [ ]
  placed_self b owner i (suc n) zero v bl e h p =
      let k : i ≡ owner = omega arith in (rw k p, placed-blank b owner (i + 1) n bl (omega arith))
  placed_self b owner i (suc n) (suc j) v bl e h p = (
    record {
      id_fits = inl bl.0;
      self_at_owner = λ s. ground arith;
      owner_is_self = λ k. absurd (omega arith);
    },
    placed_self b owner (i + 1) n j v bl (omega arith) (omega arith) p,
  )

  known-blank : (b : Entry F) (n : ℕ) → b.state.id ≡ id_invalid → count is_known (replicate n b) ≡ 0
  unfolding count
  known-blank b zero bl = refl
  known-blank b (suc n) bl = ground (arith, known-blank b n bl)

  known_self :
      (b : Entry F) (n j : ℕ) (v : Entry F)
      → b.state.id ≡ id_invalid
      → j < n
      → is_known v ≡ true
      → count is_known (set (replicate n b) j v) ≡ 1
  unfolding count
  known_self b zero j v bl h k = elim h [ ]
  known_self b (suc n) zero v bl h k = rw k (omega (arith, known-blank b n bl))
  known_self b (suc n) (suc j) v bl h k = ground (arith, known_self b n j v bl (omega arith) k)

module _ {F : Type 0} ⦃fl : FloatOps F⦄ where
  -- wm_init() establishes it, for an own state with the own id, or for an id out of range.
  pub wm_init-IsModel :
      (cfg : Config) (owner : ℕ) (own : ElementState F) (bias : F)
      → own.id ≡ owner
      → IsModel (wm_init cfg owner own bias)
  unfolding wm_init
  wm_init-IsModel cfg owner own bias h = elim (Bool-cases (leb max_elements owner)) [
    | inl e ↦ rw e (
        recompute_metric-IsModel _ (record {
          sized = refl;
          placed = placed-blank blank_entry id_invalid 0 max_elements (refl, refl) (omega arith);
          known = sym (known-blank blank_entry max_elements refl);
          owner_ok = inr refl;
        }))
    | inr e ↦ rw e (
        recompute_metric-IsModel _ (record {
          sized = length-set (replicate max_elements blank_entry) owner (self_entry own 0);
          placed =
              placed_self blank_entry owner 0 max_elements owner (self_entry own 0) (refl, refl)
                (omega arith) (ground arith)
                (record {
                  id_fits = inr h;
                  self_at_owner = λ _. refl;
                  owner_is_self = λ _. (refl, h);
                });
          known = sym (
              known_self blank_entry max_elements owner (self_entry own 0) refl (ground arith)
                (ground arith));
          owner_ok = inl (ground arith);
        }))
  ]
