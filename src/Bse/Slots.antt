-- ===== src/Bse/Slots.antt =====
-- bse.c: the slots of FORM: where they are, and which one an element takes.
use tapestry.Prelude.{
  ℕ, zero, suc, ◌+◌, ◌-◌, ◌/◌, ◌%◌, Bool, true, false, List, [], ◌∷◌, ltb, ◌==◌, map, if◌then◌else◌,
}
use tapestry.Prelude.Floats.{FloatOps}
use tapestry.Facts.Types.{Position}
use tapestry.Choreo.Goals.{Aim}
use tapestry.Bse.Types.{TrigOps, shape_line, shape_grid, zero_f, bse_pi, decimal}

module _ {F : Type 0} ⦃fl : FloatOps F⦄ where
  -- `((float)i - 0.5f * (float)(n - 1)) * radius`
  abbrev pub grid_offset : F → ℕ → ℕ → F
  grid_offset radius i n =
      fl.mul (fl.sub (fl.of_ℕ i) (fl.mul (decimal 5 10) (fl.of_ℕ (n - 1)))) radius

  -- `axis ? slot[i].y : slot[i].x`
  abbrev pub along : Bool → Position F → F
  along true p = p.y
  along false p = p.x

  abbrev pub slide : Bool → F → Position F → Position F
  slide true d p = record p { y = fl.add p.y d }
  slide false d p = record p { x = fl.add p.x d }

  -- The distance to slide, from the least and the greatest coordinate.
  unfoldable pub fit_distance : F → F → F → F → F
  fit_distance mn mx lo hi =
      if fl.lt (fl.sub hi lo) (fl.sub mx mn)
      then fl.sub (fl.mul (decimal 5 10) (fl.add lo hi)) (fl.mul (decimal 5 10) (fl.add mn mx))
      else if fl.lt mn lo
      then fl.sub lo mn
      else if fl.lt hi mx
      then fl.sub hi mx
      else zero_f

  module _ (trig : TrigOps F) where
    -- form_slot_offset()
    unfoldable pub form_slot_offset : Aim F → ℕ → ℕ → F × F
    form_slot_offset aim k count =
        if aim.shape == shape_line
        then (
          if ltb 1 count
              then fl.add (trig.neg aim.radius) (
                  fl.mul (fl.div (fl.mul (fl.of_ℕ 2) aim.radius) (fl.of_ℕ (count - 1))) (fl.of_ℕ k))
              else zero_f,
          zero_f,
        )
        else if aim.shape == shape_grid
        then (let cols = trig.ceil_ℕ (fl.sqrtf (fl.of_ℕ count)) in
            let rows = trig.ceil_ℕ (fl.div (fl.of_ℕ count) (fl.of_ℕ cols)) in
            (grid_offset aim.radius (k % cols) cols, grid_offset aim.radius (k / cols) rows))
        else (let angle = fl.div (fl.mul (fl.mul (fl.of_ℕ 2) bse_pi) (fl.of_ℕ k)) (fl.of_ℕ count) in
            (fl.mul aim.radius (trig.cosf angle), fl.mul aim.radius (trig.sinf angle)))

    unfoldable pub least_along : Bool → F → List (Position F) → F
    least_along axis mn [] = mn
    least_along axis mn (p ∷ ps) = least_along axis (trig.fminf mn (along axis p)) ps

    unfoldable pub greatest_along : Bool → F → List (Position F) → F
    greatest_along axis mx [] = mx
    greatest_along axis mx (p ∷ ps) = greatest_along axis (trig.fmaxf mx (along axis p)) ps

    -- form_fit_axis()
    unfoldable pub form_fit_axis : List (Position F) → Bool → F → F → List (Position F)
    form_fit_axis slots axis lo hi =
        let mn = least_along axis trig.infinity slots in
        let mx = greatest_along axis (trig.neg trig.infinity) slots in
        map (slide axis (fit_distance mn mx lo hi)) slots

    -- A slot turned by an angle and placed about the target.
    unfoldable pub place_slot : Aim F → ℕ → Position F → F → ℕ → Position F
    place_slot aim count target theta k =
        let c = trig.cosf theta in
        let s = trig.sinf theta in
        let o = form_slot_offset aim k count in
        record {
          x = fl.sub (fl.add target.x (fl.mul o.0 c)) (fl.mul o.1 s);
          y = fl.add (fl.add target.y (fl.mul o.0 s)) (fl.mul o.1 c);
          z = target.z;
        }

    -- The slots from `k` on, so many.
    unfoldable pub place_slots : Aim F → ℕ → Position F → F → ℕ → ℕ → List (Position F)
    place_slots aim count target theta k zero = []
    place_slots aim count target theta k (suc more) =
        place_slot aim count target theta k ∷ place_slots aim count target theta (k + 1) more
