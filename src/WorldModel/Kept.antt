-- ===== src/WorldModel/Kept.antt =====
-- wm_update_self(), wm_tick() and wm_reconcile() keep the invariant.
use native.Mathlib.Nat.{zero-add}
use tapestry.Prelude.{
  ℕ, ◌+◌, ◌%◌, ◌^◌, ◌<◌, ◌≡◌, refl, sym, ap, ◌∙◌, ◌≢◌, inl, inr, true, false, ◌||◌, List, [], ◌∷◌,
  Option, none, some, map, arith, ltb, leb, ◌==◌, if◌then◌else◌, length, Bool-cases, count,
  get_elem?, set,
}
use tapestry.Prelude.Floats.{FloatOps}
use tapestry.Facts.Types.{Config, max_elements}
use tapestry.WorldModel.Types.{ElementState, Entry, WorldModel, id_invalid, is_blank}
use tapestry.WorldModel.Ops.{age_entry, update_self, reconcile_entry, reconcile_all}
use tapestry.WorldModel.Cycle.{recompute_metric, wm_tick, reconcile}
use tapestry.WorldModel.Invariant.{
  is_known, IsPlaced, PlacedFrom, IsModel, IsPlaced-get, write-IsModel,
}

module _ {F : Type 0} where
  reconcile_entry-IsModel :
      (wm : WorldModel F) (recv : Entry F) → IsModel wm → IsModel (reconcile_entry wm recv)
  unfolding reconcile_entry
  reconcile_entry-IsModel wm recv m =
      elim (Bool-cases (
        leb max_elements recv.state.id
        || recv.state.id == id_invalid
        || recv.state.id == wm.owner_id)) [
          | inl e ↦ rw e m
          | inr e ↦
              rw e (look (ground arith) (ground arith) (get_elem? wm.entries recv.state.id) refl)
        ]
    where
      look :
          recv.state.id < max_elements
          → recv.state.id ≢ wm.owner_id
          → (r : Option (Entry F)) → get_elem? wm.entries recv.state.id ≡ r
          → let out : WorldModel F = elim r [
            | none ↦ wm
            | some e ↦
                if is_blank e || ltb e.state.logical_clock recv.state.logical_clock
                then record wm {
                  known_count = if is_blank e then (wm.known_count + 1) % 2 ^ 8 else wm.known_count;
                  entries = set wm.entries recv.state.id (record recv { is_self = false });
                }
                else wm
          ] in
            IsModel out
      look small other none g = m
      look small other (some e) g =
          elim (Bool-cases (is_blank e || ltb e.state.logical_clock recv.state.logical_clock)) [
            | inl new ↦ rw new (
                write-IsModel wm recv.state.id e (record recv { is_self = false }) _ g
                  (record {
                    id_fits = inr refl;
                    self_at_owner = λ s. cc;
                    owner_is_self = λ h. absurd (other h);
                  })
                  (ground arith) refl m)
            | inr old ↦ rw old m
          ]

  reconcile_all-IsModel :
      (wm : WorldModel F) (rs : List (Entry F)) → IsModel wm → IsModel (reconcile_all wm rs)
  unfolding reconcile_all
  reconcile_all-IsModel wm [] m = m
  reconcile_all-IsModel wm (r ∷ rs) m =
      reconcile_all-IsModel (reconcile_entry wm r) rs (reconcile_entry-IsModel wm r m)

  age_entry_keeps :
      (ms : ℕ) (e : Entry F)
      → ((age_entry ms e).state ≡ e.state) × ((age_entry ms e).is_self ≡ e.is_self)
  unfolding age_entry
  age_entry_keeps ms e = ground arith

  placed-age :
      (ms owner i : ℕ) (es : List (Entry F))
      → PlacedFrom owner i es
      → PlacedFrom owner i (map (age_entry ms) es)
  placed-age ms owner i [] p = tt
  placed-age ms owner i (e ∷ es) p =
      let (st, sf) = age_entry_keeps ms e in
      (
        record {
          id_fits = rw st p.0.id_fits;
          self_at_owner = λ s. p.0.self_at_owner (sym sf ∙ s);
          owner_is_self = λ o. rw (st, sf) (p.0.owner_is_self o);
        },
        placed-age ms owner (i + 1) es p.1,
      )

  length-age : (ms : ℕ) (es : List (Entry F)) → length (map (age_entry ms) es) ≡ length es
  length-age ms [] = refl
  length-age ms (e ∷ es) = omega (arith, length-age ms es)

  known-age :
      (ms : ℕ) (es : List (Entry F)) → count is_known (map (age_entry ms) es) ≡ count is_known es
  unfolding count
  known-age ms [] = refl
  known-age ms (e ∷ es) =
      rw ((age_entry_keeps ms e).0) (ap (λ n. (if is_known e then 1 else 0) + n) (known-age ms es))

  -- wm_update_self() keeps the invariant, for the owner's own state.
  pub update_self-IsModel :
      (wm : WorldModel F) (own : ElementState F)
      → own.id ≡ wm.owner_id
      → IsModel wm
      → IsModel (update_self wm own).0
  unfolding update_self
  update_self-IsModel wm own h m = elim (Bool-cases (leb max_elements wm.owner_id)) [
    | inl e ↦ rw e m
    | inr e ↦ rw e (look (ground arith) (get_elem? wm.entries wm.owner_id) refl)
  ]
    where
      own' : ElementState F
      own' = record own { logical_clock = (own.logical_clock + 1) % 2 ^ 32 }

      look :
          wm.owner_id < max_elements
          → (r : Option (Entry F)) → get_elem? wm.entries wm.owner_id ≡ r
          → let out : WorldModel F × ElementState F = elim r [
            | none ↦ (wm, own)
            | some self ↦ (
              record wm {
                entries = set wm.entries wm.owner_id (record self {
                  state = own';
                  age_ms = 0;
                  is_active = true;
                  is_stale = false;
                  update_count = (self.update_count + 1) % 2 ^ 32;
                });
              },
              own',
            )
          ] in
            IsModel out.0
      look small none g = m
      look small (some self) g =
          let p : IsPlaced wm.owner_id wm.owner_id self =
            rw zero-add at (IsPlaced-get wm.owner_id 0 wm.entries wm.owner_id self m.placed g) in
          let (s, i) = p.owner_is_self refl in
          write-IsModel wm wm.owner_id self _ wm.known_count g
            (record { id_fits = inr h; self_at_owner = λ _. refl; owner_is_self = λ _. (s, h) })
            (ground arith) (ground arith) m

module _ {F : Type 0} ⦃fl : FloatOps F⦄ where
  pub recompute_metric-IsModel : (wm : WorldModel F) → IsModel wm → IsModel (recompute_metric wm)
  unfolding recompute_metric
  recompute_metric-IsModel wm m = record {
    sized = m.sized;
    placed = m.placed;
    known = m.known;
    owner_ok = m.owner_ok;
  }

  -- wm_tick() keeps the invariant.
  pub wm_tick-IsModel :
      (cfg : Config) (wm : WorldModel F) (ms : ℕ) → IsModel wm → IsModel (wm_tick cfg wm ms)
  unfolding wm_tick
  wm_tick-IsModel cfg wm ms m = recompute_metric-IsModel _ (record {
    sized = length-age ms wm.entries ∙ m.sized;
    placed = placed-age ms wm.owner_id 0 wm.entries m.placed;
    known = m.known ∙ sym (known-age ms wm.entries);
    owner_ok = m.owner_ok;
  })

  -- wm_reconcile() keeps the invariant, whatever entries it is given.
  pub reconcile-IsModel :
      (wm : WorldModel F) (rs : List (Entry F)) → IsModel wm → IsModel (reconcile wm rs)
  unfolding reconcile
  reconcile-IsModel wm rs m =
      let m' = reconcile_all-IsModel wm rs m in
      recompute_metric-IsModel _
        (record { sized = m'.sized; placed = m'.placed; known = m'.known; owner_ok = m'.owner_ok })
