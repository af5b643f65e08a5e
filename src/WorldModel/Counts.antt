-- ===== src/WorldModel/Counts.antt =====
-- recompute_metric(): its counters are the numbers of entries that they name.
use tapestry.Prelude.{
  ℕ, ◌+◌, ◌^◌, ◌<◌, ◌≡◌, refl, Bool, true, not, ◌&&◌, ◌||◌, List, [], ◌∷◌, arith, ltb,
  if◌then◌else◌, length, count, Bool-cases, inl, inr,
}
use tapestry.Prelude.Floats.{FloatOps}
use tapestry.Facts.Types.{max_elements}
use tapestry.WorldModel.Types.{Entry, WorldModel, is_blank}
use tapestry.WorldModel.Cycle.{Tally, no_tally, tally_entry, tally, recompute_metric}

-- Counters that are in step, with room for so many entries.
record InStep (a : Tally) (room : ℕ) : Type 0 where
  total_is : a.total ≡ a.fresh + a.stale
  total_room : a.total + room < 2 ^ 8
  inactive_room : a.inactive + room < 2 ^ 8

module _ {F : Type 0} where
  abbrev pub is_peer : Entry F → Bool
  is_peer e = not (is_blank e || e.is_self)

  abbrev pub is_fresh_peer : Entry F → Bool
  is_fresh_peer e = is_peer e && e.is_active && not e.is_stale

  abbrev pub is_stale_peer : Entry F → Bool
  is_stale_peer e = is_peer e && e.is_active && e.is_stale

  abbrev pub is_inactive_peer : Entry F → Bool
  is_inactive_peer e = is_peer e && not e.is_active

  tally_entry_lem :
      (e : Entry F) (a : Tally) (room : ℕ)
      → InStep a (room + 1)
      → let t = tally_entry e a in
        InStep t room
        × (t.fresh ≡ a.fresh + (if is_fresh_peer e then 1 else 0))
        × (t.stale ≡ a.stale + (if is_stale_peer e then 1 else 0))
        × (t.inactive ≡ a.inactive + (if is_inactive_peer e then 1 else 0))
  unfolding tally_entry
  tally_entry_lem e a room h = ground arith

  tally_lem :
      (es : List (Entry F)) (a : Tally)
      → InStep a (length es)
      → let t = tally es a in
        (t.total ≡ t.fresh + t.stale)
        × (t.fresh ≡ a.fresh + count is_fresh_peer es)
        × (t.stale ≡ a.stale + count is_stale_peer es)
        × (t.inactive ≡ a.inactive + count is_inactive_peer es)
  unfolding tally count
  tally_lem [] a h = omega (arith, h.total_is)
  tally_lem (e ∷ es) a h =
      let n : InStep a (length es + 1) = omega (arith, h.total_is, h.total_room, h.inactive_room) in
      let (k, f, s, i) = tally_entry_lem e a (length es) n in
      let (t', f', s', i') = tally_lem es (tally_entry e a) k in
      (t', omega (arith, f, f'), omega (arith, s, s'), omega (arith, i, i'))

module _ {F : Type 0} ⦃fl : FloatOps F⦄ where
  -- The metric after each wm_tick() and wm_reconcile(), which end in recompute_metric(): its fresh,
  -- stale and inactive counters are the numbers of such entries of other elements, none wrapping; the
  -- active ones are the fresh and the stale; degraded is the opposite of quorum_held; and an element
  -- with no active peer holds quorum.
  pub recompute_metric_lem :
      (wm : WorldModel F)
      → length wm.entries ≡ max_elements
      → let m = (recompute_metric wm).metric in
        (m.active_fresh ≡ count is_fresh_peer wm.entries)
        × (m.active_stale ≡ count is_stale_peer wm.entries)
        × (m.inactive_total ≡ count is_inactive_peer wm.entries)
        × (m.active_total ≡ m.active_fresh + m.active_stale)
        × (m.degraded ≡ not m.quorum_held)
        × (m.active_total ≡ 0 → m.quorum_held ≡ true)
  unfolding recompute_metric
  recompute_metric_lem wm n =
      let (t, f, s, i) = tally_lem wm.entries no_tally (record {
        total_is = refl;
        total_room = omega (arith, n);
        inactive_room = omega (arith, n);
      }) in
      elim (Bool-cases (ltb 0 (tally wm.entries no_tally).total)) [
        | inl e ↦ rw e (
          omega (arith, f),
          omega (arith, s),
          omega (arith, i),
          t,
          refl,
          λ z. absurd (ground arith),
        )
        | inr e ↦ rw e (omega (arith, f), omega (arith, s), omega (arith, i), t, refl, λ z. refl)
      ]
