-- ===== src/WorldModel/Cycle.antt =====
-- tapestry-os/subsys/csm/world_model.c: the metric and the operations that recompute it.
use tapestry.Prelude.{
  ℕ, ◌+◌, true, false, not, ◌||◌, List, [], ◌∷◌, map, ltb, leb, if◌then◌else◌, set, replicate, u8,
  u32,
}
use tapestry.Prelude.Floats.{FloatOps}
use tapestry.Facts.Types.{Config, max_elements, facts_init}
use tapestry.Facts.Publish.{tick}
use tapestry.WorldModel.Types.{ElementState, Entry, Metric, WorldModel, id_invalid, is_blank}
use tapestry.WorldModel.Ops.{age_entry, self_entry, reconcile_all}

-- The four counters of recompute_metric().
pub record Tally : Type 0 where
  pub total : ℕ
  pub fresh : ℕ
  pub stale : ℕ
  pub inactive : ℕ

abbrev pub no_tally : Tally
no_tally = record { total = 0; fresh = 0; stale = 0; inactive = 0 }

module _ {F : Type 0} where
  -- One round of its loop.
  unfoldable pub tally_entry : Entry F → Tally → Tally
  tally_entry e a =
      if is_blank e || e.is_self
      then a
      else if e.is_active
      then (if e.is_stale
          then record a { total = u8 (a.total + 1); stale = u8 (a.stale + 1) }
          else record a { total = u8 (a.total + 1); fresh = u8 (a.fresh + 1) })
      else record a { inactive = u8 (a.inactive + 1) }

  unfoldable pub tally : List (Entry F) → Tally → Tally
  tally [] a = a
  tally (e ∷ es) a = tally es (tally_entry e a)

module _ {F : Type 0} ⦃fl : FloatOps F⦄ where
  -- WM_QUORUM_FRACTION, 0.5f
  abbrev pub quorum_fraction : F
  quorum_fraction = fl.div (fl.of_ℕ 1) (fl.of_ℕ 2)

  abbrev pub clamp_one : F → F
  clamp_one c = if fl.lt (fl.of_ℕ 1) c then fl.of_ℕ 1 else c

  abbrev pub with_ratio : Metric F → Tally → F → Metric F
  with_ratio m a threshold =
      let ratio = fl.div (fl.of_ℕ a.fresh) (fl.of_ℕ a.total) in
      let held = fl.le threshold ratio in
      record m {
        active_total = a.total;
        active_fresh = a.fresh;
        active_stale = a.stale;
        inactive_total = a.inactive;
        fresh_ratio = ratio;
        quorum_held = held;
        confidence =
            if fl.lt (fl.of_ℕ 0) threshold then clamp_one (fl.div ratio threshold) else fl.of_ℕ 1;
        degraded = not held;
      }

  abbrev pub without_peers : Metric F → Tally → Metric F
  without_peers m a = record m {
    active_total = a.total;
    active_fresh = a.fresh;
    active_stale = a.stale;
    inactive_total = a.inactive;
    fresh_ratio = fl.of_ℕ 1;
    quorum_held = true;
    confidence = fl.of_ℕ 1;
    degraded = false;
  }

  unfoldable pub recompute_metric : WorldModel F → WorldModel F
  recompute_metric wm =
      let a = tally wm.entries no_tally in
      let threshold = fl.mul wm.consistency_bias quorum_fraction in
      record wm {
        metric =
            if ltb 0 a.total then with_ratio wm.metric a threshold else without_peers wm.metric a;
      }

  abbrev pub zero_metric : Metric F
  zero_metric = record {
    active_total = 0;
    active_fresh = 0;
    active_stale = 0;
    inactive_total = 0;
    collision_count = 0;
    fresh_ratio = fl.of_ℕ 0;
    quorum_held = false;
    degraded = false;
    confidence = fl.of_ℕ 0;
  }

  -- A slot as wm_init() marks it: zeroed, but for its id.
  abbrev pub blank_entry : Entry F
  blank_entry = record {
    state = record {
      id = id_invalid;
      position = record { x = fl.of_ℕ 0; y = fl.of_ℕ 0; z = fl.of_ℕ 0 };
      orientation = record { w = fl.of_ℕ 0; x = fl.of_ℕ 0; y = fl.of_ℕ 0; z = fl.of_ℕ 0 };
      logical_clock = 0;
      partition_island = 0;
      update_seq = 0;
      energy_level = 0;
      health_flags = 0;
      goal_achieved = false;
      discovered = false;
      current_track = 0;
    };
    age_ms = 0;
    is_active = false;
    is_stale = false;
    is_self = false;
    update_count = 0;
  }

  abbrev pub empty_model : Config → ℕ → F → WorldModel F
  empty_model cfg owner bias = record {
    owner_id = owner;
    entries = replicate max_elements blank_entry;
    known_count = 0;
    consistency_bias = bias;
    metric = zero_metric;
    cycle_count = 0;
    last_reconcile_cycle = 0;
    reconcile_duration_ms = 0;
    facts = facts_init cfg;
  }

  unfoldable pub wm_init : Config → ℕ → ElementState F → F → WorldModel F
  wm_init cfg owner own bias =
      if leb max_elements owner
      then recompute_metric (empty_model cfg id_invalid bias)
      else recompute_metric (record (empty_model cfg owner bias) {
        entries = set (replicate max_elements blank_entry) owner (self_entry own 0);
        known_count = 1;
      })

  unfoldable pub wm_tick : Config → WorldModel F → ℕ → WorldModel F
  wm_tick cfg wm elapsed_ms = recompute_metric (record wm {
    entries = map (age_entry elapsed_ms) wm.entries;
    cycle_count = u32 (wm.cycle_count + 1);
    facts = tick cfg wm.facts elapsed_ms;
    metric = record (wm.metric) { collision_count = 0 };
  })

  unfoldable pub reconcile : WorldModel F → List (Entry F) → WorldModel F
  reconcile wm received =
      let wm' = reconcile_all wm received in
      recompute_metric
        (record wm' { last_reconcile_cycle = wm'.cycle_count; reconcile_duration_ms = 0 })
