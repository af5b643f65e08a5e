-- ===== src/WorldModel/Samples.antt =====
-- Test data: elements, entries and world models with whole numbers for floats.
use tapestry.Prelude.{ℕ, true, false, List}
use tapestry.Prelude.Floats.{whole}
use tapestry.Facts.Types.{default_config, facts_init}
use tapestry.WorldModel.Types.{ElementState, Entry, WorldModel}
use tapestry.WorldModel.Cycle.{zero_metric}

abbrev pub state_of : ℕ → ElementState ℕ
state_of id = record {
  id = id;
  position = record { x = 0; y = 0; z = 0 };
  orientation = record { w = 1; x = 0; y = 0; z = 0 };
  logical_clock = 3;
  partition_island = 0;
  update_seq = 0;
  energy_level = 100;
  health_flags = 0;
  goal_achieved = false;
  discovered = false;
  current_track = 0;
}

abbrev pub entry_of : ℕ → Entry ℕ
entry_of id = record {
  state = state_of id;
  age_ms = 0;
  is_active = true;
  is_stale = false;
  is_self = false;
  update_count = 0;
}

abbrev pub world_of : ℕ → List (Entry ℕ) → WorldModel ℕ
world_of owner entries = record {
  owner_id = owner;
  entries = entries;
  known_count = 2;
  consistency_bias = 1;
  metric = zero_metric;
  cycle_count = 0;
  last_reconcile_cycle = 0;
  reconcile_duration_ms = 0;
  facts = facts_init default_config;
}
