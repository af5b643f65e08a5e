-- ===== src/Runtime/Tests.antt =====
-- runtime.c and power.c: the theorems on an element whose transport delivers nothing and counts what
-- it sends.
use tapestry.Prelude.{ℕ, suc, ◌<◌, ◌≤◌, ◌≡◌, refl, true, false, [], ◌∷◌, none, arith, length}
use tapestry.Prelude.Floats.{whole}
use tapestry.Facts.Types.{default_config}
use tapestry.Scr.Types.{lost, healthy, is_triggered, scr_init, clear}
use tapestry.WorldModel.Types.{id_invalid}
use tapestry.WorldModel.Samples.{state_of, world_of}
use tapestry.Runtime.Power.{PowerConfig, active, idle, set_power, power_init, power_tick}
use tapestry.Runtime.Policy.{run_power, policy_lem}
use tapestry.Runtime.Cycle.{Services, Runtime, runtime_tick}
use tapestry.Runtime.Schedule.{Acts, run, runtime_tick_lem, five_ticks_send}

-- The state counts the frames.
abbrev silent : Services ℕ ℕ
silent = record {
  substrate_init = λ x. x;
  transport_init = λ x. (x, true);
  transport_drain = λ x wm id. (x, wm);
  transport_poll_directive = λ x id. (x, none);
  transport_send = λ x own qos. suc x;
  transport_send_telemetry = λ x wm id scr elections. x;
  choreo_init = λ x id. x;
  choreo_remote_directive = λ x d goal src. x;
  choreo_tick = λ x wm scr. x;
  choreo_remote_active = λ x. false;
  choreo_publish_state = λ x own. own;
}

abbrev policy : PowerConfig
policy = record {
  pm = true;
  has_threshold = false;
  threshold_ready = false;
  auto_policy = true;
  grace_cycles = 2;
}

abbrev booted : Runtime ℕ
booted = record {
  own = state_of 0;
  wm = world_of 0 [];
  scr = scr_init 0 1 2 0;
  gossip_accum_ms = 200;
  election_count = 0;
  last_leader = id_invalid;
  last_abort_state = clear;
  ready = true;
  last_remote_active = false;
  power = record { state = active; quorum_lost_cyc = 0 };
}

runtime_tick_lem_example :
    let (r', x', sent, calls) = runtime_tick silent default_config policy booted 0 in
    Acts 200 (is_triggered clear) r' sent
runtime_tick_lem_example = runtime_tick_lem silent default_config policy booted 0 refl (omega arith)

five_ticks_send_example : 0 < length (run silent default_config policy 5 booted 0).2
five_ticks_send_example = five_ticks_send silent default_config policy booted 0 refl (omega arith)

policy_lem_example :
    let (p, calls) = run_power policy power_init.0 (lost ∷ lost ∷ lost ∷ []) in
    let (p', more) = power_tick policy p healthy in
    (3 < 2 → (p.state ≡ active) × (calls ≡ []) × (more ≡ []))
    × (2 ≤ 3 → (p.state ≡ idle) × (calls ≡ set_power idle ∷ []) × (more ≡ set_power active ∷ []))
    × (p' ≡ power_init.0)
policy_lem_example =
    policy_lem policy (lost ∷ lost ∷ lost ∷ []) healthy refl (omega arith)
      (refl, (refl, (refl, tt))) (omega arith) refl
