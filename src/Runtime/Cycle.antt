-- ===== src/Runtime/Cycle.antt =====
-- tapestry-os/subsys/runtime/runtime.c: tapestry_runtime_init() and tapestry_runtime_tick().  The
-- transport (L3), the choreography (L7) and the substrate are an interface with a state of its own.
use tapestry.Prelude.{
  ℕ, ◌+◌, Bool, true, false, not, ◌&&◌, ◌||◌, List, [], ◌∷◌, ◌++◌, Option, none, some, leb, ◌==◌,
  if◌then◌else◌, u32,
}
use tapestry.Prelude.Floats.{FloatOps}
use tapestry.Facts.Types.{Config, Position}
use tapestry.WorldModel.Types.{ElementState, WorldModel, id_invalid, cycle_ms}
use tapestry.WorldModel.Ops.{update_self}
use tapestry.WorldModel.Cycle.{wm_init, wm_tick}
use tapestry.Scr.Types.{ScrState, Abort, clear, is_triggered, scr_init}
use tapestry.Scr.Tick.{scr_tick}
use tapestry.Wire.Frames.{DirectiveFrame}
use tapestry.Runtime.Power.{Power, PowerConfig, PowerCall, power_init, power_tick}

-- tapestry_bse_directive_t
pub record Directive (F : Type 0) : Type 0 where
  pub type : ℕ
  pub target : Position F
  pub spring_k : F
  pub spacing : F

-- What runtime.c calls, over a state `X`.
pub record Services (X F : Type 0) : Type 0 where
  pub substrate_init : X → X
  pub transport_init : X → X × Bool
  pub transport_drain : X → WorldModel F → ℕ → X × WorldModel F
  pub transport_poll_directive : X → ℕ → X × Option (DirectiveFrame F)
  pub transport_send : X → ElementState F → ℕ → X
  pub transport_send_telemetry : X → WorldModel F → ℕ → ScrState → ℕ → X
  pub choreo_init : X → ℕ → X
  pub choreo_remote_directive : X → Directive F → ℕ → ℕ → X
  pub choreo_tick : X → WorldModel F → ScrState → X
  pub choreo_remote_active : X → Bool
  pub choreo_publish_state : X → ElementState F → ElementState F

-- tapestry_runtime_config_t
pub record RuntimeConfig (F : Type 0) : Type 0 where
  pub self_id : ℕ
  pub pos_x : F
  pub pos_y : F
  pub consistency_bias : F
  pub quorum_min : ℕ
  pub quorum_target : ℕ
  pub capabilities : ℕ

-- The static storage of runtime.c and power.c.
pub record Runtime (F : Type 0) : Type 0 where
  pub own : ElementState F
  pub wm : WorldModel F
  pub scr : ScrState
  pub gossip_accum_ms : ℕ
  pub election_count : ℕ
  pub last_leader : ℕ
  pub last_abort_state : Abort
  pub ready : Bool
  pub last_remote_active : Bool
  pub power : Power

-- A gossip frame as it is handed to transport_send().
pub record Sent (F : Type 0) : Type 0 where
  pub state : ElementState F
  pub qos : ℕ

abbrev pub qos_soft_rt : ℕ
qos_soft_rt = 1

abbrev pub qos_hard_rt : ℕ
qos_hard_rt = 2

abbrev pub gossip_interval_ms : ℕ
gossip_interval_ms = 500

module _ {F : Type 0} ⦃fl : FloatOps F⦄ where
  abbrev pub own_state : RuntimeConfig F → ElementState F
  own_state cfg = record {
    id = cfg.self_id;
    position = record { x = cfg.pos_x; y = cfg.pos_y; z = fl.of_ℕ 0 };
    orientation = record { w = fl.of_ℕ 1; x = fl.of_ℕ 0; y = fl.of_ℕ 0; z = fl.of_ℕ 0 };
    logical_clock = 0;
    partition_island = 0;
    update_seq = 0;
    energy_level = 0;
    health_flags = 0;
    goal_achieved = false;
    discovered = false;
    current_track = 0;
  }

module _ {F : Type 0} where
  -- The directive in a frame.
  abbrev pub directive_from : DirectiveFrame F → Directive F
  directive_from d = record {
    type = d.type;
    target = record { x = d.x; y = d.y; z = d.z };
    spring_k = d.spring_k;
    spacing = d.spacing;
  }

  -- Step 5.
  unfoldable pub count_election : Runtime F → Runtime F
  count_election r = if r.scr.leader_id == r.last_leader then r else record r {
    election_count =
        if not (r.last_leader == id_invalid) || not (r.scr.leader_id == id_invalid)
        then u32 (r.election_count + 1)
        else r.election_count;
    last_leader = r.scr.leader_id;
  }

  -- tapestry_runtime_update_pos()
  unfoldable pub update_pos : Runtime F → F → F → Runtime F
  update_pos r x y =
      if not r.ready
      then r
      else record r { own = record (r.own) { position = record (r.own.position) { x = x; y = y } } }

module _ {X F : Type 0} ⦃fl : FloatOps F⦄ where
  -- The flag is the return value 0; `false` is -1.  The list is what the power policy calls.
  unfoldable pub runtime_init :
      Services X F
      → Config
      → RuntimeConfig F
      → Runtime F
      → X
      → Runtime F × X × Bool × List PowerCall
  runtime_init sv cfg rc r x =
      let (x1, ok) = sv.transport_init (sv.substrate_init x) in
      if not ok then (r, x1, false, []) else (
        record {
          own = own_state rc;
          wm = wm_init cfg rc.self_id (own_state rc) rc.consistency_bias;
          scr = record (scr_init rc.self_id rc.quorum_min rc.quorum_target rc.capabilities) {
            on_tick = true;
          };
          gossip_accum_ms = 0;
          election_count = 0;
          last_leader = id_invalid;
          last_abort_state = clear;
          ready = true;
          last_remote_active = false;
          power = power_init.0;
        },
        sv.choreo_init x1 rc.self_id,
        true,
        power_init.1,
      )

  -- Step 1b.
  unfoldable pub remote_directive : Services X F → X → ℕ → X
  remote_directive sv x id =
      let (x', polled) = sv.transport_poll_directive x id in
      elim polled [
        | none ↦ x'
        | some frame ↦
            sv.choreo_remote_directive x' (directive_from frame) frame.goal_id frame.src_id
      ]

  -- Steps 1 to 4a: what the element sees and decides.
  unfoldable pub sense : Services X F → Config → Runtime F → X → Runtime F × X
  sense sv cfg r x =
      let (x1, wm1) = sv.transport_drain x r.wm r.own.id in
      let x2 = remote_directive sv x1 r.own.id in
      let (wm2, own) = update_self (wm_tick cfg wm1 cycle_ms) r.own in
      let (scr, hook) = scr_tick r.scr wm2 in
      let x3 = if hook then sv.choreo_tick x2 wm2 scr else x2 in
      (
        record r {
          own = own;
          wm = wm2;
          scr = scr;
          last_remote_active = sv.choreo_remote_active x3;
        },
        x3,
      )

  -- What both senders do: count up, publish the goal's state, send, and restart the interval.
  unfoldable pub send_now : Services X F → Runtime F → X → ℕ → Runtime F × X × List (Sent F)
  send_now sv r x qos =
      let own =
        sv.choreo_publish_state x (record (r.own) { update_seq = u32 (r.own.update_seq + 1) }) in
      (
        record r { own = own; gossip_accum_ms = 0 },
        sv.transport_send x own qos,
        record { state = own; qos = qos } ∷ [],
      )

  -- Step 4b.
  unfoldable pub alarm : Services X F → Runtime F → X → Runtime F × X × List (Sent F)
  alarm sv r x =
      let (r', x', sent) =
        if is_triggered r.scr.abort_state && not (is_triggered r.last_abort_state)
        then send_now sv r x qos_hard_rt
        else (r, x, []) in
      (record r' { last_abort_state = r.scr.abort_state }, x', sent)

  -- Step 6.
  unfoldable pub gossip : Services X F → Runtime F → X → Runtime F × X × List (Sent F)
  gossip sv r x =
      let r' = record r { gossip_accum_ms = u32 (r.gossip_accum_ms + cycle_ms) } in
      if leb gossip_interval_ms r'.gossip_accum_ms
      then send_now sv r' x qos_soft_rt
      else (r', x, [])

  -- Steps 4b to 8: what the element does about it.
  unfoldable pub act :
      Services X F → PowerConfig → Runtime F → X → Runtime F × X × List (Sent F) × List PowerCall
  act sv pc r x =
      let (r1, x1, urgent) = alarm sv r x in
      let (r2, x2, regular) = gossip sv (count_election r1) x1 in
      let x3 = sv.transport_send_telemetry x2 r2.wm r2.own.id r2.scr r2.election_count in
      let (power, calls) = power_tick pc r2.power r2.scr.quorum_state in
      (record r2 { power = power }, x3, urgent ++ regular, calls)

  -- One cycle: the state, the services' state, the frames sent and the calls of the power policy.
  unfoldable pub runtime_tick :
      Services X F
      → Config
      → PowerConfig
      → Runtime F
      → X
      → Runtime F × X × List (Sent F) × List PowerCall
  runtime_tick sv cfg pc r x =
      if not r.ready then (r, x, [], []) else (let (r', x') = sense sv cfg r x in act sv pc r' x')
