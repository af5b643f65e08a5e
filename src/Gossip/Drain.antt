-- ===== src/Gossip/Drain.antt =====
-- gossip.c: gossip_send() and the loop of gossip_drain(), with what one received buffer does.
use tapestry.Prelude.{
  ℕ, ◌+◌, Bool, true, false, not, List, [], ◌∷◌, Option, none, some, ◌==◌, if◌then◌else◌, u32,
}
use tapestry.WorldModel.Types.{ElementState}
use tapestry.WorldModel.Ops.{receive_gossip}
use tapestry.Wire.Auth.{unseal}
use tapestry.Wire.Bytes.{size_of}
use tapestry.Wire.Frames.{GossipFrame, wire_version, pack_relay_qos}
use tapestry.Wire.Layout.{FloatBits, gossip_layout, encode_gossip, decode_gossip}
use tapestry.Gossip.Types.{Build, Node, transmit}
use tapestry.Gossip.Relay.{relay}

-- What k_uptime_get_32() and sys_rand32_get() would give the first frame queued for relay.
pub record RelayReadings : Type 0 where
  pub now : ℕ
  pub rnd : ℕ

module _ {F : Type 0} where
  -- The frame that gossip_send() fills in.
  unfoldable pub frame_of : Build → ElementState F → ℕ → GossipFrame F
  frame_of b own qos = record {
    id = own.id;
    x = own.position.x;
    y = own.position.y;
    z = own.position.z;
    qw = own.orientation.w;
    qx = own.orientation.x;
    qy = own.orientation.y;
    qz = own.orientation.z;
    logical_clock = own.logical_clock;
    update_seq = own.update_seq;
    energy_level = own.energy_level;
    health_flags = own.health_flags;
    relay_qos = pack_relay_qos (if b.mesh_relay then 2 else 0) qos;
    achieved = if own.goal_achieved then 1 else 0;
    current_track = own.current_track;
    reserved0 = 0;
    reserved1 = 0;
    reserved2 = 0;
    reserved3 = 0;
    version = wire_version;
  }

  -- The state that gossip_drain() reads from a frame, over a zeroed struct.
  unfoldable pub received_of : GossipFrame F → ElementState F
  received_of f = record {
    id = f.id;
    position = record { x = f.x; y = f.y; z = f.z };
    orientation = record { w = f.qw; x = f.qx; y = f.qy; z = f.qz };
    logical_clock = f.logical_clock;
    partition_island = 0;
    update_seq = f.update_seq;
    energy_level = f.energy_level;
    health_flags = f.health_flags;
    goal_achieved = not (f.achieved == 0);
    discovered = false;
    current_track = f.current_track;
  }

  -- A frame that passed the gates on its bytes; the flag says whether it is counted.
  unfoldable pub drain_frame : Build → ℕ → RelayReadings → Node F → GossipFrame F → Node F × Bool
  drain_frame b own_id r node f =
      if not (f.version == wire_version)
      then (node, false)
      else if f.id == own_id
      then (
        if b.bluetooth then node else record node {
          gossip = record (node.gossip) { own_id_frames = u32 (node.gossip.own_id_frames + 1) };
        },
        false,
      )
      else (
        record {
          wm = (receive_gossip node.wm (received_of f)).0;
          gossip = if b.mesh_relay then relay r.now r.rnd node.gossip f else node.gossip;
        },
        true,
      )

module _ {F : Type 0} ⦃fb : FloatBits F⦄ where
  -- gossip_send(): the buffers handed to each transceiver.
  unfoldable pub gossip_send : Build → ElementState F → ℕ → List (List ℕ)
  gossip_send b own qos = transmit b (encode_gossip (frame_of b own qos))

  -- The frame in a buffer that rx() filled, if it passes the gates.
  unfoldable pub gossip_in : Build → List ℕ → Option (GossipFrame F)
  gossip_in b buf = elim (unseal b.auth (size_of gossip_layout) buf) [
    | none ↦ none
    | some body ↦ decode_gossip body
  ]

  unfoldable pub drain_buf : Build → ℕ → RelayReadings → Node F → List ℕ → Node F × Bool
  drain_buf b own_id r node buf = elim (gossip_in b buf) [
    | none ↦ (node, false)
    | some f ↦ drain_frame b own_id r node f
  ]

  -- The loops over the transceivers and over what each has received.
  unfoldable pub drain_bufs : Build → ℕ → RelayReadings → Node F → ℕ → List (List ℕ) → Node F × ℕ
  drain_bufs b own_id r node total [] = (node, total)
  drain_bufs b own_id r node total (buf ∷ bufs) =
      let (node', counted) = drain_buf b own_id r node buf in
      drain_bufs b own_id r node' (if counted then total + 1 else total) bufs
