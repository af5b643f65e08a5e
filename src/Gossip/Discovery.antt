-- ===== src/Gossip/Discovery.antt =====
-- gossip.c: the frames of the auto-ID window.  An element without an id sends its nonce under the
-- invalid id, and hears the nonces of others and the ids already in use.
use tapestry.Prelude.{
  ℕ, ◌/◌, ◌%◌, Bool, true, not, ◌&&◌, List, [], ◌∷◌, ◌++◌, none, some, ltb, ◌==◌, if◌then◌else◌,
  length, set, u8,
}
use tapestry.Prelude.Floats.{FloatOps}
use tapestry.WorldModel.Types.{id_invalid}
use tapestry.Wire.Frames.{GossipFrame, wire_version}
use tapestry.Wire.Layout.{FloatBits, encode_gossip, decode_gossip}
use tapestry.Gossip.Types.{Build, transmit}

-- What an element without an id has heard: nonces, and a flag for each id.
pub record Discovery : Type 0 where
  pub nonces : List ℕ
  pub claimed : List Bool

module _ {F : Type 0} ⦃fl : FloatOps F⦄ where
  -- gossip_send_discovery(): the nonce goes in update_seq.
  abbrev pub discovery_frame : ℕ → GossipFrame F
  discovery_frame nonce = record {
    id = id_invalid;
    x = fl.of_ℕ 0;
    y = fl.of_ℕ 0;
    z = fl.of_ℕ 0;
    qw = fl.of_ℕ 0;
    qx = fl.of_ℕ 0;
    qy = fl.of_ℕ 0;
    qz = fl.of_ℕ 0;
    logical_clock = 0;
    update_seq = nonce;
    energy_level = 0;
    health_flags = 0;
    relay_qos = 0;
    achieved = 0;
    current_track = 0;
    reserved0 = 0;
    reserved1 = 0;
    reserved2 = 0;
    reserved3 = 0;
    version = wire_version;
  }

module _ {F : Type 0} where
  -- A frame of gossip_drain_discovery(): ELEMENT_HEALTH_STATIONARY is bit 8.
  unfoldable pub hear : ℕ → ℕ → Discovery → GossipFrame F → Discovery
  hear max_nonces max_id d f =
      if f.id == id_invalid
      then (if ltb (length d.nonces) max_nonces
          then record d { nonces = d.nonces ++ (f.update_seq ∷ []) }
          else d)
      else if ltb f.id (u8 max_id) && not (f.health_flags / 256 % 2 == 1)
      then record d { claimed = set d.claimed f.id true }
      else d

module _ (F : Type 0) ⦃fl : FloatOps F⦄ ⦃fb : FloatBits F⦄ where
  unfoldable pub send_discovery : Build → ℕ → List (List ℕ)
  send_discovery b nonce = transmit b (encode_gossip (discovery_frame {F = F} nonce))

  -- gossip_drain_discovery(): a buffer too short for a frame is passed over, and tags are not read.
  unfoldable pub drain_discovery : ℕ → ℕ → Discovery → List (List ℕ) → Discovery
  drain_discovery max_nonces max_id d [] = d
  drain_discovery max_nonces max_id d (buf ∷ bufs) =
      drain_discovery max_nonces max_id
        (elim (decode_gossip {F = F} buf) [ none ↦ d | some f ↦ hear max_nonces max_id d f ]) bufs
