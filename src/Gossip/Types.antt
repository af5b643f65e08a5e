-- ===== src/Gossip/Types.antt =====
-- gossip.c: the build's options, the static storage, and how a packed frame leaves.
use tapestry.Prelude.{ℕ, Bool, false, List, [], ◌∷◌, Option, none, some, replicate}
use tapestry.Facts.Types.{max_elements}
use tapestry.WorldModel.Types.{WorldModel}
use tapestry.Wire.Auth.{Mac, seal}
use tapestry.Wire.Frames.{GossipFrame}

-- CONFIG_TAPESTRY_MESH_RELAY, CONFIG_BT and CONFIG_TAPESTRY_WIRE_AUTH_ENABLED with its key.
pub record Build : Type 0 where
  pub mesh_relay : Bool
  pub bluetooth : Bool
  pub auth : Option Mac

-- The relay queue is the list of its frames: relay_q up to relay_q_count.
pub record Gossip (F : Type 0) : Type 0 where
  pub own_id_frames : ℕ
  pub relay_clock : List ℕ
  pub relay_q : List (GossipFrame F)
  pub relay_flush_at_ms : ℕ
  pub dir_last_seq : List ℕ
  pub dir_seq_seen : List Bool
  pub facts_last_ms : ℕ
  pub facts_clock_started : Bool
  pub facts_rng : ℕ

-- The storage at boot.
abbrev pub gossip_boot : {F : Type 0} → Gossip F
gossip_boot = record {
  own_id_frames = 0;
  relay_clock = replicate max_elements 0;
  relay_q = [];
  relay_flush_at_ms = 0;
  dir_last_seq = replicate max_elements 0;
  dir_seq_seen = replicate max_elements false;
  facts_last_ms = 0;
  facts_clock_started = false;
  facts_rng = 0;
}

-- An element: the framing layer's storage and the world model it writes.
pub record Node (F : Type 0) : Type 0 where
  pub gossip : Gossip F
  pub wm : WorldModel F

-- The buffers handed to each transceiver for a packed frame: one, or none where no tag could be
-- computed.
unfoldable pub transmit : Build → List ℕ → List (List ℕ)
transmit b body = elim (seal b.auth body) [ none ↦ [] | some sent ↦ sent ∷ [] ]
