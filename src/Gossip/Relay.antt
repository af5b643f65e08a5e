-- ===== src/Gossip/Relay.antt =====
-- gossip.c, layer B: the queue of frames to relay, and the clocks that suppress duplicates.
use tapestry.Prelude.{
  ℕ, ◌+◌, ◌%◌, Bool, not, ◌&&◌, List, [], ◌∷◌, ◌++◌, none, some, ltb, leb, ◌==◌, if◌then◌else◌,
  length, get_elem?, set, u32,
}
use tapestry.Facts.Types.{max_elements}
use tapestry.Wire.Frames.{GossipFrame, hop_count, qos_tier, pack_relay_qos}
use tapestry.Wire.Layout.{FloatBits, encode_gossip}
use tapestry.Gossip.Types.{Build, Gossip, transmit}

abbrev pub relay_queue_depth : ℕ
relay_queue_depth = 8

-- The clock last relayed for an element.
abbrev pub clock_at : List ℕ → ℕ → ℕ
clock_at clocks id = elim (get_elem? clocks id) [ none ↦ 0 | some clock ↦ clock ]

module _ {F : Type 0} where
  abbrev pub tier_of : GossipFrame F → ℕ
  tier_of f = qos_tier f.relay_qos

  abbrev pub hops_of : GossipFrame F → ℕ
  hops_of f = hop_count f.relay_qos

  -- relay_q_store(): the frame as it is queued, with one hop less; `hop - 1u` is on 32 bits.
  unfoldable pub stored : GossipFrame F → GossipFrame F
  stored f = record f { relay_qos = pack_relay_qos (u32 (hops_of f + 4294967295)) (tier_of f) }

  -- The search for the first frame of the lowest tier: the place of the next frame, and the place and
  -- tier of the worst so far.
  unfoldable pub worst_from : ℕ → ℕ × ℕ → List (GossipFrame F) → ℕ × ℕ
  worst_from i worst [] = worst
  worst_from i worst (f ∷ fs) =
      worst_from (i + 1) (if ltb (tier_of f) worst.1 then (i, tier_of f) else worst) fs

  unfoldable pub worst : List (GossipFrame F) → ℕ × ℕ
  worst [] = (0, 0)
  worst (f ∷ fs) = worst_from 1 (0, tier_of f) fs

  -- relay_enqueue(), with the uptime and the random number that the first frame of a queue takes.
  unfoldable pub relay_enqueue : ℕ → ℕ → Gossip F → GossipFrame F → Gossip F
  relay_enqueue now rnd g f =
      if leb relay_queue_depth (length g.relay_q)
      then (let (place, tier) = worst g.relay_q in
          if leb (tier_of f) tier then g else record g { relay_q = set g.relay_q place (stored f) })
      else record g {
        relay_flush_at_ms =
            if length g.relay_q == 0 then u32 (now + rnd % 50) else g.relay_flush_at_ms;
        relay_q = g.relay_q ++ (stored f ∷ []);
      }

  unfoldable pub should_relay : Gossip F → GossipFrame F → Bool
  should_relay g f =
      ltb 0 (hops_of f)
      && (ltb f.id max_elements && ltb (clock_at g.relay_clock f.id) f.logical_clock)

  -- The relay's part of gossip_drain().
  unfoldable pub relay : ℕ → ℕ → Gossip F → GossipFrame F → Gossip F
  relay now rnd g f =
      if should_relay g f
      then relay_enqueue now rnd (record g { relay_clock = set g.relay_clock f.id f.logical_clock })
          f
      else g

module _ {F : Type 0} ⦃fb : FloatBits F⦄ where
  -- The frames of the queue, one after another.
  unfoldable pub transmit_all : Build → List (GossipFrame F) → List (List ℕ)
  transmit_all b [] = []
  transmit_all b (f ∷ fs) = transmit b (encode_gossip f) ++ transmit_all b fs

  -- gossip_relay_flush()
  unfoldable pub relay_flush : Build → ℕ → Gossip F → Gossip F × List (List ℕ)
  relay_flush b now g =
      if not b.mesh_relay
      then (g, [])
      else if length g.relay_q == 0
      then (g, [])
      else if ltb now g.relay_flush_at_ms
      then (g, [])
      else (record g { relay_q = [] }, transmit_all b g.relay_q)
