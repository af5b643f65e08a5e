-- ===== src/Gossip/Cycle.antt =====
-- gossip.c: the shared facts' duties of each cycle, the whole of gossip_drain() and the discovery
-- frames.
use Prim.Native.Nat.{bit_xor}
use tapestry.Prelude.{
  ℕ, ◌+◌, ◌-◌, ◌*◌, ◌/◌, ◌^◌, Bool, true, List, [], ◌++◌, leb, ◌==◌, if◌then◌else◌, u16, u32,
}
use tapestry.Prelude.Floats.{FloatOps}
use tapestry.Facts.Types.{Config, Facts, max_elements}
use tapestry.Facts.Publish.{set_epoch}
use tapestry.Facts.Trickle.{trickle_tick}
use tapestry.Wire.Layout.{FloatBits}
use tapestry.Gossip.Types.{Build, Gossip, Node}
use tapestry.Gossip.Drain.{RelayReadings, drain_bufs}
use tapestry.Gossip.FactFrames.{send_facts, drain_facts}
use tapestry.Gossip.Relay.{relay_flush}

-- facts_entropy() of a build without an entropy device: a mix of the cycle counter, the uptime and
-- the number of calls, which goes up by one.
unfoldable pub entropy_mix : ℕ → ℕ → ℕ → ℕ × ℕ
entropy_mix calls cycles uptime =
    let calls' = u32 (calls + 1) in
    let x0 = bit_xor (bit_xor cycles (u32 (uptime * 2654435761))) (u32 (calls' * 2654435761)) in
    let x1 = u32 (bit_xor x0 (x0 / 2 ^ 16) * 2146121005) in
    let x2 = u32 (bit_xor x1 (x1 / 2 ^ 15) * 2221713035) in (calls', bit_xor x2 (x2 / 2 ^ 16))

-- One step of xorshift32.
unfoldable pub xorshift32 : ℕ → ℕ
xorshift32 x0 =
    let x1 = bit_xor x0 (u32 (x0 * 2 ^ 13)) in
    let x2 = bit_xor x1 (x1 / 2 ^ 17) in bit_xor x2 (u32 (x2 * 2 ^ 5))

-- The seed of facts_jitter().
unfoldable pub jitter_seed : ℕ → ℕ → ℕ
jitter_seed entropy own_id =
    let seed = bit_xor entropy (u32 (own_id * 2654435761)) in if seed == 0 then 1 else seed

-- What one facts_cycle() reads: the uptime, the entropy for the epoch and for the jitter's seed where
-- they are needed, and the fact buffers received.
pub record FactReadings : Type 0 where
  pub now : ℕ
  pub epoch_entropy : ℕ
  pub seed_entropy : ℕ
  pub bufs : List (List ℕ)

module _ {F : Type 0} where
  -- facts_jitter()
  unfoldable pub facts_jitter : Gossip F → ℕ → ℕ → Gossip F × ℕ
  facts_jitter g entropy own_id =
      let seed = if g.facts_rng == 0 then jitter_seed entropy own_id else g.facts_rng in
      let x = xorshift32 seed in (record g { facts_rng = x }, x)

  -- The epoch is set once.
  unfoldable pub ensure_epoch : Facts F → ℕ → Facts F
  ensure_epoch t entropy = if t.epoch_set then t else set_epoch t (u16 entropy)

  -- The time since the last cycle, on 32 bits, 0 on the first.
  abbrev pub elapsed : Gossip F → ℕ → ℕ
  elapsed g now = if g.facts_clock_started then u32 (now + 2 ^ 32 - g.facts_last_ms) else 0

module _ {F : Type 0} ⦃fl : FloatOps F⦄ ⦃fb : FloatBits F⦄ where
  unfoldable pub send_if : Build → ℕ → Facts F → Bool → Facts F × List (List ℕ)
  send_if b own_id t due = if due then send_facts b t own_id else (t, [])

  -- facts_cycle(): the element, and the buffers sent.
  unfoldable pub facts_cycle : Config → Build → ℕ → FactReadings → Node F → Node F × List (List ℕ)
  facts_cycle cfg b own_id r node =
      if leb max_elements own_id
      then (node, [])
      else (let dt = elapsed node.gossip r.now in
          let g1 = record (node.gossip) { facts_last_ms = r.now; facts_clock_started = true } in
          let t1 = ensure_epoch node.wm.facts r.epoch_entropy in
          let (t2, total) = drain_facts cfg b own_id t1 0 r.bufs in
          let (g2, jitter) = facts_jitter g1 r.seed_entropy own_id in
          let (t3, due) = trickle_tick cfg t2 dt jitter in
          let (t4, sent) = send_if b own_id t3 due in
          (record { gossip = g2; wm = record (node.wm) { facts = t4 } }, sent))

  -- gossip_drain(): the element, the number of frames counted, and the buffers sent.
  unfoldable pub gossip_drain :
      Config
      → Build
      → ℕ
      → RelayReadings
      → FactReadings
      → Node F
      → List (List ℕ)
      → Node F × ℕ × List (List ℕ)
  gossip_drain cfg b own_id rr fr node bufs =
      let (node1, total) = drain_bufs b own_id rr node 0 bufs in
      let (node2, sent) = facts_cycle cfg b own_id fr node1 in (node2, total, sent)

  -- transport.c, transport_drain(): with the uptime that the flush reads.
  unfoldable pub transport_drain :
      Config
      → Build
      → ℕ
      → RelayReadings
      → FactReadings
      → ℕ
      → Node F
      → List (List ℕ)
      → Node F × ℕ × List (List ℕ)
  transport_drain cfg b own_id rr fr flush_now node bufs =
      let (node1, total, sent) = gossip_drain cfg b own_id rr fr node bufs in
      let (g, relayed) = relay_flush b flush_now node1.gossip in
      (record node1 { gossip = g }, total, sent ++ relayed)
