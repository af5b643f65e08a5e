-- ===== src/Gossip/Invariant.antt =====
-- What the framing layer and the world model behind it keep, whatever arrives.
use mathlib.Core.Path.{subst}
use tapestry.Prelude.{
  ℕ, ◌<◌, ◌≡◌, sym, inl, inr, Bool, true, false, not, List, [], ◌∷◌, arith, ltb, leb, ◌==◌,
  Bool-cases, Option-cases, length,
}
use tapestry.Prelude.Floats.{FloatOps}
use tapestry.Facts.Types.{Config, Facts, max_elements}
use tapestry.Facts.Publish.{set_epoch}
use tapestry.Facts.Query.{pack}
use tapestry.Facts.Trickle.{trickle_tick}
use tapestry.Facts.Preservation.{WellFormed}
use tapestry.Facts.Upkeep.{SameTable-WellFormed, trickle_tick-SameTable, pack-SameTable}
use tapestry.WorldModel.Types.{ElementState, WorldModel}
use tapestry.WorldModel.Ops.{receive_gossip}
use tapestry.WorldModel.Invariant.{IsModel, receive_gossip-IsModel}
use tapestry.Wire.Frames.{GossipFrame, wire_version}
use tapestry.Wire.Layout.{FloatBits}
use tapestry.Gossip.Types.{Build, Gossip, Node}
use tapestry.Gossip.Relay.{relay_enqueue, relay, relay_flush}
use tapestry.Gossip.RelayOnce.{HasClocks, step-HasClocks}
use tapestry.Gossip.Replay.{HasSeqs}
use tapestry.Gossip.Queue.{IsQueue, relay-IsQueue}
use tapestry.Gossip.Drain.{
  RelayReadings, received_of, drain_frame, gossip_in, drain_buf, drain_bufs,
}
use tapestry.Gossip.FactFrames.{fact_frame_build, send_facts, fact_in, drain_fact, drain_facts}
use tapestry.Gossip.FactExchange.{fact_frame_apply-WellFormed}
use tapestry.Gossip.Cycle.{
  FactReadings, facts_jitter, ensure_epoch, send_if, elapsed, facts_cycle, gossip_drain,
  transport_drain,
}

module _ {F : Type 0} where
  -- The parts of an element that the framing layer writes.
  pub record IsNode (cfg : Config) (node : Node F) : Type 0 where
    pub model : IsModel node.wm
    pub facts : WellFormed cfg node.wm.facts
    pub queue : IsQueue node.gossip.relay_q
    pub clocks : HasClocks node.gossip
    pub seqs : HasSeqs node.gossip

  facts-receive_gossip :
      (wm : WorldModel F) (s : ElementState F) → (receive_gossip wm s).0.facts ≡ wm.facts
  unfolding receive_gossip
  facts-receive_gossip wm s = ground arith

  facts-IsModel : (wm : WorldModel F) (t : Facts F) → IsModel wm → IsModel (record wm { facts = t })
  facts-IsModel wm t m = record {
    sized = m.sized;
    placed = m.placed;
    known = m.known;
    owner_ok = m.owner_ok;
  }

  relay-HasSeqs :
      (now rnd : ℕ) (g : Gossip F) (f : GossipFrame F) → HasSeqs g → HasSeqs (relay now rnd g f)
  unfolding relay relay_enqueue
  relay-HasSeqs now rnd g f (n, m) = (ground (arith, n), ground (arith, m))

  received :
      (cfg : Config) (node : Node F) (f : GossipFrame F) (g : Gossip F)
      → IsNode cfg node
      → IsQueue g.relay_q
      → HasClocks g
      → HasSeqs g
      → IsNode cfg (record { gossip = g; wm = (receive_gossip node.wm (received_of f)).0 })
  received cfg node f g ok q c n = record {
    model = receive_gossip-IsModel node.wm (received_of f) ok.model;
    facts = subst (WellFormed cfg) (sym (facts-receive_gossip node.wm (received_of f))) ok.facts;
    queue = q;
    clocks = c;
    seqs = n;
  }

  drain_frame-IsNode :
      (cfg : Config) (b : Build) (own_id : ℕ) (r : RelayReadings) (node : Node F)
      (f : GossipFrame F)
      → IsNode cfg node
      → IsNode cfg (drain_frame b own_id r node f).0
  unfolding drain_frame
  drain_frame-IsNode cfg b own_id r node f ok =
      elim (Bool-cases (not (f.version == wire_version))) [
        | inl e ↦ rw (drain_frame, e) ok
        | inr e ↦
            rw (drain_frame, e)
              (elim (Bool-cases (f.id == own_id)) [
                | inl o ↦ rw o (elim (Bool-cases b.bluetooth) [
                  | inl t ↦ rw t ok
                  | inr t ↦ rw t record {
                    model = ok.model;
                    facts = ok.facts;
                    queue = ok.queue;
                    clocks = ok.clocks;
                    seqs = ok.seqs;
                  }
                ])
                | inr o ↦ rw o elim (Bool-cases b.mesh_relay) [
                  | inl t ↦ rw t (
                      received cfg node f (relay r.now r.rnd node.gossip f) ok
                        (relay-IsQueue r.now r.rnd node.gossip f ok.queue)
                        (step-HasClocks node.gossip (record { frame = f; now = r.now; rnd = r.rnd })
                          ok.clocks)
                        (relay-HasSeqs r.now r.rnd node.gossip f ok.seqs))
                  | inr t ↦ rw t (received cfg node f node.gossip ok ok.queue ok.clocks ok.seqs)
                ]
              ])
      ]

module _ {F : Type 0} ⦃fl : FloatOps F⦄ ⦃fb : FloatBits F⦄ where
  drain_buf-IsNode :
      (cfg : Config) (b : Build) (own_id : ℕ) (r : RelayReadings) (node : Node F) (buf : List ℕ)
      → IsNode cfg node
      → IsNode cfg (drain_buf b own_id r node buf).0
  unfolding drain_buf
  drain_buf-IsNode cfg b own_id r node buf ok = elim (Option-cases (gossip_in {F = F} b buf)) [
    | inl e ↦ rw (drain_buf, e) ok
    | inr (f, e) ↦ rw (drain_buf, e) (drain_frame-IsNode cfg b own_id r node f ok)
  ]

  drain_bufs-IsNode :
      (cfg : Config) (b : Build) (own_id : ℕ) (r : RelayReadings) (node : Node F) (total : ℕ)
      (bufs : List (List ℕ))
      → IsNode cfg node
      → IsNode cfg (drain_bufs b own_id r node total bufs).0
  unfolding drain_bufs
  drain_bufs-IsNode cfg b own_id r node total [] ok = ok
  drain_bufs-IsNode cfg b own_id r node total (buf ∷ bufs) ok =
      drain_bufs-IsNode cfg b own_id r (drain_buf b own_id r node buf).0 _ bufs
        (drain_buf-IsNode cfg b own_id r node buf ok)

  drain_fact-WellFormed :
      (cfg : Config) (b : Build) (own_id : ℕ) (t : Facts F) (buf : List ℕ)
      → 0 < cfg.max_per_origin
      → WellFormed cfg t
      → WellFormed cfg (drain_fact cfg b own_id t buf).0
  unfolding drain_fact
  drain_fact-WellFormed cfg b own_id t buf pos ok = elim (Option-cases (fact_in {F = F} b buf)) [
    | inl e ↦ rw (drain_fact, e) ok
    | inr (f, e) ↦ rw (drain_fact, e) (fact_frame_apply-WellFormed cfg t own_id f pos ok)
  ]

  drain_facts-WellFormed :
      (cfg : Config) (b : Build) (own_id : ℕ) (t : Facts F) (total : ℕ) (bufs : List (List ℕ))
      → 0 < cfg.max_per_origin
      → WellFormed cfg t
      → WellFormed cfg (drain_facts cfg b own_id t total bufs).0
  unfolding drain_facts
  drain_facts-WellFormed cfg b own_id t total [] pos ok = ok
  drain_facts-WellFormed cfg b own_id t total (buf ∷ bufs) pos ok =
      drain_facts-WellFormed cfg b own_id (drain_fact cfg b own_id t buf).0 _ bufs pos
        (drain_fact-WellFormed cfg b own_id t buf pos ok)

  send_facts-WellFormed :
      (cfg : Config) (b : Build) (t : Facts F) (own_id : ℕ)
      → WellFormed cfg t
      → WellFormed cfg (send_facts b t own_id).0
  unfolding send_facts fact_frame_build
  send_facts-WellFormed cfg b t own_id ok =
      SameTable-WellFormed cfg t (pack t).0 (pack-SameTable t) ok

  ensure_epoch-WellFormed :
      (cfg : Config) (t : Facts F) (entropy : ℕ)
      → WellFormed cfg t
      → WellFormed cfg (ensure_epoch t entropy)
  unfolding ensure_epoch set_epoch
  ensure_epoch-WellFormed cfg t entropy ok = elim (Bool-cases t.epoch_set) [
    | inl e ↦ rw (ensure_epoch, e) ok
    | inr e ↦ rw (ensure_epoch, e) ok
  ]

  send_if-WellFormed :
      (cfg : Config) (b : Build) (t : Facts F) (own_id : ℕ) (due : Bool)
      → WellFormed cfg t
      → WellFormed cfg (send_if b own_id t due).0
  unfolding send_if
  send_if-WellFormed cfg b t own_id true ok = send_facts-WellFormed cfg b t own_id ok
  send_if-WellFormed cfg b t own_id false ok = ok

  facts_cycle-IsNode :
      (cfg : Config) (b : Build) (own_id : ℕ) (r : FactReadings) (node : Node F)
      → 0 < cfg.max_per_origin
      → IsNode cfg node
      → IsNode cfg (facts_cycle cfg b own_id r node).0
  unfolding facts_cycle facts_jitter
  facts_cycle-IsNode cfg b own_id r node pos ok = elim (Bool-cases (leb max_elements own_id)) [
    | inl e ↦ rw (facts_cycle, e) ok
    | inr e ↦
        let g1 = record (node.gossip) { facts_last_ms = r.now; facts_clock_started = true } in
        let t1 = ensure_epoch node.wm.facts r.epoch_entropy in
        let t2 = (drain_facts cfg b own_id t1 0 r.bufs).0 in
        let rnd = (facts_jitter g1 r.seed_entropy own_id).1 in
        let dt = elapsed node.gossip r.now in
        let (t3, due) = trickle_tick cfg t2 dt rnd in
        let ok1 = ensure_epoch-WellFormed cfg node.wm.facts r.epoch_entropy ok.facts in
        let ok2 = drain_facts-WellFormed cfg b own_id t1 0 r.bufs pos ok1 in
        let ok3 = SameTable-WellFormed cfg t2 t3 (trickle_tick-SameTable cfg t2 dt rnd) ok2 in
        rw (facts_cycle, e)
          (kept cfg node (send_if b own_id t3 due).0 r.seed_entropy own_id ok
            (send_if-WellFormed cfg b t3 own_id due ok3))
  ]
    where
      kept :
          (cfg : Config) (node : Node F) (t : Facts F) (entropy own_id : ℕ)
          → IsNode cfg node
          → WellFormed cfg t
          → IsNode cfg (record {
            gossip =
                (facts_jitter
                  (record (node.gossip) { facts_last_ms = r.now; facts_clock_started = true })
                  entropy
                  own_id).0;
            wm = record (node.wm) { facts = t };
          })
      kept cfg node t entropy own_id ok w = record {
        model = facts-IsModel node.wm t ok.model;
        facts = w;
        queue = ok.queue;
        clocks = ok.clocks;
        seqs = ok.seqs;
      }

  relay_flush-IsNode :
      (cfg : Config) (b : Build) (now : ℕ) (node : Node F)
      → IsNode cfg node
      → IsNode cfg (record node { gossip = (relay_flush b now node.gossip).0 })
  unfolding relay_flush
  relay_flush-IsNode cfg b now node ok = elim (Bool-cases (not b.mesh_relay)) [
    | inl a ↦ rw (relay_flush, a) ok
    | inr a ↦
        rw (relay_flush, a)
          (elim (Bool-cases (length node.gossip.relay_q == 0)) [
            | inl c ↦ rw c ok
            | inr c ↦ rw c (elim (Bool-cases (ltb now node.gossip.relay_flush_at_ms)) [
              | inl d ↦ rw d ok
              | inr d ↦ rw d (record {
                model = ok.model;
                facts = ok.facts;
                queue = (omega arith, tt);
                clocks = ok.clocks;
                seqs = ok.seqs;
              })
            ])
          ])
  ]

  -- One drain of the transport, whatever buffers, forged or not, the media deliver, and whatever the
  -- clock and the entropy read, keeps the element: its world model and its fact table stay well
  -- formed, the relay queue stays within its depth with frames of at most two hops, and the clocks
  -- and sequence tables keep their sizes.  Each origin may hold a record.
  pub transport_drain-IsNode :
      (cfg : Config) (b : Build) (own_id : ℕ) (rr : RelayReadings) (fr : FactReadings)
      (flush_now : ℕ) (node : Node F) (bufs : List (List ℕ))
      → 0 < cfg.max_per_origin
      → IsNode cfg node
      → IsNode cfg (transport_drain cfg b own_id rr fr flush_now node bufs).0
  unfolding transport_drain gossip_drain
  transport_drain-IsNode cfg b own_id rr fr flush_now node bufs pos ok =
      let drained = (drain_bufs b own_id rr node 0 bufs).0 in
      let cycled = (facts_cycle cfg b own_id fr drained).0 in
      relay_flush-IsNode cfg b flush_now cycled (
        facts_cycle-IsNode cfg b own_id fr drained pos
          (drain_bufs-IsNode cfg b own_id rr node 0 bufs ok))
