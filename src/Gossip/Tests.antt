-- ===== src/Gossip/Tests.antt =====
-- gossip.c: the theorems at two elements, with whole numbers for floats and a toy code for the key.
use tapestry.Prelude.{
  ◌++◌, ℕ, ◌+◌, ◌≤◌, ◌<◌, ◌≡◌, refl, ◌↔◌, count, true, false, List, [], ◌∷◌, none, some, arith,
  length, replicate, Bool, Option, map,
}
use tapestry.Prelude.Floats.{whole}
use tapestry.Facts.Types.{default_config, Fact, Facts, zero_slot, facts_init}
use tapestry.Facts.Query.{
  fnv, record_bytes, record_hash, digest_from, digest, heard_digest, pack_from, pack,
}
use tapestry.Facts.Replicas.{receive_all}
use tapestry.Facts.Preservation.{WellFormed}
use tapestry.Facts.Local.{facts_init-WellFormed}
use tapestry.WorldModel.Ops.{receive_gossip}
use tapestry.WorldModel.Cycle.{wm_init, recompute_metric}
use tapestry.WorldModel.Init.{wm_init-IsModel}
use tapestry.WorldModel.Samples.{state_of}
use tapestry.Wire.Auth.{Mac, seal}
use tapestry.Wire.Frames.{GossipFrame, DirectiveFrame, wire_version}
use tapestry.Wire.Layout.{whole_bits, encode_gossip, encode_directive, encode_fact}
use tapestry.Wire.Auth.{unseal}
use tapestry.Wire.Gates.{IsFramed, unseal_takes_frames}
use tapestry.Wire.RoundTrip.{FactFits}
use tapestry.Gossip.Types.{Build, Gossip, gossip_boot, Node, transmit}
use tapestry.Gossip.Gate.{passed, StampsGrow}
use tapestry.Gossip.Relay.{relay_queue_depth, relay_enqueue, stored}
use tapestry.Gossip.RelayOnce.{Heard, relay_gate, after, relayed_once}
use tapestry.Gossip.Queue.{Full, relay_enqueue-Full}
use tapestry.Gossip.Drain.{RelayReadings, frame_of, gossip_send, drain_buf}
use tapestry.Gossip.Receive.{as_received, drain_buf-gossip_send}
use tapestry.Gossip.Directive.{poll_buf, poll_directive}
use tapestry.Gossip.Replay.{replay_gate, latest, poll_directive_lem}
use tapestry.Gossip.FactFrames.{fact_frame_build, send_facts, drain_fact}
use tapestry.Gossip.FactExchange.{drain_fact-send_facts}
use tapestry.Gossip.Cycle.{FactReadings, transport_drain}
use tapestry.Gossip.Invariant.{IsNode, transport_drain-IsNode}
use tapestry.Gossip.Forgery.{IsForged, forgeries_ignored}

-- A build without authentication, with the relay.
abbrev open_build : Build
open_build = record { mesh_relay = true; bluetooth = false; auth = none }

abbrev home : Node ℕ
home = record { gossip = gossip_boot; wm = wm_init default_config 1 (state_of 1) 1 }

abbrev readings : RelayReadings
readings = record { now = 1000; rnd = 77 }

-- What element 3 sends.
abbrev sent_by_3 : List ℕ
sent_by_3 = encode_gossip (frame_of open_build (state_of 3) 1)

sent : gossip_send open_build (state_of 3) 1 ≡ sent_by_3 ∷ []
unfolding gossip_send transmit seal
sent = refl

drain_buf-gossip_send_example :
    let (node', counted) = drain_buf open_build 1 readings home sent_by_3 in
    (counted ≡ true) × (node'.wm ≡ (receive_gossip home.wm (as_received (state_of 3))).0)
unfolding frame_of
drain_buf-gossip_send_example =
    drain_buf-gossip_send open_build open_build (state_of 3) 1 1 readings home sent_by_3 (λ x. refl)
      (ground arith) refl (omega arith) sent

-- A table with one target, of element 3.
abbrev target : Fact ℕ
target = record {
  key = record { type = 1; origin = 3; epoch = 9; seq = 0 };
  flags = 0;
  stamp = 5;
  pos = record { x = 1; y = 2; z = 3 };
  attr = 7;
}

abbrev knowing : Facts ℕ
knowing = record (facts_init default_config) {
  slots = record (zero_slot) { fact = target; used = true } ∷ [];
}

abbrev facts_of_3 : List ℕ
facts_of_3 = encode_fact (fact_frame_build knowing 3).1

sent_facts : (send_facts open_build knowing 3).1 ≡ facts_of_3 ∷ []
unfolding send_facts transmit seal
sent_facts = refl

fits : FactFits (fact_frame_build knowing 3).1
unfolding fact_frame_build pack pack_from digest digest_from record_hash record_bytes fnv
fits = ground arith

drain_fact-send_facts_example :
    let (t', recs) = pack knowing in
    drain_fact default_config open_build 1 (facts_init default_config) facts_of_3 ≡ (
      heard_digest default_config
          (receive_all default_config (facts_init default_config) recs)
          (digest t'),
      true,
    )
drain_fact-send_facts_example =
    drain_fact-send_facts default_config open_build open_build knowing (facts_init default_config) 3
      1 facts_of_3 (λ x. refl) fits refl (omega arith) (omega arith) sent_facts

home-facts : WellFormed default_config home.wm.facts
unfolding wm_init recompute_metric
home-facts = facts_init-WellFormed default_config

home-IsNode : IsNode default_config home
home-IsNode = record {
  model = wm_init-IsModel default_config 1 (state_of 1) 1 refl;
  facts = home-facts;
  queue = (omega arith, tt);
  clocks = refl;
  seqs = (refl, refl);
}

abbrev fact_readings : FactReadings
fact_readings = record {
  now = 1001;
  epoch_entropy = 4242;
  seed_entropy = 99;
  bufs = facts_of_3 ∷ [];
}

transport_drain-IsNode_example :
    IsNode default_config
      (transport_drain default_config open_build 1 readings fact_readings 1002 home
        (sent_by_3 ∷ (1 ∷ 2 ∷ []) ∷ [])).0
transport_drain-IsNode_example =
    transport_drain-IsNode default_config open_build 1 readings fact_readings 1002 home
      (sent_by_3 ∷ (1 ∷ 2 ∷ []) ∷ []) (omega arith) home-IsNode

-- A key under which every message has one code.
abbrev weak_mac : Mac
weak_mac msg = some (1 ∷ 2 ∷ 3 ∷ 4 ∷ 5 ∷ [])

abbrev closed_build : Build
closed_build = record open_build { auth = some weak_mac }

forgeries_ignored_example :
    (IsForged weak_mac 48 sent_by_3
      → drain_buf closed_build 1 readings home sent_by_3 ≡ (home, false))
    × (IsForged weak_mac 30 sent_by_3
        → poll_buf closed_build 1 home.gossip none sent_by_3 ≡ (home.gossip, none))
    × (IsForged weak_mac 53 sent_by_3
        → drain_fact default_config closed_build 1 home.wm.facts sent_by_3 ≡ (home.wm.facts, false))
forgeries_ignored_example =
    forgeries_ignored default_config closed_build weak_mac 1 readings home none sent_by_3 refl

-- A queue of eight frames of tier 1, and one of tier 2.
abbrev crowded : Gossip ℕ
crowded = record gossip_boot { relay_q = replicate 8 (frame_of open_build (state_of 3) 1) }

relay_enqueue-Full_example :
    Full crowded
      (frame_of open_build (state_of 4) 2)
      (relay_enqueue 1000 77 crowded (frame_of open_build (state_of 4) 2))
relay_enqueue-Full_example =
    relay_enqueue-Full 1000 77 crowded (frame_of open_build (state_of 4) 2) refl

-- One frame heard twice.
abbrev heard_3 : Heard ℕ
heard_3 = record { frame = frame_of open_build (state_of 3) 1; now = 1000; rnd = 77 }

relayed_once_example :
    StampsGrow
      (relay_gate {F = ℕ})
      (passed (relay_gate {F = ℕ}) gossip_boot (heard_3 ∷ heard_3 ∷ []))
    × ((p : GossipFrame ℕ → Bool)
        → count p (after gossip_boot (heard_3 ∷ heard_3 ∷ [])).relay_q
          ≤ count p gossip_boot.relay_q
            + count
                (λ h. p (stored h.frame))
                (passed relay_gate gossip_boot (heard_3 ∷ heard_3 ∷ [])))
    × (length (gossip_boot {F = ℕ}).relay_q
            + length (passed (relay_gate {F = ℕ}) gossip_boot (heard_3 ∷ heard_3 ∷ []))
          ≤ relay_queue_depth
        → (after gossip_boot (heard_3 ∷ heard_3 ∷ [])).relay_q
          ≡ gossip_boot.relay_q
            ++ map (λ h. stored h.frame) (passed relay_gate gossip_boot (heard_3 ∷ heard_3 ∷ [])))
relayed_once_example = relayed_once gossip_boot (heard_3 ∷ heard_3 ∷ []) refl

-- A directive for element 1, received twice.
abbrev order : DirectiveFrame ℕ
order = record {
  src_id = 0;
  target_id = 1;
  type = 1;
  x = 4;
  y = 5;
  z = 6;
  spring_k = 1;
  spacing = 2;
  goal_id = 8;
  seq = 12;
  version = wire_version;
}

abbrev orders : List (List ℕ)
orders = encode_directive order ∷ encode_directive order ∷ []

poll_directive_lem_example :
    let accepted = passed (replay_gate {F = ℕ} open_build 1) gossip_boot orders in
    ((poll_directive {F = ℕ} open_build 1 gossip_boot orders).1 ≡ latest open_build none accepted)
    × StampsGrow (replay_gate {F = ℕ} open_build 1) accepted
poll_directive_lem_example = poll_directive_lem open_build 1 gossip_boot orders (refl, refl)

-- A code of a frame's first byte and three more, and a frame of two bytes with it.
abbrev first_code : List ℕ → Option (List ℕ)
first_code [] = some (0 ∷ 1 ∷ 2 ∷ 3 ∷ [])
first_code (b ∷ bs) = some (b ∷ 1 ∷ 2 ∷ 3 ∷ [])

abbrev tagged : List ℕ
tagged = 9 ∷ 7 ∷ 9 ∷ 1 ∷ 2 ∷ 3 ∷ 5 ∷ []

unseal_takes_frames_example :
    ((unseal (some first_code) 2 tagged ≡ some (9 ∷ 7 ∷ []))
      ↔ IsFramed (some first_code) 2 tagged (9 ∷ 7 ∷ []))
    × (length tagged < 2 → unseal (some first_code) 2 tagged ≡ none)
unseal_takes_frames_example = unseal_takes_frames (some first_code) 2 tagged (9 ∷ 7 ∷ [])
