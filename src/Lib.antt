-- ===== src/Lib.antt =====
-- Tapestry: a model of the parts of tapestry-os that keep the state of a swarm of robots, and what
-- holds of it.
--
-- Each element (robot) keeps a world model: an entry for every element of the swarm, written by gossip
-- and aged by a periodic tick, and beside it a small replicated table of shared facts (targets, zones,
-- hazards).  The swarm coordination layer reads the world model on every tick, and decides, without a
-- message of its own, whether the swarm has quorum, whether to abort, who leads and which task slot
-- the element has.
--
-- Facts is tapestry-os/subsys/csm/facts.c, with the types of tapestry-os/include/tapestry/csm.h.
-- Facts/Types has the records, Order the two orders (rank_cmp(), evict_cmp()), Table the slots: lookup,
-- eviction, admit() and nearby_duplicate().  Merge is wm_fact_receive(), Publish wm_fact_publish(),
-- wm_fact_retract() and wm_fact_tick(), Trickle the send timer, Query the digest, wm_fact_pack() and
-- the reads.  The table in the C code is part of the world model and is changed in place; here each
-- operation takes the record Facts and gives it back with its result.  A pointer to a slot is the
-- slot's place with the slot.  The search for nearby duplicates, a loop without a bound in
-- merge_record(), has fuel: one more than the number of slots, which is enough since each round clears
-- a slot in use, as Facts/Clearing shows.
--
-- WorldModel is tapestry-os/subsys/csm/world_model.c: Types the records, Ops the writes to an entry,
-- Cycle the metric and the operations that recompute it, Queries the reads.  The array of entries is a
-- list of MAX_ELEMENTS, read and written at an index.
--
-- Scr is tapestry-os/subsys/scr/scr.c: Types its state, Tick the steps of scr_tick() in the order of
-- the code's own numbering.  The hook on_tick is the caller's, and the model says whether it is called.
--
-- Wire is tapestry-os/include/tapestry/wire.h: Bytes reads and writes packed little-endian structs,
-- Frames has the frames' structs, Layout their fields' widths and values, RoundTrip what decoding gives
-- back.  A float crosses as its bit pattern, by the interface FloatBits.  Auth is the tag of gossip.c
-- that stands behind a frame; the message authentication code under the deployment's key, which comes
-- from the crypto library, is a parameter, as any function from bytes that may fail.  The bytewise
-- comparison in constant time is a plain comparison.  Gates is what passes it, in both builds.  The C code
-- reads a struct through a cast or a memcpy() once the buffer's length has been checked; the model's
-- decode_gossip() and its like do that field by field, and give none where there is not enough.
--
-- Gossip is tapestry-os/subsys/transport/gossip.c: Types its static storage, Drain gossip_send() and the
-- loop of gossip_drain(), Relay the queue of frames to relay, Directive and FactFrames the other two
-- frame kinds, Cycle the duties of facts_cycle() and the whole of gossip_drain() with transport.c's
-- transport_drain(), Discovery the frames of the auto-ID window.  What the transceivers' rx() functions
-- give before they answer 0 is a list of buffers, in the order of the registry; what a tx() is given is
-- a result.  The uptime and the random numbers that the code reads are arguments.  Gate is what the
-- relay's duplicate suppression (RelayOnce) and the directives' replay defence (Replay) have in common.
--
-- Uart is tapestry-os/subsys/transport/transceiver_uart.c: Bus the framing, the receiver that takes one
-- byte at a time, and the echo ring; Bounds, Parse and Delivery its theorems.  The kernel's message queue
-- is the interface Msgq.  A transmission is a list of bytes, and a reception is a list of bytes each with
-- the uptime at which it comes.
--
-- Runtime is tapestry-os/subsys/runtime: Power is power.c, with the calls of the operating system as a
-- list, and Cycle is runtime.c, which composes the other parts into one tick.  The transport, the
-- choreography and the substrate, which the tick calls, are the interface Services over a state of
-- their own.
--
-- Transport is the auto-ID negotiation of tapestry-os/subsys/transport/transport.c, with
-- auto_id_nonce.h, in a build without CONFIG_BT: Negotiate has the window, a list of cycles each with the
-- buffers received in it, and the choice of the id; Ids and Peers have its theorems.
--
-- Choreo is tapestry-os/subsys/choreo/choreo.c with sdk/include/tapestry/choreo.h, over the
-- interface Engine for the behaviour engine.  Choreo/State has its static storage, with the state of
-- the engine as a field; Goals has goals, the capabilities that they need and their intents, Steps
-- the steps of a script and tracks.  Lifecycle configures, deploys, preempts, terminates and submits
-- goals, Scripts validates and starts scripts and goes on to a step, Events has what transitions
-- react to, Departures the departure policy, Selection the tracks, Membership the debounce of the
-- collective's count, Remote the directives from another host, and Cycle choreo_tick().  The answer
-- of the recall callback is an input of a tick.  Where C would read a step outside its script, the
-- model does nothing.  Sound, Kept, Loading, TrackLoading, Migration and Ticking carry an invariant
-- to Reach; the other files have theorems.
--
-- Bse is tapestry-os/subsys/bse/bse.c with its constants in tapestry-os/include/tapestry/bse.h:
-- Types has the static storage, Participants collect_participants(), Anchors the frames of a goal,
-- Exchange the arcs of EXCHANGE, Slots and Assign the slots of FORM and who takes them, Intents what
-- comes, goes and is parked, Tick bse_tick() with Achieve for its end.  What the file calls of
-- <math.h> is the record TrigOps.  The loop that makes an angle positive runs at most twice, since
-- two results of atan2f() differ by a full turn at most; the loops of the assignment run at most
-- once for each column, with one to spare.  A read of an array there gives a zero out of range.
-- Leaves and Kept have what a tick leaves alone, Served the interface Engine filled with these
-- operations, and Serving, Retargeting, Pursuit and Composition carry what the engine serves through
-- the whole of choreo.c.
--
-- Numbers are natural numbers, an unsigned field of w bits being reduced by % 2 ^ w where the code may
-- wrap.  A bit of a flag word is read by division.  C's float is a parameter, the type F with the
-- operations of the interface Prelude/Floats, of which no law is assumed but where a theorem names one
-- (the order of distances in WorldModel/Queries): the rest holds for whatever distances and ratios the
-- hardware computes.  The Kconfig values are the record Config.  The test modules take whole numbers
-- for floats.
--
-- Prelude has the names, lists, insertion sort and lexicographic order that the parts share.
--
-- Not modelled: the radio and network drivers and the boards, which are I/O; logging and its counters;
-- the telemetry frames.
pub mod Prelude
pub mod Facts
pub mod WorldModel
pub mod Scr
pub mod Runtime
pub mod Wire
pub mod Gossip
pub mod Uart
pub mod Transport
pub mod Choreo
pub mod Bse
