-- ===== src/Gossip/RelayOnce.antt =====
-- The relay's clocks as a gate: no frame is relayed twice.
use tapestry.Prelude.{
  ℕ, zero, suc, ◌+◌, ◌≤◌, ◌≡◌, refl, ap, ◌∙◌, inl, inr, true, false, List, [], ◌∷◌, arith,
  Bool-cases, length, set, length-set, get_elem?-set_self, Bool, count, if◌then◌else◌, ◌++◌, ◌<◌,
  map, leb, sym, length-append, append_nil,
}
use mathlib.Core.List.{append_assoc}
use tapestry.Facts.Types.{max_elements}
use tapestry.Wire.Frames.{GossipFrame}
use tapestry.Gossip.Types.{Gossip}
use tapestry.Gossip.Gate.{Gate, passed, StampsGrow, passed-StampsGrow}
use tapestry.Gossip.Relay.{
  relay_queue_depth, clock_at, stored, worst, relay_enqueue, should_relay, relay,
}

-- A frame that gossip_drain() hands to the relay, with the readings of that moment.
pub record Heard (F : Type 0) : Type 0 where
  pub frame : GossipFrame F
  pub now : ℕ
  pub rnd : ℕ

pub clock_at-set_self :
    (clocks : List ℕ) (id clock : ℕ)
    → id < length clocks
    → clock_at (set clocks id clock) id ≡ clock
clock_at-set_self clocks id clock h = rw (clock_at, get_elem?-set_self clocks id clock h) refl

-- A write of a greater clock lowers none.
clock_at-set :
    (clocks : List ℕ) (id clock k : ℕ)
    → clock_at clocks id < clock
    → clock_at clocks k ≤ clock_at (set clocks id clock) k
clock_at-set [] id clock k h = omega arith
clock_at-set (c ∷ cs) zero clock zero h = omega (arith, h)
clock_at-set (c ∷ cs) zero clock (suc k) h = omega arith
clock_at-set (c ∷ cs) (suc id) clock zero h = omega arith
clock_at-set (c ∷ cs) (suc id) clock (suc k) h = clock_at-set cs id clock k h

-- A write brings at most the item written.
count-set_le :
    {A : Type 0} (p : A → Bool) (xs : List A) (i : ℕ) (x : A)
    → count p (set xs i x) ≤ count p xs + (if p x then 1 else 0)
unfolding count
count-set_le p [] i x = omega arith
count-set_le p (y ∷ xs) zero x = ground arith
count-set_le p (y ∷ xs) (suc i) x = omega (arith, count-set_le p xs i x)

count-snoc :
    {A : Type 0} (p : A → Bool) (xs : List A) (x : A)
    → count p (xs ++ (x ∷ [])) ≡ count p xs + (if p x then 1 else 0)
unfolding count
count-snoc p [] x = ground arith
count-snoc p (y ∷ xs) x = omega (arith, count-snoc p xs x)

module _ {F : Type 0} where
  relay_clock-relay_enqueue :
      (now rnd : ℕ) (g : Gossip F) (f : GossipFrame F)
      → (relay_enqueue now rnd g f).relay_clock ≡ g.relay_clock
  unfolding relay_enqueue
  relay_clock-relay_enqueue now rnd g f = ground arith

  pub relay_clock-relay :
      (now rnd : ℕ) (g : Gossip F) (f : GossipFrame F)
      → should_relay g f ≡ true
      → (relay now rnd g f).relay_clock ≡ set g.relay_clock f.id f.logical_clock
  unfolding relay
  relay_clock-relay now rnd g f e = rw (relay, e) (relay_clock-relay_enqueue now rnd _ f)

  relay_clock-kept :
      (now rnd : ℕ) (g : Gossip F) (f : GossipFrame F)
      → should_relay g f ≡ false
      → (relay now rnd g f).relay_clock ≡ g.relay_clock
  unfolding relay
  relay_clock-kept now rnd g f e = rw (relay, e) refl

  pub is_new :
      (g : Gossip F) (f : GossipFrame F)
      → should_relay g f ≡ true
      → (f.id < max_elements) × (clock_at g.relay_clock f.id < f.logical_clock)
  unfolding should_relay
  is_new g f e = (ground arith, ground arith)

  abbrev pub step : Gossip F → Heard F → Gossip F
  step g h = relay h.now h.rnd g h.frame

  -- One clock for each element.
  abbrev pub HasClocks : Gossip F → Type 0
  HasClocks g = length g.relay_clock ≡ max_elements

  pub step-HasClocks : (g : Gossip F) (h : Heard F) → HasClocks g → HasClocks (step g h)
  step-HasClocks g h n = elim (Bool-cases (should_relay g h.frame)) [
    | inl e ↦
        ap length (relay_clock-relay h.now h.rnd g h.frame e)
        ∙ length-set g.relay_clock h.frame.id h.frame.logical_clock
        ∙ n
    | inr e ↦ ap length (relay_clock-kept h.now h.rnd g h.frame e) ∙ n
  ]

  pub clock_at-step :
      (g : Gossip F) (h : Heard F) (k : ℕ)
      → clock_at g.relay_clock k ≤ clock_at (step g h).relay_clock k
  clock_at-step g h k = elim (Bool-cases (should_relay g h.frame)) [
    | inl e ↦
        rw (relay_clock-relay h.now h.rnd g h.frame e)
          (clock_at-set g.relay_clock h.frame.id h.frame.logical_clock k (is_new g h.frame e).1)
    | inr e ↦ omega (arith, ap (λ c. clock_at c k) (relay_clock-kept h.now h.rnd g h.frame e))
  ]

  -- The source of a frame is its element, and its stamp the logical clock.
  abbrev pub relay_gate : Gate (Gossip F) (Heard F)
  relay_gate = record {
    step = step;
    passes = λ g h. should_relay g h.frame;
    source = λ h. h.frame.id;
    stamp = λ h. h.frame.logical_clock;
    mark = λ g k. clock_at g.relay_clock k + 1;
    IsSized = HasClocks;
    step_sized = step-HasClocks;
    passes_new = λ g h e. omega (arith, (is_new g h.frame e).1);
    mark_grows = λ g h k n. omega (arith, clock_at-step g h k);
    mark_passed = λ g h n e.
        let small : h.frame.id < length g.relay_clock = omega (arith, n, (is_new g h.frame e).0) in
        omega (
          arith,
          ap (λ c. clock_at c h.frame.id) (relay_clock-relay h.now h.rnd g h.frame e),
          clock_at-set_self g.relay_clock h.frame.id h.frame.logical_clock small,
        );
  }

  -- The state after frames are heard.
  abbrev pub after : Gossip F → List (Heard F) → Gossip F
  after g [] = g
  after g (h ∷ hs) = after (step g h) hs

  -- At most the frame itself comes to the queue.
  count-relay_enqueue :
      (p : GossipFrame F → Bool) (now rnd : ℕ) (g : Gossip F) (f : GossipFrame F)
      → count p (relay_enqueue now rnd g f).relay_q
        ≤ count p g.relay_q + (if p (stored f) then 1 else 0)
  unfolding relay_enqueue
  count-relay_enqueue p now rnd g f = ground (
    arith,
    count-set_le p g.relay_q (worst g.relay_q).0 (stored f),
    count-snoc p g.relay_q (stored f),
  )

  queue-step :
      (p : GossipFrame F → Bool) (g : Gossip F) (h : Heard F)
      → count p (step g h).relay_q
        ≤ count p g.relay_q
          + (if should_relay g h.frame then (if p (stored h.frame) then 1 else 0) else 0)
  unfolding relay
  queue-step p g h = elim (Bool-cases (should_relay g h.frame)) [
    | inl e ↦ rw (relay, e) (count-relay_enqueue p h.now h.rnd _ h.frame)
    | inr e ↦ rw (relay, e) (omega arith)
  ]

  queue-after :
      (p : GossipFrame F → Bool) (g : Gossip F) (heard : List (Heard F))
      → count p (after g heard).relay_q
        ≤ count p g.relay_q + count (λ h. p (stored h.frame)) (passed relay_gate g heard)
  unfolding passed count
  queue-after p g [] = omega arith
  queue-after p g (h ∷ hs) = elim (Bool-cases (should_relay g h.frame)) [
    | inl e ↦ rw e (omega (arith, rw e at (queue-step p g h), queue-after p (step g h) hs))
    | inr e ↦ rw e (omega (arith, rw e at (queue-step p g h), queue-after p (step g h) hs))
  ]

  -- A frame comes to the end of a queue that has room.
  queue-room :
      (g : Gossip F) (h : Heard F)
      → should_relay g h.frame ≡ true
      → length g.relay_q < relay_queue_depth
      → (step g h).relay_q ≡ g.relay_q ++ (stored h.frame ∷ [])
  unfolding relay relay_enqueue
  queue-room g h e room =
      let r : leb relay_queue_depth (length g.relay_q) ≡ false = ground arith in
      rw (relay, e, relay_enqueue, r) refl

  passed_end : (g : Gossip F) → passed relay_gate g [] ≡ []
  unfolding passed
  passed_end g = refl

  passed_new :
      (g : Gossip F) (h : Heard F) (hs : List (Heard F))
      → should_relay g h.frame ≡ true
      → passed relay_gate g (h ∷ hs) ≡ h ∷ passed relay_gate (step g h) hs
  unfolding passed
  passed_new g h hs e = rw e refl

  passed_old :
      (g : Gossip F) (h : Heard F) (hs : List (Heard F))
      → should_relay g h.frame ≡ false
      → passed relay_gate g (h ∷ hs) ≡ passed relay_gate (step g h) hs
  unfolding passed
  passed_old g h hs e = rw e refl

  queue-kept :
      (g : Gossip F) (h : Heard F) → should_relay g h.frame ≡ false → (step g h).relay_q ≡ g.relay_q
  unfolding relay
  queue-kept g h e = rw (relay, e) refl

  queue-after_room :
      (g : Gossip F) (heard : List (Heard F))
      → length g.relay_q + length (passed relay_gate g heard) ≤ relay_queue_depth
      → (after g heard).relay_q ≡ g.relay_q ++ map (λ h. stored h.frame) (passed relay_gate g heard)
  queue-after_room g [] room = rw (passed_end g) (sym (append_nil g.relay_q))
  queue-after_room g (h ∷ hs) room =
      let tail : List (GossipFrame F) =
        map (λ h'. stored h'.frame) (passed relay_gate (step g h) hs) in
      elim (Bool-cases (should_relay g h.frame)) [
        | inl e ↦
            (let p = passed_new g h hs e in
              let one = queue-room g h e (omega (arith, room, ap length p)) in
              let n = ap length one ∙ length-append g.relay_q (stored h.frame ∷ []) in
              rw p (
                queue-after_room (step g h) hs (omega (arith, n, room, ap length p))
                ∙ ap (λ q. q ++ tail) one
                ∙ append_assoc g.relay_q (stored h.frame ∷ []) tail))
        | inr e ↦
            (let p = passed_old g h hs e in
              let same = queue-kept g h e in
              rw p (
                queue-after_room (step g h) hs (omega (arith, ap length same, room, ap length p))
                ∙ ap (λ q. q ++ tail) same))
      ]

  -- Whatever frames are heard, in whatever order and however often, the queue gains no frame but those
  -- that pass the relay's check, each once at most and with one hop less: of any kind of frame it
  -- holds no more afterwards than before and passed.  If the queue has room for all that pass, it gains
  -- exactly them, in their order.  Of those that pass, each one has a greater logical clock than all
  -- before it from the same element: no state of an element is queued twice.  The condition is that there
  -- is a clock for each element.
  pub relayed_once :
      (g : Gossip F) (heard : List (Heard F))
      → HasClocks g
      → StampsGrow relay_gate (passed relay_gate g heard)
        × ((p : GossipFrame F → Bool)
            → count p (after g heard).relay_q
              ≤ count p g.relay_q + count (λ h. p (stored h.frame)) (passed relay_gate g heard))
        × (length g.relay_q + length (passed relay_gate g heard) ≤ relay_queue_depth
            → (after g heard).relay_q
              ≡ g.relay_q ++ map (λ h. stored h.frame) (passed relay_gate g heard))
  relayed_once g heard n =
      (passed-StampsGrow relay_gate g heard n, λ p. queue-after p g heard, queue-after_room g heard)
