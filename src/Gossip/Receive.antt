-- ===== src/Gossip/Receive.antt =====
-- A frame from one element to another.
use tapestry.Prelude.{
  ℕ, ◌≡◌, refl, sym, ap, ◌∙◌, ◌≢◌, inl, inr, true, false, List, [], ◌∷◌, Option, none, some, arith,
  ◌==◌, Bool-cases, length, append_nil,
}
use tapestry.WorldModel.Types.{ElementState}
use tapestry.WorldModel.Ops.{receive_gossip}
use tapestry.Wire.Auth.{seal, unseal, unseal-seal}
use tapestry.Wire.Bytes.{size_of}
use tapestry.Wire.Layout.{FloatBits, gossip_layout, encode_gossip, decode_gossip}
use tapestry.Wire.RoundTrip.{Exact, GossipFits, decode_gossip-encode_gossip, length-encode_gossip}
use tapestry.Gossip.Types.{Build, Node, transmit}
use tapestry.Gossip.Drain.{
  RelayReadings, frame_of, received_of, drain_frame, gossip_send, gossip_in, drain_buf,
}

-- What is transmitted is sealed.
pub seal-transmit :
    (b : Build) (body sent : List ℕ) → transmit b body ≡ sent ∷ [] → seal b.auth body ≡ some sent
unfolding transmit
seal-transmit b body sent h = look (seal b.auth body) h
  where
    look :
        (o : Option (List ℕ)) → elim o [ none ↦ [] | some s ↦ s ∷ [] ] ≡ sent ∷ [] → o ≡ some sent
    look none h = ground arith
    look (some s) h = ground arith

-- A receiver with the same key takes out of the buffer what was transmitted.
pub unseal-transmit :
    (b b' : Build) (body sent : List ℕ)
    → b'.auth ≡ b.auth
    → transmit b body ≡ sent ∷ []
    → unseal b'.auth (length body) sent ≡ some body
unseal-transmit b b' body sent same h =
    rw same (unseal-seal b.auth body sent (seal-transmit b body sent h))

module _ {F : Type 0} where
  -- What of a state crosses the wire.
  abbrev pub as_received : ElementState F → ElementState F
  as_received own = record own { partition_island = 0; discovered = false }

  received_of-frame_of :
      (b : Build) (own : ElementState F) (qos : ℕ)
      → received_of (frame_of b own qos) ≡ as_received own
  unfolding received_of frame_of
  received_of-frame_of b own qos = elim (Bool-cases own.goal_achieved) [
    | inl e ↦ rw e refl
    | inr e ↦ rw e refl
  ]

module _ {F : Type 0} ⦃fb : FloatBits F⦄ where
  gossip_in-gossip_send :
      (b b' : Build) (own : ElementState F) (qos : ℕ) (sent : List ℕ)
      → Exact fb
      → GossipFits (frame_of b own qos)
      → b'.auth ≡ b.auth
      → gossip_send b own qos ≡ sent ∷ []
      → gossip_in b' sent ≡ some (frame_of b own qos)
  unfolding gossip_in gossip_send
  gossip_in-gossip_send b b' own qos sent exact fits same h =
      let f = frame_of b own qos in
      let got = unseal-transmit b b' (encode_gossip f) sent same h in
      let n : length (encode_gossip f) ≡ size_of gossip_layout = length-encode_gossip f fits in
      let got' : unseal b'.auth (size_of gossip_layout) sent ≡ some (encode_gossip f) =
        ap (λ k. unseal b'.auth k sent) (sym n) ∙ got in
      rw (gossip_in, got')
        (ap decode_gossip (sym (append_nil (encode_gossip f)))
          ∙ decode_gossip-encode_gossip f [] exact fits)

  -- A frame that one element sends, and another one with the same key receives, is counted, and is
  -- merged into the receiver's world model as the sender's state, with the two fields that do not
  -- cross the wire reset.  The receiver has another id, the state's values fit the frame's fields,
  -- and a float comes back from its bit pattern.
  pub drain_buf-gossip_send :
      (b b' : Build) (own : ElementState F) (qos own_id : ℕ) (r : RelayReadings) (node : Node F)
      (sent : List ℕ)
      → Exact fb
      → GossipFits (frame_of b own qos)
      → b'.auth ≡ b.auth
      → own.id ≢ own_id
      → gossip_send b own qos ≡ sent ∷ []
      → let (node', counted) = drain_buf b' own_id r node sent in
        (counted ≡ true) × (node'.wm ≡ (receive_gossip node.wm (as_received own)).0)
  unfolding drain_buf drain_frame frame_of
  drain_buf-gossip_send b b' own qos own_id r node sent exact fits same other h =
      let got = gossip_in-gossip_send b b' own qos sent exact fits same h in
      let e : (own.id == own_id) ≡ false = ground arith in
      rw (drain_buf, got, drain_frame, frame_of, e)
        (refl, ap (λ s. (receive_gossip node.wm s).0) (received_of-frame_of b own qos))
