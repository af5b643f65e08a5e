-- ===== src/Wire/RoundTrip.antt =====
-- What is decoded is what was encoded.
use tapestry.Prelude.{ℕ, ◌≡◌, refl, ◌∙◌, List, ◌++◌, some, length}
use tapestry.Wire.Bytes.{Fits, length-put_fields, decode_fields-put_fields}
use tapestry.Wire.Frames.{GossipFrame, DirectiveFrame, FactFrame}
use tapestry.Wire.Layout.{
  FloatBits, gossip_layout, directive_layout, fact_layout, gossip_values, directive_values,
  fact_frame_values, encode_gossip, decode_gossip, encode_directive, decode_directive, encode_fact,
  decode_fact, gossip_of, directive_of, fact_frame_of,
}

-- A float comes back from its bit pattern.
abbrev pub Exact : {F : Type 0} → FloatBits F → Type 0
Exact fb = (x : _) → fb.of_bits (fb.to_bits x) ≡ x

module _ {F : Type 0} ⦃fb : FloatBits F⦄ where
  -- Every value is within its field's width.
  abbrev pub GossipFits : GossipFrame F → Type 0
  GossipFits f = Fits gossip_layout (gossip_values f)

  abbrev pub DirectiveFits : DirectiveFrame F → Type 0
  DirectiveFits f = Fits directive_layout (directive_values f)

  abbrev pub FactFits : FactFrame F → Type 0
  FactFits f = Fits fact_layout (fact_frame_values f)

  gossip_of-values : (f : GossipFrame F) → Exact fb → gossip_of (gossip_values f) ≡ some f
  gossip_of-values f exact =
      rw (exact f.x, exact f.y, exact f.z, exact f.qw, exact f.qx, exact f.qy, exact f.qz) refl

  directive_of-values :
      (f : DirectiveFrame F) → Exact fb → directive_of (directive_values f) ≡ some f
  directive_of-values f exact =
      rw (exact f.x, exact f.y, exact f.z, exact f.spring_k, exact f.spacing) refl

  fact_frame_of-values : (f : FactFrame F) → Exact fb → fact_frame_of (fact_frame_values f) ≡ some f
  fact_frame_of-values f exact =
      rw
        (
          exact f.r0.pos.x,
          exact f.r0.pos.y,
          exact f.r0.pos.z,
          exact f.r1.pos.x,
          exact f.r1.pos.y,
          exact f.r1.pos.z,
        )
        refl

  -- A gossip frame whose values fit their fields is decoded to itself, whatever bytes follow it, if
  -- a float comes back from its bit pattern.
  pub decode_gossip-encode_gossip :
      (f : GossipFrame F) (rest : List ℕ)
      → Exact fb
      → GossipFits f
      → decode_gossip (encode_gossip f ++ rest) ≡ some f
  unfolding decode_gossip encode_gossip
  decode_gossip-encode_gossip f rest exact fits =
      decode_fields-put_fields gossip_layout gossip_of (gossip_values f) rest fits
      ∙ gossip_of-values f exact

  -- A directive frame whose values fit their fields is decoded to itself, whatever bytes follow it,
  -- if a float comes back from its bit pattern.
  pub decode_directive-encode_directive :
      (f : DirectiveFrame F) (rest : List ℕ)
      → Exact fb
      → DirectiveFits f
      → decode_directive (encode_directive f ++ rest) ≡ some f
  unfolding decode_directive encode_directive
  decode_directive-encode_directive f rest exact fits =
      decode_fields-put_fields directive_layout directive_of (directive_values f) rest fits
      ∙ directive_of-values f exact

  -- A fact frame whose values fit their fields is decoded to itself, whatever bytes follow it, if a
  -- float comes back from its bit pattern.
  pub decode_fact-encode_fact :
      (f : FactFrame F) (rest : List ℕ)
      → Exact fb
      → FactFits f
      → decode_fact (encode_fact f ++ rest) ≡ some f
  unfolding decode_fact encode_fact
  decode_fact-encode_fact f rest exact fits =
      decode_fields-put_fields fact_layout fact_frame_of (fact_frame_values f) rest fits
      ∙ fact_frame_of-values f exact

  pub length-encode_gossip : (f : GossipFrame F) → GossipFits f → length (encode_gossip f) ≡ 48
  unfolding encode_gossip
  length-encode_gossip f fits = length-put_fields gossip_layout (gossip_values f) fits

  pub length-encode_directive :
      (f : DirectiveFrame F) → DirectiveFits f → length (encode_directive f) ≡ 30
  unfolding encode_directive
  length-encode_directive f fits = length-put_fields directive_layout (directive_values f) fits

  pub length-encode_fact : (f : FactFrame F) → FactFits f → length (encode_fact f) ≡ 53
  unfolding encode_fact
  length-encode_fact f fits = length-put_fields fact_layout (fact_frame_values f) fits
