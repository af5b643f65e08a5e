-- ===== src/Wire/Layout.antt =====
-- The frames in memory: the fields' widths in the order of wire.h, and a frame's values in that
-- order.  A float's bytes are those of its bit pattern.
use tapestry.Prelude.{ℕ, List, [], ◌∷◌, Option, none, some}
use tapestry.Facts.Types.{Fact}
use tapestry.Wire.Bytes.{put_fields, decode_fields}
use tapestry.Wire.Frames.{GossipFrame, DirectiveFrame, FactFrame}

-- A float's bit pattern, and the float of a pattern.
pub record FloatBits (F : Type 0) : Type 0 where
  pub to_bits : F → ℕ
  pub of_bits : ℕ → F

-- For tests: a whole number is its own pattern.
instance abbrev pub whole_bits : FloatBits ℕ
whole_bits = record { to_bits = λ x. x; of_bits = λ n. n }

-- '<BfffffffIIBHBBBBBBBB', '<BBBfffffHIB' and '<BBHBBHBBIfffHBBHBBIfffHB'
abbrev pub gossip_layout : List ℕ
gossip_layout = 1 ∷ 4 ∷ 4 ∷ 4 ∷ 4 ∷ 4 ∷ 4 ∷ 4 ∷ 4 ∷ 4 ∷ 1 ∷ 2 ∷ 1 ∷ 1 ∷ 1 ∷ 1 ∷ 1 ∷ 1 ∷ 1 ∷ 1 ∷ []

abbrev pub directive_layout : List ℕ
directive_layout = 1 ∷ 1 ∷ 1 ∷ 4 ∷ 4 ∷ 4 ∷ 4 ∷ 4 ∷ 2 ∷ 4 ∷ 1 ∷ []

abbrev pub fact_layout : List ℕ
fact_layout =
    1 ∷ 1 ∷ 2 ∷ 1 ∷ 1 ∷ 2 ∷ 1 ∷ 1 ∷ 4 ∷ 4 ∷ 4 ∷ 4 ∷ 2 ∷ 1 ∷ 1 ∷ 2 ∷ 1 ∷ 1 ∷ 4 ∷ 4 ∷ 4 ∷ 4 ∷ 2 ∷ 1
    ∷ []

module _ {F : Type 0} ⦃fb : FloatBits F⦄ where
  abbrev pub gossip_values : GossipFrame F → List ℕ
  gossip_values f =
      f.id
      ∷ fb.to_bits f.x
      ∷ fb.to_bits f.y
      ∷ fb.to_bits f.z
      ∷ fb.to_bits f.qw
      ∷ fb.to_bits f.qx
      ∷ fb.to_bits f.qy
      ∷ fb.to_bits f.qz
      ∷ f.logical_clock
      ∷ f.update_seq
      ∷ f.energy_level
      ∷ f.health_flags
      ∷ f.relay_qos
      ∷ f.achieved
      ∷ f.current_track
      ∷ f.reserved0
      ∷ f.reserved1
      ∷ f.reserved2
      ∷ f.reserved3
      ∷ f.version
      ∷ []

  abbrev pub gossip_of : List ℕ → Option (GossipFrame F)
  gossip_of
        (i ∷ x ∷ y ∷ z ∷ qw ∷ qx ∷ qy ∷ qz ∷ clock ∷ seq ∷ energy ∷ health ∷ relay ∷ achieved
          ∷ track ∷ a ∷ b ∷ c ∷ d ∷ version ∷ []) =
      some (record {
        id = i;
        x = fb.of_bits x;
        y = fb.of_bits y;
        z = fb.of_bits z;
        qw = fb.of_bits qw;
        qx = fb.of_bits qx;
        qy = fb.of_bits qy;
        qz = fb.of_bits qz;
        logical_clock = clock;
        update_seq = seq;
        energy_level = energy;
        health_flags = health;
        relay_qos = relay;
        achieved = achieved;
        current_track = track;
        reserved0 = a;
        reserved1 = b;
        reserved2 = c;
        reserved3 = d;
        version = version;
      })
  gossip_of _ = none

  abbrev pub directive_values : DirectiveFrame F → List ℕ
  directive_values f =
      f.src_id
      ∷ f.target_id
      ∷ f.type
      ∷ fb.to_bits f.x
      ∷ fb.to_bits f.y
      ∷ fb.to_bits f.z
      ∷ fb.to_bits f.spring_k
      ∷ fb.to_bits f.spacing
      ∷ f.goal_id
      ∷ f.seq
      ∷ f.version
      ∷ []

  abbrev pub directive_of : List ℕ → Option (DirectiveFrame F)
  directive_of (src ∷ target ∷ type ∷ x ∷ y ∷ z ∷ k ∷ spacing ∷ goal ∷ seq ∷ version ∷ []) =
      some (record {
        src_id = src;
        target_id = target;
        type = type;
        x = fb.of_bits x;
        y = fb.of_bits y;
        z = fb.of_bits z;
        spring_k = fb.of_bits k;
        spacing = fb.of_bits spacing;
        goal_id = goal;
        seq = seq;
        version = version;
      })
  directive_of _ = none

  abbrev fact_values : Fact F → List ℕ → List ℕ
  fact_values r rest =
      r.key.type
      ∷ r.key.origin
      ∷ r.key.epoch
      ∷ r.key.seq
      ∷ r.flags
      ∷ r.stamp
      ∷ fb.to_bits r.pos.x
      ∷ fb.to_bits r.pos.y
      ∷ fb.to_bits r.pos.z
      ∷ r.attr
      ∷ rest

  abbrev pub fact_frame_values : FactFrame F → List ℕ
  fact_frame_values f =
      f.sender_id ∷ f.count ∷ f.digest ∷ fact_values f.r0 (fact_values f.r1 (f.version ∷ []))

  abbrev fact_of : ℕ → ℕ → ℕ → ℕ → ℕ → ℕ → ℕ → ℕ → ℕ → ℕ → Fact F
  fact_of type origin epoch seq flags stamp x y z attr = record {
    key = record { type = type; origin = origin; epoch = epoch; seq = seq };
    flags = flags;
    stamp = stamp;
    pos = record { x = fb.of_bits x; y = fb.of_bits y; z = fb.of_bits z };
    attr = attr;
  }

  abbrev pub fact_frame_of : List ℕ → Option (FactFrame F)
  fact_frame_of
        (sender ∷ count ∷ digest ∷ t0 ∷ o0 ∷ e0 ∷ s0 ∷ f0 ∷ c0 ∷ x0 ∷ y0 ∷ z0 ∷ a0 ∷ t1 ∷ o1 ∷ e1
          ∷ s1 ∷ f1 ∷ c1 ∷ x1 ∷ y1 ∷ z1 ∷ a1 ∷ version ∷ []) =
      some (record {
        sender_id = sender;
        count = count;
        digest = digest;
        r0 = fact_of t0 o0 e0 s0 f0 c0 x0 y0 z0 a0;
        r1 = fact_of t1 o1 e1 s1 f1 c1 x1 y1 z1 a1;
        version = version;
      })
  fact_frame_of _ = none

  -- memcpy() from and to the structs; a buffer that is too short is not read.
  unfoldable pub encode_gossip : GossipFrame F → List ℕ
  encode_gossip f = put_fields gossip_layout (gossip_values f)

  unfoldable pub decode_gossip : List ℕ → Option (GossipFrame F)
  decode_gossip = decode_fields gossip_layout gossip_of

  unfoldable pub encode_directive : DirectiveFrame F → List ℕ
  encode_directive f = put_fields directive_layout (directive_values f)

  unfoldable pub decode_directive : List ℕ → Option (DirectiveFrame F)
  decode_directive = decode_fields directive_layout directive_of

  unfoldable pub encode_fact : FactFrame F → List ℕ
  encode_fact f = put_fields fact_layout (fact_frame_values f)

  unfoldable pub decode_fact : List ℕ → Option (FactFrame F)
  decode_fact = decode_fields fact_layout fact_frame_of
