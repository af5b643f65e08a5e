-- ===== src/Gossip/Directive.antt =====
-- gossip.c, directive frames: gossip_send_directive() and gossip_poll_directive().
use tapestry.Prelude.{
  ℕ, Bool, true, false, not, ◌&&◌, ◌||◌, List, [], ◌∷◌, Option, none, some, ltb, leb, ◌==◌,
  if◌then◌else◌, get_elem?, set,
}
use tapestry.Facts.Types.{max_elements}
use tapestry.Wire.Auth.{unseal}
use tapestry.Wire.Bytes.{size_of}
use tapestry.Wire.Frames.{DirectiveFrame, wire_version, target_all, directive_type_max}
use tapestry.Wire.Layout.{FloatBits, directive_layout, encode_directive, decode_directive}
use tapestry.Gossip.Types.{Build, Gossip, transmit}

-- An element of a flag table; the code reads none out of bounds.
abbrev pub flag_at : List Bool → ℕ → Bool
flag_at flags i = elim (get_elem? flags i) [ none ↦ false | some flag ↦ flag ]

abbrev pub value_at : List ℕ → ℕ → ℕ
value_at values i = elim (get_elem? values i) [ none ↦ 0 | some value ↦ value ]

module _ {F : Type 0} where
  -- The gates of gossip_poll_directive() behind the decoding: version, addressee, type and source.
  unfoldable pub is_for : ℕ → DirectiveFrame F → Bool
  is_for own_id d =
      (d.version == wire_version)
      && ((d.target_id == own_id || d.target_id == target_all)
          && (leb d.type directive_type_max && ltb d.src_id max_elements))

  -- The replay gate.
  unfoldable pub is_replay : Gossip F → DirectiveFrame F → Bool
  is_replay g d = flag_at g.dir_seq_seen d.src_id && leb d.seq (value_at g.dir_last_seq d.src_id)

  unfoldable pub accepts : ℕ → Gossip F → DirectiveFrame F → Bool
  accepts own_id g d = is_for own_id d && not (is_replay g d)

  abbrev pub note_seq : Gossip F → DirectiveFrame F → Gossip F
  note_seq g d = record g {
    dir_seq_seen = set g.dir_seq_seen d.src_id true;
    dir_last_seq = set g.dir_last_seq d.src_id d.seq;
  }

module _ {F : Type 0} ⦃fb : FloatBits F⦄ where
  -- gossip_send_directive()
  unfoldable pub send_directive : Build → DirectiveFrame F → List (List ℕ)
  send_directive b d = transmit b (encode_directive (record d { version = wire_version }))

  unfoldable pub directive_in : Build → List ℕ → Option (DirectiveFrame F)
  directive_in b buf = elim (unseal b.auth (size_of directive_layout) buf) [
    | none ↦ none
    | some body ↦ decode_directive body
  ]

  -- One received buffer; `polled` is what `*out` holds if a frame was accepted.
  unfoldable pub poll_buf :
      Build
      → ℕ
      → Gossip F
      → Option (DirectiveFrame F)
      → List ℕ
      → Gossip F × Option (DirectiveFrame F)
  poll_buf b own_id g polled buf = elim (directive_in b buf) [
    | none ↦ (g, polled)
    | some d ↦ if accepts own_id g d then (note_seq g d, some d) else (g, polled)
  ]

  -- gossip_poll_directive(), over what each transceiver with the hook has received.
  unfoldable pub poll_bufs :
      Build
      → ℕ
      → Gossip F
      → Option (DirectiveFrame F)
      → List (List ℕ)
      → Gossip F × Option (DirectiveFrame F)
  poll_bufs b own_id g polled [] = (g, polled)
  poll_bufs b own_id g polled (buf ∷ bufs) =
      let (g', polled') = poll_buf b own_id g polled buf in poll_bufs b own_id g' polled' bufs

  unfoldable pub poll_directive :
      Build → ℕ → Gossip F → List (List ℕ) → Gossip F × Option (DirectiveFrame F)
  poll_directive b own_id g bufs = poll_bufs b own_id g none bufs
