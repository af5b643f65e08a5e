-- ===== src/Gossip/FactFrames.antt =====
-- gossip.c, fact frames: building, sending, applying and draining them.
use tapestry.Prelude.{
  ℕ, ◌+◌, Bool, true, false, not, ◌||◌, List, [], ◌∷◌, Option, none, some, ltb, leb, ◌==◌,
  if◌then◌else◌, length, get_elem?, take,
}
use tapestry.Prelude.Floats.{FloatOps}
use tapestry.Facts.Types.{Config, Fact, Facts, max_elements, zero_slot}
use tapestry.Facts.Query.{digest, heard_digest, pack}
use tapestry.Facts.Replicas.{receive_all}
use tapestry.Wire.Auth.{unseal}
use tapestry.Wire.Bytes.{size_of}
use tapestry.Wire.Frames.{FactFrame, wire_version, fact_records_max}
use tapestry.Wire.Layout.{FloatBits, fact_layout, encode_fact, decode_fact}
use tapestry.Gossip.Types.{Build, transmit}

module _ {F : Type 0} ⦃fl : FloatOps F⦄ where
  -- A record's place in the frame, which memset() left zero if there is no such record.
  abbrev pub record_out : List (Fact F) → ℕ → Fact F
  record_out recs i = elim (get_elem? recs i) [ none ↦ zero_slot.fact | some r ↦ r ]

  -- gossip_fact_frame_build()
  unfoldable pub fact_frame_build : Facts F → ℕ → Facts F × FactFrame F
  fact_frame_build t own_id =
      let (t', recs) = pack t in
      (
        t',
        record {
          sender_id = own_id;
          count = length recs;
          digest = digest t';
          r0 = record_out recs 0;
          r1 = record_out recs 1;
          version = wire_version;
        },
      )

  -- A frame of the element itself, of no element, or with too many records.
  abbrev pub is_refused : ℕ → FactFrame F → Bool
  is_refused own_id f =
      f.sender_id == own_id || (leb max_elements f.sender_id || ltb fact_records_max f.count)

  -- gossip_fact_frame_apply(): the table, and whether the frame counts.
  unfoldable pub fact_frame_apply : Config → Facts F → ℕ → FactFrame F → Facts F × Bool
  fact_frame_apply cfg t own_id f =
      if not (f.version == wire_version)
      then (t, false)
      else if is_refused own_id f
      then (t, false)
      else (heard_digest cfg (receive_all cfg t (take f.count (f.r0 ∷ f.r1 ∷ []))) f.digest, true)

module _ {F : Type 0} ⦃fl : FloatOps F⦄ ⦃fb : FloatBits F⦄ where
  -- gossip_send_facts()
  unfoldable pub send_facts : Build → Facts F → ℕ → Facts F × List (List ℕ)
  send_facts b t own_id =
      let (t', f) = fact_frame_build t own_id in (t', transmit b (encode_fact f))

  unfoldable pub fact_in : Build → List ℕ → Option (FactFrame F)
  fact_in b buf = elim (unseal b.auth (size_of fact_layout) buf) [
    | none ↦ none
    | some body ↦ decode_fact body
  ]

  -- One received buffer of gossip_drain_facts().
  unfoldable pub drain_fact : Config → Build → ℕ → Facts F → List ℕ → Facts F × Bool
  drain_fact cfg b own_id t buf = elim (fact_in b buf) [
    | none ↦ (t, false)
    | some f ↦ fact_frame_apply cfg t own_id f
  ]

  -- gossip_drain_facts(), over what each transceiver with the hook has received.
  unfoldable pub drain_facts : Config → Build → ℕ → Facts F → ℕ → List (List ℕ) → Facts F × ℕ
  drain_facts cfg b own_id t total [] = (t, total)
  drain_facts cfg b own_id t total (buf ∷ bufs) =
      let (t', counted) = drain_fact cfg b own_id t buf in
      drain_facts cfg b own_id t' (if counted then total + 1 else total) bufs
