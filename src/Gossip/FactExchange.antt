-- ===== src/Gossip/FactExchange.antt =====
-- Fact frames from one element to another, and what any frame leaves of the table.
use tapestry.Prelude.{
  ℕ, zero, suc, ◌+◌, ◌<◌, ◌≤◌, ◌≡◌, refl, sym, ap, ◌∙◌, ◌≢◌, inl, inr, true, false, not, List, [],
  ◌∷◌, ◌++◌, Option, none, some, arith, ltb, leb, ◌==◌, if◌then◌else◌, Bool-cases, length,
  append_nil, length-append, u8, ◌%◌, get_elem?, take,
}
use tapestry.Prelude.Floats.{FloatOps}
use tapestry.Facts.Types.{Config, Fact, FactSlot, Facts, max_elements}
use tapestry.Facts.Query.{digest, heard_digest, pack, pack_from}
use tapestry.Facts.Replicas.{receive_all, receive_all-WellFormed}
use tapestry.Facts.Preservation.{WellFormed}
use tapestry.Facts.Upkeep.{heard_digest-WellFormed}
use tapestry.Wire.Auth.{unseal}
use tapestry.Wire.Bytes.{size_of}
use tapestry.Wire.Frames.{FactFrame, wire_version, fact_records_max}
use tapestry.Wire.Layout.{FloatBits, fact_layout, encode_fact, decode_fact}
use tapestry.Wire.RoundTrip.{Exact, FactFits, decode_fact-encode_fact, length-encode_fact}
use tapestry.Gossip.Types.{Build, transmit}
use tapestry.Gossip.FactFrames.{
  record_out, is_refused, fact_frame_build, fact_frame_apply, send_facts, fact_in, drain_fact,
}
use tapestry.Gossip.Receive.{unseal-transmit}

module _ {F : Type 0} where
  -- A step of the packing loop goes on with or without the slot's record.
  pick :
      {B : Type 0} (P : B → Type 0) (rest : B) (added : Fact F → B) (o : Option (FactSlot F))
      → P rest
      → ((f : Fact F) → P (added f))
      → P (elim o [ none ↦ rest | some s ↦ elim s.used [ true ↦ added s.fact | false ↦ rest ] ])
  pick P rest added none p q = p
  pick P rest added (some s) p q = elim (Bool-cases s.used) [
    | inl e ↦ rw e (q s.fact)
    | inr e ↦ rw e p
  ]

  -- wm_fact_pack() gives at most two records.
  length-pack_from :
      (rounds k : ℕ) (slots : List (FactSlot F)) (cursor : ℕ) (out : List (Fact F)) (next : ℕ)
      → length out ≤ 2
      → length (pack_from rounds k slots cursor out next).0 ≤ 2
  unfolding pack_from
  length-pack_from zero k slots cursor out next h = h
  length-pack_from (suc rounds) k slots cursor out next h = elim (Bool-cases (ltb (length out) 2)) [
    | inl e ↦
        let i = u8 ((cursor + k) % length slots) in
        let next' = if length out == 1 then u8 ((i + 1) % length slots) else next in
        rw (pack_from, e)
          (pick {B = List (Fact F) × ℕ} (λ r. length r.0 ≤ 2)
            (pack_from rounds (k + 1) slots cursor out next)
            (λ f. pack_from rounds (k + 1) slots cursor (out ++ (f ∷ [])) next') (get_elem? slots i)
            (length-pack_from rounds (k + 1) slots cursor out next h)
            (λ f.
              length-pack_from rounds (k + 1) slots cursor (out ++ (f ∷ [])) next'
                (ground (arith, length-append out (f ∷ [])))))
    | inr e ↦ rw (pack_from, e) h
  ]

  pub length-pack : (t : Facts F) → length (pack t).1 ≤ 2
  unfolding pack
  length-pack t = length-pack_from (length t.slots) 0 t.slots t.cursor [] t.cursor (omega arith)

  -- The two places of a frame hold the records packed.
  take-record_out :
      ⦃fl : FloatOps F⦄ (recs : List (Fact F))
      → length recs ≤ 2
      → take (length recs) (record_out recs 0 ∷ record_out recs 1 ∷ []) ≡ recs
  take-record_out [] h = refl
  take-record_out (a ∷ []) h = refl
  take-record_out (a ∷ b ∷ []) h = refl
  take-record_out (a ∷ b ∷ c ∷ recs) h = absurd (omega arith)

module _ {F : Type 0} ⦃fl : FloatOps F⦄ where
  pub fact_frame_apply-WellFormed :
      (cfg : Config) (t : Facts F) (own_id : ℕ) (f : FactFrame F)
      → 0 < cfg.max_per_origin
      → WellFormed cfg t
      → WellFormed cfg (fact_frame_apply cfg t own_id f).0
  unfolding fact_frame_apply
  fact_frame_apply-WellFormed cfg t own_id f pos ok =
      elim (Bool-cases (not (f.version == wire_version))) [
        | inl e ↦ rw (fact_frame_apply, e) ok
        | inr e ↦
            rw (fact_frame_apply, e)
              (elim (Bool-cases (is_refused own_id f)) [
                | inl k ↦ rw k ok
                | inr k ↦
                    let recs = take f.count (f.r0 ∷ f.r1 ∷ []) in
                    rw k (
                      heard_digest-WellFormed cfg (receive_all cfg t recs) f.digest
                        (receive_all-WellFormed cfg t recs pos ok))
              ])
      ]

  -- A frame that is built and applied unchanged: the records packed are received in their order, and
  -- the digest of the sender's table is heard.
  pub fact_frame_apply-fact_frame_build :
      (cfg : Config) (t u : Facts F) (id own_id : ℕ)
      → id < max_elements
      → id ≢ own_id
      → let (t', recs) = pack t in
        fact_frame_apply cfg u own_id (fact_frame_build t id).1
        ≡ (heard_digest cfg (receive_all cfg u recs) (digest t'), true)
  unfolding fact_frame_apply fact_frame_build
  fact_frame_apply-fact_frame_build cfg t u id own_id small other = look (pack t) (length-pack t)
    where
      look :
          (p : Facts F × List (Fact F))
          → length p.1 ≤ 2
          → let f : FactFrame F = record {
            sender_id = id;
            count = length p.1;
            digest = digest p.0;
            r0 = record_out p.1 0;
            r1 = record_out p.1 1;
            version = wire_version;
          } in
            fact_frame_apply cfg u own_id f
            ≡ (heard_digest cfg (receive_all cfg u p.1) (digest p.0), true)
      look (t', recs) n =
          let a : (id == own_id) ≡ false = ground arith in
          let b : leb max_elements id ≡ false = ground arith in
          let c : ltb fact_records_max (length recs) ≡ false = ground arith in
          rw (fact_frame_apply, a, b, c)
            (ap (λ rs. (heard_digest cfg (receive_all cfg u rs) (digest t'), true))
              (take-record_out recs n))

module _ {F : Type 0} ⦃fl : FloatOps F⦄ ⦃fb : FloatBits F⦄ where
  fact_in-transmit :
      (b b' : Build) (f : FactFrame F) (sent : List ℕ)
      → Exact fb
      → FactFits f
      → b'.auth ≡ b.auth
      → transmit b (encode_fact f) ≡ sent ∷ []
      → fact_in b' sent ≡ some f
  unfolding fact_in
  fact_in-transmit b b' f sent exact fits same h =
      let got = unseal-transmit b b' (encode_fact f) sent same h in
      let n : length (encode_fact f) ≡ size_of fact_layout = length-encode_fact f fits in
      let got' : unseal b'.auth (size_of fact_layout) sent ≡ some (encode_fact f) =
        ap (λ k. unseal b'.auth k sent) (sym n) ∙ got in
      rw (fact_in, got')
        (ap decode_fact (sym (append_nil (encode_fact f)))
          ∙ decode_fact-encode_fact f [] exact fits)

  -- A fact frame that one element sends, and another one with the same key receives: the records
  -- packed by the sender are merged in their order, then the digest of the sender's table is heard,
  -- and the frame counts.  The ids differ and the sender's is valid, the frame's values fit its
  -- fields, and a float comes back from its bit pattern.
  pub drain_fact-send_facts :
      (cfg : Config) (b b' : Build) (t u : Facts F) (id own_id : ℕ) (sent : List ℕ)
      → Exact fb
      → FactFits (fact_frame_build t id).1
      → b'.auth ≡ b.auth
      → id < max_elements
      → id ≢ own_id
      → (send_facts b t id).1 ≡ sent ∷ []
      → let (t', recs) = pack t in
        drain_fact cfg b' own_id u sent
        ≡ (heard_digest cfg (receive_all cfg u recs) (digest t'), true)
  unfolding drain_fact send_facts
  drain_fact-send_facts cfg b b' t u id own_id sent exact fits same small other h =
      let got = fact_in-transmit b b' (fact_frame_build t id).1 sent exact fits same h in
      rw (drain_fact, got) (fact_frame_apply-fact_frame_build cfg t u id own_id small other)
