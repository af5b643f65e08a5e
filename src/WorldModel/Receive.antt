-- ===== src/WorldModel/Receive.antt =====
-- wm_receive_gossip(): when it accepts, what it writes, and what it leaves alone.
use tapestry.Prelude.{
  ℕ, ◌+◌, ◌%◌, ◌^◌, ◌≤◌, ◌<◌, ◌≡◌, refl, sym, ap, ◌≢◌, inl, inr, Bool, true, false, ◌||◌, Option,
  none, some, arith, leb, ◌==◌, if◌then◌else◌, length, Bool-cases, get_elem?, set,
  get_elem?-set_self, get_elem?-set_ne, lt-length, length-lt,
}
use tapestry.Facts.Types.{max_elements}
use tapestry.WorldModel.Types.{ElementState, Entry, WorldModel, id_invalid, is_blank}
use tapestry.WorldModel.Ops.{get_entry, receive_gossip, gossip_entry, is_outdated}

module _ {F : Type 0} where
  -- A gossip message is news: it is from a peer with a valid id, which is not held as active, or is
  -- held with a smaller clock.
  abbrev pub IsNews : WorldModel F → ElementState F → Type 0
  IsNews wm received =
      (received.id < max_elements)
      × (received.id ≢ wm.owner_id)
      × ((e : Entry F)
          → get_elem? wm.entries received.id ≡ some e
          → is_blank e ≡ false
          → e.is_active ≡ true
          → e.state.logical_clock < received.logical_clock)

  -- Where a message is not accepted, nothing changes; where it is, the sender's entry is active and
  -- fresh, with the state received under a clock that is later than both, and no other entry changes.
  pub record IsAccepted (wm : WorldModel F) (received : ElementState F) (wm' : WorldModel F)
      : Type 0 where
    pub written :
        (e : Entry F)
        → get_elem? wm.entries received.id ≡ some e
        → get_entry wm' received.id ≡ some (gossip_entry e received)
    pub others : (j : ℕ) → j ≢ received.id → get_elem? wm'.entries j ≡ get_elem? wm.entries j
    pub owner_kept : wm'.owner_id ≡ wm.owner_id

  abbrev pub Outcome : WorldModel F → ElementState F → WorldModel F × Bool → Type 0
  Outcome wm received (wm', true) = IsNews wm received × IsAccepted wm received wm'
  Outcome wm received (wm', false) = ¬ (IsNews wm received) × (wm' ≡ wm)

  not_outdated :
      (e : Entry F) (received : ElementState F)
      → is_outdated e received ≡ false
      → is_blank e ≡ false
      → e.is_active ≡ true
      → e.state.logical_clock < received.logical_clock
  not_outdated e received o b a = ground arith

  outdated :
      (e : Entry F) (received : ElementState F)
      → is_outdated e received ≡ true
      → (is_blank e ≡ false)
        × (e.is_active ≡ true)
        × (received.logical_clock ≤ e.state.logical_clock)
  outdated e received o = (ground arith, ground arith, ground arith)

  accepted :
      (wm : WorldModel F) (received : ElementState F) (e : Entry F) (known : ℕ)
      → received.id < max_elements
      → get_elem? wm.entries received.id ≡ some e
      → IsAccepted wm received (record wm {
        known_count = known;
        entries = set wm.entries received.id (gossip_entry e received);
      })
  unfolding get_entry
  accepted wm received e known small g = record {
    written = λ e' g'.
        let p : e ≡ e' = ground arith in
        let at_id =
          get_elem?-set_self wm.entries received.id (gossip_entry e received)
            (lt-length wm.entries received.id e g) in
        let range : leb max_elements received.id ≡ false = ground arith in
        let known_id : (received.id == id_invalid) ≡ false = ground arith in
        rw (range, at_id, known_id) (ap (λ x. some (gossip_entry x received)) p);
    others = λ j ne. get_elem?-set_ne wm.entries (gossip_entry e received) (λ q. ne (sym q));
    owner_kept = refl;
  }

  -- wm_receive_gossip() accepts exactly the news.  It answers true and the sender's entry is the
  -- received state under the merged clock, active, fresh and of age 0, all other entries being what
  -- they were; or it answers false and nothing changes.
  pub receive_gossip_lem :
      (wm : WorldModel F) (received : ElementState F)
      → length wm.entries ≡ max_elements
      → Outcome wm received (receive_gossip wm received)
  unfolding receive_gossip
  receive_gossip_lem wm received n =
      elim (Bool-cases (leb max_elements received.id || received.id == id_invalid)) [
        | inl e ↦ rw e (λ (a, b, c). ground arith, refl)
        | inr e ↦ rw e (elim (Bool-cases (received.id == wm.owner_id)) [
          | inl o ↦ rw o (λ (a, b, c). ground arith, refl)
          | inr o ↦
              rw o (look (ground arith) (ground arith) (get_elem? wm.entries received.id) refl)
        ])
      ]
    where
      look :
          received.id < max_elements
          → received.id ≢ wm.owner_id
          → (r : Option (Entry F)) → get_elem? wm.entries received.id ≡ r
          → Outcome wm received (elim r [
            | none ↦ (wm, false)
            | some e ↦ if is_outdated e received then (wm, false) else (
              record wm {
                known_count = if is_blank e then (wm.known_count + 1) % 2 ^ 8 else wm.known_count;
                entries = set wm.entries received.id (gossip_entry e received);
              },
              true,
            )
          ])
      look small other none g =
          absurd (ground (arith, n, small, length-lt wm.entries received.id g))
      look small other (some e) g = elim (Bool-cases (is_outdated e received)) [
        | inl old ↦ rw old (
          λ (_, _, newer).
              let (known, active, late) = outdated e received old in
              omega (arith, newer e g known active, late),
          refl,
        )
        | inr new ↦ rw new (
          (
            small,
            other,
            λ e' g' b a.
                let p : e ≡ e' = ground arith in not_outdated e' received (rw (← p) new) b a,
          ),
          accepted wm received e _ small g,
        )
      ]
