-- ===== src/WorldModel/Invariant.antt =====
-- The invariant of the world model, which every operation of world_model.c keeps.
use native.Mathlib.Nat.{zero-add}
use tapestry.Prelude.{
  ℕ, zero, suc, ◌+◌, ◌%◌, ◌^◌, ◌<◌, ◌≡◌, refl, ◌∙◌, ◌≢◌, ◌⊎◌, inl, inr, Bool, true, false, not,
  ◌||◌, List, [], ◌∷◌, Option, none, some, arith, leb, ◌==◌, if◌then◌else◌, length, Bool-cases,
  count, count-set, count-le-length, get_elem?, set, length-set,
}
use tapestry.Facts.Types.{max_elements}
use tapestry.WorldModel.Types.{ElementState, Entry, WorldModel, id_invalid, is_blank}
use tapestry.WorldModel.Ops.{receive_gossip, gossip_entry, is_outdated}

module _ {F : Type 0} where
  abbrev pub is_known : Entry F → Bool
  is_known e = not (is_blank e)

  -- What an entry at a place must be: blank, or of the element whose id is the place; and marked as
  -- the own entry exactly at the owner's place.
  pub record IsPlaced (owner i : ℕ) (e : Entry F) : Type 0 where
    pub id_fits : (e.state.id ≡ id_invalid) ⊎ (e.state.id ≡ i)
    pub self_at_owner : e.is_self ≡ true → i ≡ owner
    pub owner_is_self : i ≡ owner → (e.is_self ≡ true) × (e.state.id ≡ i)

  -- From the place `i` on.
  abbrev pub PlacedFrom : ℕ → ℕ → List (Entry F) → Type 0
  PlacedFrom owner i [] = Unit
  PlacedFrom owner i (e ∷ es) = IsPlaced owner i e × PlacedFrom owner (i + 1) es

  pub record IsModel (wm : WorldModel F) : Type 0 where
    pub sized : length wm.entries ≡ max_elements
    pub placed : PlacedFrom wm.owner_id 0 wm.entries
    pub known : wm.known_count ≡ count is_known wm.entries
    pub owner_ok : (wm.owner_id < max_elements) ⊎ (wm.owner_id ≡ id_invalid)

  pub IsPlaced-get :
      (owner i : ℕ) (es : List (Entry F)) (j : ℕ) (e : Entry F)
      → PlacedFrom owner i es
      → get_elem? es j ≡ some e
      → IsPlaced owner (i + j) e
  IsPlaced-get owner i [] j e p g = ground arith
  IsPlaced-get owner i (x ∷ es) zero e p g = ground arith
  IsPlaced-get owner i (x ∷ es) (suc j) e p g =
      let k : i + suc j ≡ i + 1 + j = omega arith in rw k (IsPlaced-get owner (i + 1) es j e p.1 g)

  pub placed_set :
      (owner i : ℕ) (es : List (Entry F)) (j : ℕ) (v : Entry F)
      → PlacedFrom owner i es
      → IsPlaced owner (i + j) v
      → PlacedFrom owner i (set es j v)
  placed_set owner i [] j v p q = tt
  placed_set owner i (x ∷ es) zero v p q = let k : i + 0 ≡ i = omega arith in (rw (← k) q, p.1)
  placed_set owner i (x ∷ es) (suc j) v p q =
      let k : i + suc j ≡ i + 1 + j = omega arith in
      (p.0, placed_set owner (i + 1) es j v p.1 (rw (← k) q))

  -- A write at an element's place of a known entry of that element.
  pub write-IsModel :
      (wm : WorldModel F) (id : ℕ) (e v : Entry F) (known : ℕ)
      → get_elem? wm.entries id ≡ some e
      → IsPlaced wm.owner_id id v
      → is_known v ≡ true
      → known ≡ (if is_blank e then (wm.known_count + 1) % 2 ^ 8 else wm.known_count)
      → IsModel wm
      → IsModel (record wm { known_count = known; entries = set wm.entries id v })
  write-IsModel wm id e v known g p kv kn m = record {
    sized = length-set wm.entries id v ∙ m.sized;
    placed = placed_set wm.owner_id 0 wm.entries id v m.placed (rw zero-add p);
    known = ground (
      arith,
      m.known,
      m.sized,
      count-set is_known wm.entries id e v g,
      count-le-length is_known wm.entries,
    );
    owner_ok = m.owner_ok;
  }

  -- wm_receive_gossip() keeps the invariant, whatever it is given.
  pub receive_gossip-IsModel :
      (wm : WorldModel F) (received : ElementState F)
      → IsModel wm
      → IsModel (receive_gossip wm received).0
  unfolding receive_gossip
  receive_gossip-IsModel wm received m =
      elim (Bool-cases (leb max_elements received.id || received.id == id_invalid)) [
        | inl e ↦ rw e m
        | inr e ↦ rw e (elim (Bool-cases (received.id == wm.owner_id)) [
          | inl o ↦ rw o m
          | inr o ↦
              rw o (look (ground arith) (ground arith) (get_elem? wm.entries received.id) refl)
        ])
      ]
    where
      look :
          received.id < max_elements
          → received.id ≢ wm.owner_id
          → (r : Option (Entry F)) → get_elem? wm.entries received.id ≡ r
          → let out : WorldModel F × Bool = elim r [
            | none ↦ (wm, false)
            | some e ↦ if is_outdated e received then (wm, false) else (
              record wm {
                known_count = if is_blank e then (wm.known_count + 1) % 2 ^ 8 else wm.known_count;
                entries = set wm.entries received.id (gossip_entry e received);
              },
              true,
            )
          ] in
            IsModel out.0
      look small other none g = m
      look small other (some e) g = elim (Bool-cases (is_outdated e received)) [
        | inl old ↦ rw old m
        | inr new ↦ rw new (
            write-IsModel wm received.id e (gossip_entry e received) _ g
              (record {
                id_fits = inr refl;
                self_at_owner = λ s. cc;
                owner_is_self = λ h. absurd (other h);
              })
              (ground arith) refl m)
      ]
