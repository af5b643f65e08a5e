-- ===== src/WorldModel/Ops.antt =====
-- tapestry-os/subsys/csm/world_model.c: the writes to an entry, by the owner, by gossip and by a merge.
use tapestry.Prelude.{
  ℕ, ◌+◌, Bool, true, false, not, ◌&&◌, ◌||◌, List, [], ◌∷◌, Option, none, some, ltb, leb, ◌==◌,
  if◌then◌else◌, get_elem?, set, u8, u32,
}
use tapestry.Facts.Types.{max_elements}
use tapestry.WorldModel.Types.{
  ElementState, Entry, WorldModel, id_invalid, is_blank, stale_threshold_ms, expire_threshold_ms,
}

module _ {F : Type 0} where
  -- One entry's share of wm_tick().
  unfoldable pub age_entry : ℕ → Entry F → Entry F
  age_entry elapsed_ms e =
      let age = u32 (e.age_ms + elapsed_ms) in
      if is_blank e || e.is_self
      then e
      else if not e.is_active
      then e
      else if leb expire_threshold_ms age
      then record e { age_ms = age; is_active = false; is_stale = true }
      else if leb stale_threshold_ms age
      then record e { age_ms = age; is_stale = true }
      else record e { age_ms = age }

  -- wm_get_entry()
  unfoldable pub get_entry : WorldModel F → ℕ → Option (Entry F)
  get_entry wm id = if leb max_elements id then none else elim (get_elem? wm.entries id) [
    | none ↦ none
    | some e ↦ if is_blank e then none else some e
  ]

  -- The owner's entry as wm_init() and wm_update_self() write it.
  abbrev pub self_entry : ElementState F → ℕ → Entry F
  self_entry state updates = record {
    state = state;
    age_ms = 0;
    is_active = true;
    is_stale = false;
    is_self = true;
    update_count = updates;
  }

  -- wm_update_self(), with the caller's copy of the state.  It leaves `is_self` as it is.
  unfoldable pub update_self : WorldModel F → ElementState F → WorldModel F × ElementState F
  update_self wm own =
      if leb max_elements wm.owner_id then (wm, own) else elim (get_elem? wm.entries wm.owner_id) [
        | none ↦ (wm, own)
        | some self ↦
            let own' : ElementState F = record own {
              logical_clock = u32 (own.logical_clock + 1);
            } in
            (
              record wm {
                entries = set wm.entries wm.owner_id (record self {
                  state = own';
                  age_ms = 0;
                  is_active = true;
                  is_stale = false;
                  update_count = u32 (self.update_count + 1);
                });
              },
              own',
            )
      ]

  abbrev pub is_inactive : Entry F → Bool
  is_inactive e = not (is_blank e) && not e.is_active

  -- The Lamport receive rule; an unknown or inactive peer starts from clock 0.
  abbrev pub merged_clock : Entry F → ElementState F → ℕ
  merged_clock e received =
      let held = if is_blank e || is_inactive e then 0 else e.state.logical_clock in
      u32 ((if ltb received.logical_clock held then held else received.logical_clock) + 1)

  abbrev pub gossip_entry : Entry F → ElementState F → Entry F
  gossip_entry e received = record {
    state = record received { logical_clock = merged_clock e received };
    age_ms = 0;
    is_active = true;
    is_stale = false;
    is_self = false;
    update_count = u32 (e.update_count + 1);
  }

  -- The clock test of wm_receive_gossip().
  abbrev pub is_outdated : Entry F → ElementState F → Bool
  is_outdated e received =
      not (is_blank e) && not (is_inactive e) && leb received.logical_clock e.state.logical_clock

  unfoldable pub receive_gossip : WorldModel F → ElementState F → WorldModel F × Bool
  receive_gossip wm received =
      if leb max_elements received.id || received.id == id_invalid
      then (wm, false)
      else if received.id == wm.owner_id
      then (wm, false)
      else elim (get_elem? wm.entries received.id) [
        | none ↦ (wm, false)
        | some e ↦ if is_outdated e received then (wm, false) else (
          record wm {
            known_count = if is_blank e then u8 (wm.known_count + 1) else wm.known_count;
            entries = set wm.entries received.id (gossip_entry e received);
          },
          true,
        )
      ]

  -- One round of the loop of wm_reconcile().
  unfoldable pub reconcile_entry : WorldModel F → Entry F → WorldModel F
  reconcile_entry wm recv =
      let id = recv.state.id in
      if leb max_elements id || id == id_invalid || id == wm.owner_id
      then wm
      else elim (get_elem? wm.entries id) [
        | none ↦ wm
        | some e ↦
            if is_blank e || ltb e.state.logical_clock recv.state.logical_clock
            then record wm {
              known_count = if is_blank e then u8 (wm.known_count + 1) else wm.known_count;
              entries = set wm.entries id (record recv { is_self = false });
            }
            else wm
      ]

  unfoldable pub reconcile_all : WorldModel F → List (Entry F) → WorldModel F
  reconcile_all wm [] = wm
  reconcile_all wm (r ∷ rs) = reconcile_all (reconcile_entry wm r) rs
