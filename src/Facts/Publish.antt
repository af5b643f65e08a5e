-- ===== src/Facts/Publish.antt =====
-- facts.c: wm_fact_set_epoch(), wm_fact_publish(), wm_fact_retract() and wm_fact_tick().
use tapestry.Prelude.{
  ℕ, ◌+◌, Bool, true, false, not, ◌||◌, Option, none, some, leb, ◌==◌, if◌then◌else◌, map, set, u8,
  u32,
}
use tapestry.Prelude.Floats.{FloatOps}
use tapestry.Facts.Types.{
  Config, FactKey, Fact, FactSlot, Facts, Position, type_none, max_elements, publishable,
  set_retracted,
}
use tapestry.Facts.Order.{is_live}
use tapestry.Facts.Table.{find_slot, nearby_duplicate, admit}
use tapestry.Facts.Trickle.{trickle_reset}

-- The results of wm_fact_publish(), with the key that goes through `out`.
pub data Published : Type 0 where
  created reused : FactKey → Published
  err_invalid err_unsynced err_full err_noepoch : Published

module _ {F : Type 0} where
  unfoldable pub set_epoch : Facts F → ℕ → Facts F
  set_epoch t epoch = record t { epoch = epoch; epoch_set = true }

  abbrev pub new_key : Facts F → ℕ → ℕ → FactKey
  new_key t owner type = record { type = type; origin = owner; epoch = t.epoch; seq = t.next_seq }

  -- The record that wm_fact_publish() builds.
  abbrev pub new_fact : Facts F → ℕ → ℕ → Position F → ℕ → ℕ → Fact F
  new_fact t owner type pos attr flags = record {
    key = new_key t owner type;
    flags = publishable flags;
    stamp = u32 (t.clock + 1);
    pos = pos;
    attr = attr;
  }

  -- After a successful admit(): the clock, the next sequence number, and Trickle.
  abbrev pub published : Config → Facts F → Fact F → Facts F
  published cfg t f =
      trickle_reset cfg (record t { clock = f.stamp; next_seq = u8 (t.next_seq + 1) })

  unfoldable pub publish_new : Config → Facts F → Fact F → Facts F × Published
  publish_new cfg t f =
      let (t', admitted) = admit cfg t f in
      if not admitted then (t', err_full) else (published cfg t' f, created f.key)

  -- `pos == none` is a NULL pointer; `owner` is wm->owner_id.
  unfoldable pub publish :
      ⦃fl : FloatOps F⦄
      → Config
      → Facts F
      → ℕ
      → ℕ
      → Option (Position F)
      → ℕ
      → ℕ
      → Facts F × Published
  publish cfg t owner type none attr flags = (t, err_invalid)
  publish cfg t owner type (some pos) attr flags =
      if type == type_none || leb max_elements owner
      then (t, err_invalid)
      else if not t.epoch_set
      then (t, err_noepoch)
      else if not t.synced
      then (t, err_unsynced)
      else elim (nearby_duplicate t.slots type none pos) [
        | some (i, dup) ↦ (t, reused dup.fact.key)
        | none ↦ publish_new cfg t (new_fact t owner type pos attr flags)
      ]

  -- The tombstone that wm_fact_retract() writes at a clock.
  abbrev pub tombstone : ℕ → FactSlot F → FactSlot F
  tombstone clock s = record s {
    fact = record (s.fact) { flags = set_retracted s.fact.flags; stamp = clock };
    tomb_ms = 0;
  }

  -- The flag is the return value 0; `false` is -1.
  unfoldable pub retract : Config → Facts F → FactKey → Facts F × Bool
  retract cfg t key = elim (find_slot t.slots key) [
    | none ↦ (t, false)
    | some (i, s) ↦ if not (is_live s.fact) then (t, false) else (
      trickle_reset cfg (record t {
        clock = u32 (t.clock + 1);
        slots = set t.slots i (tombstone (u32 (t.clock + 1)) s);
      }),
      true,
    )
  ]

  -- One slot's share of wm_fact_tick().
  unfoldable pub age_slot : Config → ℕ → FactSlot F → FactSlot F
  age_slot cfg elapsed_ms s =
      if not s.used
      then s
      else if is_live s.fact
      then record s { held_ms = u32 (s.held_ms + elapsed_ms) }
      else record s {
        held_ms = u32 (s.held_ms + elapsed_ms);
        tomb_ms = u32 (s.tomb_ms + elapsed_ms);
        used = not (leb cfg.tombstone_ttl_ms (u32 (s.tomb_ms + elapsed_ms)));
      }

  unfoldable pub tick : Config → Facts F → ℕ → Facts F
  tick cfg t elapsed_ms =
      let since = u32 (t.since_init_ms + elapsed_ms) in
      record t {
        since_init_ms = since;
        synced = t.synced || leb cfg.sync_timeout_ms since;
        slots = map (age_slot cfg elapsed_ms) t.slots;
      }
