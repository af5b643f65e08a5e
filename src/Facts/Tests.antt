-- ===== src/Facts/Tests.antt =====
-- facts.c: the theorems on concrete tables, with whole numbers for floats.
use Prim.Native.Nat.{ℕ}
use mathlib.Core.List.{Perm, Permᴰ}
use tapestry.Prelude.{◌≡◌, refl, true, false, [], ◌∷◌, some, arith, count, ◌+◌, ◌<◌, ◌^◌}
use tapestry.Prelude.Floats.{whole}
use tapestry.Facts.Types.{
  Config, default_config, Position, FactKey, Fact, FactSlot, Facts, facts_init,
}
use tapestry.Facts.Publish.{publish, tick, new_key, set_epoch}
use tapestry.Facts.Merge.{receive, merge_record, merge_absent, yield_or_clear}
use tapestry.Facts.Trickle.{trickle_reset}
use tapestry.Facts.Table.{
  is_used, admit, nearby_duplicate, merge_radius, is_near_duplicate, room_at_origin, room_in_table,
  free_slot, find_slot, least,
}
use tapestry.Facts.Query.{get, digest}
use tapestry.Facts.Keys.{Absent}
use tapestry.Facts.Clearing.{Clears, yield_or_clear-Clears}
use tapestry.Facts.Digest.{held, digest_perm}
use tapestry.Facts.Convergence.{merged, AllAgree}
use tapestry.Facts.Preservation.{WellFormed, receive-WellFormed}
use tapestry.Facts.Local.{facts_init-WellFormed}
use tapestry.Facts.Reach.{start, next, published, received, ticked, epoch_set, Reach-WellFormed}
use tapestry.Facts.Replicas.{
  receive_all, receive_all-WellFormed, get-receive_held, receive_converges,
}
use tapestry.Facts.Outcomes.{Means, publish_lem}
use tapestry.Facts.Eviction.{HasShare, Replaces, admit_full}

abbrev place : ℕ → Position ℕ
place n = record { x = n; y = 0; z = 0 }

abbrev target_key : FactKey
target_key = record { type = 1; origin = 4; epoch = 9; seq = 0 }

-- Three versions of one fact: two stamps, and a retraction.
abbrev first_seen : Fact ℕ
first_seen = record { key = target_key; flags = 0; stamp = 5; pos = place 1; attr = 7 }

abbrev moved : Fact ℕ
moved = record { key = target_key; flags = 0; stamp = 6; pos = place 3; attr = 7 }

abbrev withdrawn : Fact ℕ
withdrawn = record { key = target_key; flags = 1; stamp = 8; pos = place 3; attr = 7 }

-- A table with room for two records.
abbrev small_config : Config
small_config = record default_config { max_facts = 2; max_per_origin = 2 }

abbrev holding : Fact ℕ → Facts ℕ
holding f = receive_all small_config (facts_init small_config) (f ∷ [])

holding-WellFormed : (f : Fact ℕ) → WellFormed small_config (holding f)
holding-WellFormed f =
    receive_all-WellFormed small_config (facts_init small_config) (f ∷ []) (omega arith)
      (facts_init-WellFormed small_config)

versions_agree : AllAgree (first_seen ∷ moved ∷ withdrawn ∷ [])
versions_agree a b p q = record {
  same_key = grind arith;
  same_kind = grind arith;
  same_stamp = λ l e. grind arith;
}

first_seen_held : get (holding first_seen) target_key ≡ some first_seen
unfolding receive_all facts_init receive merge_record merge_absent yield_or_clear nearby_duplicate
    admit room_at_origin room_in_table free_slot find_slot count least get trickle_reset
    merge_radius is_near_duplicate
first_seen_held = refl

withdrawn_held : get (holding withdrawn) target_key ≡ some withdrawn
unfolding receive_all facts_init receive merge_record merge_absent yield_or_clear nearby_duplicate
    admit room_at_origin room_in_table free_slot find_slot count least get trickle_reset
withdrawn_held = refl

receive_converges_example :
    get (receive_all small_config (holding first_seen) (moved ∷ withdrawn ∷ [])) target_key
    ≡ get
        (receive_all small_config (holding withdrawn) (first_seen ∷ moved ∷ withdrawn ∷ []))
        target_key
receive_converges_example =
    receive_converges small_config small_config (holding first_seen) (holding withdrawn) target_key
      first_seen withdrawn (moved ∷ withdrawn ∷ []) (first_seen ∷ moved ∷ withdrawn ∷ [])
      (omega arith) (omega arith) (holding-WellFormed first_seen) (holding-WellFormed withdrawn)
      first_seen_held withdrawn_held (refl, (refl, tt)) (refl, (refl, (refl, tt))) versions_agree
      (λ x i. grind arith) (λ x i. grind arith)

receive-WellFormed_example :
    WellFormed small_config (receive small_config (holding first_seen) moved).0
receive-WellFormed_example =
    receive-WellFormed small_config (holding first_seen) moved (omega arith)
      (holding-WellFormed first_seen)

get-receive_held_example :
    get (receive small_config (holding first_seen) withdrawn).0 target_key
    ≡ some (merged first_seen withdrawn)
get-receive_held_example =
    get-receive_held small_config (holding first_seen) withdrawn first_seen (omega arith)
      (holding-WellFormed first_seen) first_seen_held

-- The table with an epoch set, and synced.
abbrev ready : Facts ℕ
ready = record (holding first_seen) { epoch = 9; epoch_set = true; synced = true }

ready-clock : ready.clock ≡ 5
unfolding receive_all facts_init receive merge_record merge_absent yield_or_clear nearby_duplicate
    admit room_at_origin room_in_table free_slot find_slot count least trickle_reset merge_radius
    is_near_duplicate
ready-clock = refl

new_key-Absent : Absent (new_key ready 3 1) ready.slots
unfolding receive_all facts_init receive merge_record merge_absent yield_or_clear nearby_duplicate
    admit room_at_origin room_in_table free_slot find_slot count least trickle_reset merge_radius
    is_near_duplicate
new_key-Absent = (refl, (refl, tt))

publish_lem_example :
    Means small_config ready 3 1
      (some (place 90))
      7
      0
      (publish small_config ready 3 1 (some (place 90)) 7 0)
publish_lem_example =
    publish_lem small_config ready 3 1 (some (place 90)) 7 0 (omega arith)
      (omega (arith, ready-clock)) new_key-Absent (holding-WellFormed first_seen)

abbrev with_epoch : Facts ℕ
with_epoch = set_epoch (facts_init small_config) 9

new_clock : with_epoch.clock + 1 < 2 ^ 32
unfolding set_epoch facts_init
new_clock = omega arith

new_table-Absent : Absent (new_key with_epoch 3 1) with_epoch.slots
unfolding set_epoch facts_init
new_table-Absent = (refl, (refl, tt))

-- A fact is published, another one heard from a peer and withdrawn again, and time goes by.
Reach-WellFormed_example : WellFormed small_config (
    tick small_config
      (receive small_config
        (receive small_config
          (publish small_config with_epoch 3 1 (some (place 90)) 7 0).0
          first_seen).0
        withdrawn).0
      60000)
Reach-WellFormed_example = Reach-WellFormed (omega arith) (
    next
      (next
        (next
          (next (next start (epoch_set 9))
            (published 3 1 (some (place 90)) 7 0 new_clock new_table-Absent))
          (received first_seen))
        (received withdrawn))
      (ticked 60000))

-- A full table, and a record of another element for it.
abbrev held_slot : Fact ℕ → FactSlot ℕ
held_slot f = record { fact = f; used = true; held_ms = 0; tomb_ms = 0 }

abbrev other : Fact ℕ
other = record first_seen { key = record target_key { origin = 6 }; flags = 4 }

abbrev newcomer : Fact ℕ
newcomer = record first_seen { key = record target_key { origin = 2 }; flags = 8 }

abbrev crowded : Facts ℕ
crowded = record (facts_init small_config) { slots = held_slot first_seen ∷ held_slot other ∷ [] }

has_share : HasShare small_config crowded newcomer
unfolding count
has_share l = omega arith

admit_full_example : Replaces crowded newcomer (admit small_config crowded newcomer)
admit_full_example =
    admit_full small_config crowded newcomer (omega arith) (refl, (refl, tt)) has_share

-- The same records in other slots, one of which is not in use.
abbrev spread : Facts ℕ
spread = record (facts_init small_config) {
  slots = held_slot other ∷ record (held_slot moved) { used = false } ∷ held_slot first_seen ∷ [];
}

same_records : Perm (held crowded.slots) (held spread.slots)
unfolding held
same_records = ∣ Permᴰ.swap refl refl ∣₁

digest_perm_example : digest crowded ≡ digest spread
digest_perm_example = digest_perm crowded spread same_records

-- A rival report nearby, under another key.
abbrev rival : Fact ℕ
rival = record first_seen { key = record target_key { origin = 6 } }

one_used : count is_used (holding first_seen).slots ≡ 1
unfolding receive_all facts_init receive merge_record merge_absent yield_or_clear nearby_duplicate
    admit room_at_origin room_in_table free_slot find_slot count least trickle_reset merge_radius
    is_near_duplicate
one_used = refl

rival-Absent : Absent rival.key (holding first_seen).slots
unfolding receive_all facts_init receive merge_record merge_absent yield_or_clear nearby_duplicate
    admit room_at_origin room_in_table free_slot find_slot count least trickle_reset merge_radius
    is_near_duplicate
rival-Absent = (refl, (refl, tt))

yield_or_clear-Clears_example :
    Clears small_config
      (holding first_seen).clock
      rival.key
      (yield_or_clear 3 (holding first_seen).slots rival)
yield_or_clear-Clears_example =
    yield_or_clear-Clears small_config (holding first_seen).clock 3 (holding first_seen).slots rival
      (omega (arith, one_used)) (holding-WellFormed first_seen) rival-Absent
