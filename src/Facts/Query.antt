-- ===== src/Facts/Query.antt =====
-- facts.c: packing a frame, the digest, and the read-only queries.
use Prim.Native.Nat.{bit_xor}
use mathlib.Core.Option
use tapestry.Prelude.{
  ℕ, zero, suc, ◌+◌, ◌*◌, ◌/◌, ◌%◌, Bool, true, false, not, ◌&&◌, List, [], ◌∷◌, ◌++◌, Option, none,
  some, ltb, ◌==◌, if◌then◌else◌, length, get_elem?, count, u8, u16, u32,
}
use tapestry.Prelude.Int.{ℤ, pos, negsuc}
use tapestry.Facts.Types.{Config, FactKey, Fact, FactSlot, Facts}
use tapestry.Facts.Order.{is_live, is_above, rank_cmp, type_matches}
use tapestry.Facts.Table.{find_slot, least}
use tapestry.Facts.Trickle.{trickle_reset}

-- FNV-1a over bytes.
unfoldable pub fnv : ℕ → List ℕ → ℕ
fnv h [] = h
fnv h (b ∷ bs) = fnv (u32 (bit_xor h b * 16777619)) bs

module _ {F : Type 0} where
  unfoldable pub record_bytes : Fact F → List ℕ
  record_bytes f =
      f.key.type
      ∷ f.key.origin
      ∷ f.key.epoch % 256
      ∷ u8 (f.key.epoch / 256)
      ∷ f.key.seq
      ∷ f.flags
      ∷ f.stamp % 256
      ∷ f.stamp / 256 % 256
      ∷ f.stamp / 65536 % 256
      ∷ u8 (f.stamp / 16777216)
      ∷ []

  unfoldable pub record_hash : Fact F → ℕ
  unfolding fnv record_bytes
  record_hash f = let h = fnv 2166136261 (record_bytes f) in bit_xor h (h / 65536) % 65536

  -- The loop of wm_fact_digest().
  unfoldable pub digest_from : ℕ → List (FactSlot F) → ℕ
  digest_from d [] = d
  digest_from d (s ∷ ss) = digest_from (if s.used then u16 (d + record_hash s.fact) else d) ss

  unfoldable pub digest : Facts F → ℕ
  digest t = digest_from 0 t.slots

  -- wm_fact_heard_digest()
  unfoldable pub heard_digest : Config → Facts F → ℕ → Facts F
  heard_digest cfg t d =
      let t1 = record t { synced = true; frames_heard = u32 (t.frames_heard + 1) } in
      if d == digest t1
      then (if ltb t1.trickle_c 255 then record t1 { trickle_c = t1.trickle_c + 1 } else t1)
      else trickle_reset cfg t1

  -- The loop of wm_fact_pack(): rounds left, `k`, the records packed so far, the next cursor.
  unfoldable pub pack_from : ℕ → ℕ → List (FactSlot F) → ℕ → List (Fact F) → ℕ → List (Fact F) × ℕ
  pack_from zero k slots cursor out next = (out, next)
  pack_from (suc rounds) k slots cursor out next =
      let i = u8 ((cursor + k) % length slots) in
      let rest = pack_from rounds (k + 1) slots cursor out next in
      let added = λ (f : Fact F).
        pack_from rounds (k + 1) slots cursor (out ++ (f ∷ []))
          (if length out == 1 then u8 ((i + 1) % length slots) else next) in
      if not (ltb (length out) 2) then (out, next) else elim (get_elem? slots i) [
        | none ↦ rest
        | some s ↦ elim s.used [ true ↦ added s.fact | false ↦ rest ]
      ]

  unfoldable pub pack : Facts F → Facts F × List (Fact F)
  pack t =
      let (out, next) = pack_from (length t.slots) 0 t.slots t.cursor [] t.cursor in
      (record t { cursor = if length out == 1 then 0 else next }, out)

  -- wm_fact_get()
  unfoldable pub get : Facts F → FactKey → Option (Fact F)
  get t key = Option.map (λ (p : ℕ × FactSlot F). p.1.fact) (find_slot t.slots key)

  abbrev pub is_candidate : ℕ → FactSlot F → Bool
  is_candidate type s = s.used && is_live s.fact && type_matches type s.fact

  -- `prev == NULL || rank_cmp(s, prev) > 0`
  abbrev pub is_after : Option (Fact F) → Fact F → Bool
  is_after none f = true
  is_after (some p) f = is_above (rank_cmp f p)

  -- One round of wm_fact_find(): the lowest candidate above the previous one.
  unfoldable pub next_ranked : List (FactSlot F) → ℕ → Option (Fact F) → Option (Fact F)
  next_ranked slots type prev =
      Option.map (λ (p : ℕ × FactSlot F). p.1.fact)
        (least (λ s. is_candidate type s && is_after prev s.fact) rank_cmp slots 0 none)

  unfoldable pub select : List (FactSlot F) → ℕ → ℕ → Option (Fact F) → Option (Fact F)
  select slots type zero prev = prev
  select slots type (suc rounds) prev = elim (next_ranked slots type prev) [
    | none ↦ none
    | some f ↦ select slots type rounds (some f)
  ]

  -- wm_fact_find(): a round for each r from 0 to rank.
  unfoldable pub find : Facts F → ℕ → ℤ → Option (Fact F)
  find t type (negsuc n) = none
  find t type (pos rank) = select t.slots type (suc rank) none

  -- wm_fact_count()
  unfoldable pub count_live : Facts F → ℕ → ℕ
  count_live t type = count (is_candidate type) t.slots

  unfoldable pub tombstones : Facts F → ℕ → ℕ
  tombstones t type =
      count (λ s. s.used && not (is_live s.fact) && type_matches type s.fact) t.slots
