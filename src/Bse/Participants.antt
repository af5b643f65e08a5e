-- ===== src/Bse/Participants.antt =====
-- bse.c: who takes part in a collective goal, in an order that all agree on.
use tapestry.Prelude.{
  ℕ, ◌+◌, Bool, not, ◌&&◌, ◌||◌, List, [], ◌∷◌, Option, none, some, ltb, ◌==◌, length, take,
  if◌then◌else◌,
}
use tapestry.Prelude.Floats.{FloatOps}
use tapestry.Prelude.Sort.{insertion_sort}
use tapestry.Facts.Types.{Position, max_elements}
use tapestry.WorldModel.Types.{Entry, WorldModel, is_participating}
use tapestry.Scr.Types.{ScrState, peer_is_trusted}
use tapestry.Bse.Types.{Bse, zero_f}

-- A place of ids[] with its place of pos[].
pub record Participant (F : Type 0) : Type 0 where
  pub id : ℕ
  pub position : Position F

module _ {F : Type 0} where
  -- own_position()
  unfoldable pub own_position : List (Entry F) → Option (Position F)
  own_position [] = none
  own_position (e ∷ es) = if e.is_self then some e.state.position else own_position es

  unfoldable pub takes_part : ℕ → ScrState → Entry F → Bool
  takes_part scope scr e =
      e.is_self
      || (is_participating e
          && (not e.is_stale && (peer_is_trusted scr e.state.id && e.state.current_track == scope)))

  -- The first loop, without the bound that the table's size meets.
  unfoldable pub participants : ℕ → ℕ → ScrState → List (Entry F) → List (Participant F)
  participants self scope scr [] = []
  participants self scope scr (e ∷ es) =
      let rest = participants self scope scr es in
      if takes_part scope scr e
      then record { id = if e.is_self then self else e.state.id; position = e.state.position }
        ∷ rest
      else rest

  -- `ids[j] > kid`
  abbrev pub has_greater_id : Participant F → Participant F → Bool
  has_greater_id a b = ltb b.id a.id

  -- The rank of an id, by the last loop; `none` is -1.
  unfoldable pub rank_from : ℕ → ℕ → List (Participant F) → Option ℕ
  rank_from self i [] = none
  rank_from self i (p ∷ ps) = if p.id == self then some i else rank_from self (i + 1) ps

  -- collect_participants()
  unfoldable pub collect_participants : Bse F → WorldModel F → ScrState → List (Participant F)
  collect_participants b wm scr =
      insertion_sort has_greater_id
        (take max_elements (participants b.self_id b.track_scope scr wm.entries))

  unfoldable pub own_rank : Bse F → List (Participant F) → Option ℕ
  own_rank b ps = rank_from b.self_id 0 ps

module _ {F : Type 0} ⦃fl : FloatOps F⦄ where
  unfoldable pub sum_positions : Position F → List (Participant F) → Position F
  sum_positions acc [] = acc
  sum_positions acc (p ∷ ps) =
      sum_positions
        (record {
          x = fl.add acc.x p.position.x;
          y = fl.add acc.y p.position.y;
          z = fl.add acc.z p.position.z;
        })
        ps

  -- The mean of the positions, with `(float)count` as the divisor.
  unfoldable pub centroid : List (Participant F) → Position F
  centroid ps =
      let s = sum_positions (record { x = zero_f; y = zero_f; z = zero_f }) ps in
      let n = fl.of_ℕ (length ps) in record { x = fl.div s.x n; y = fl.div s.y n; z = fl.div s.z n }
