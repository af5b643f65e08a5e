-- ===== src/Bse/Anchors.antt =====
-- bse.c: the frame of a goal, with the debounce of what an element or a landmark anchors it to.
use mathlib.Core.Option
use tapestry.Prelude.{
  ℕ, ◌+◌, Bool, true, false, not, ◌&&◌, ◌||◌, List, [], ◌∷◌, Option, none, some, ltb, leb, ◌==◌,
  if◌then◌else◌, u32,
}
use tapestry.Prelude.Int.{pos}
use tapestry.Prelude.Floats.{FloatOps}
use tapestry.Facts.Types.{Position, Fact, FactKey, fact_key_equal}
use tapestry.Facts.Order.{is_live}
use tapestry.Facts.Query.{find, get}
use tapestry.WorldModel.Types.{Entry, WorldModel, is_participating, id_invalid, cycle_ms}
use tapestry.Scr.Types.{ScrState, peer_is_trusted, get_leader}
use tapestry.Choreo.Goals.{frame_absolute}
use tapestry.Bse.Types.{
  Activation, Bse, anchor_hold_ms, frame_collective, anchor_leader, anchor_by_id, anchor_self,
  anchor_lowest_energy, anchor_landmark,
}
use tapestry.Bse.Participants.{Participant, collect_participants, centroid}

-- The least energy so far, and whose it is.
pub record Weakest : Type 0 where
  pub energy : ℕ
  pub id : ℕ

abbrev pub is_weaker : ℕ → ℕ → Option Weakest → Bool
is_weaker energy id none = true
is_weaker energy id (some w) = ltb energy w.energy || (energy == w.energy && ltb id w.id)

module _ {F : Type 0} where
  -- lookup_anchor_position()
  unfoldable pub lookup_anchor_position : ℕ → ScrState → ℕ → List (Entry F) → Option (Position F)
  lookup_anchor_position self scr id [] = none
  lookup_anchor_position self scr id (e ∷ es) =
      let rest = lookup_anchor_position self scr id es in
      if e.is_self
      then (if id == self then some e.state.position else rest)
      else if is_participating e && (not e.is_stale && (e.state.id == id && peer_is_trusted scr id))
      then some e.state.position
      else rest

  -- The loop of the case ANCHOR_LOWEST_ENERGY.
  unfoldable pub weakest : ℕ → ScrState → Option Weakest → List (Entry F) → Option Weakest
  weakest self scr w [] = w
  weakest self scr w (e ∷ es) =
      let id : ℕ = if e.is_self then self else e.state.id in
      let candidate =
        e.is_self || (e.is_active && (not e.is_stale && peer_is_trusted scr e.state.id)) in
      weakest self scr
        (if candidate && is_weaker e.state.energy_level id w
          then some (record { energy = e.state.energy_level; id = id })
          else w)
        es

  -- resolve_anchor_selector()
  unfoldable pub resolve_anchor_selector : Bse F → WorldModel F → ScrState → Option ℕ
  resolve_anchor_selector b wm scr =
      let anchor = b.intent.aim.anchor in
      if anchor == anchor_self
      then some b.self_id
      else if anchor == anchor_by_id
      then some b.intent.aim.anchor_id
      else if anchor == anchor_leader
      then (if get_leader scr == id_invalid then none else some (get_leader scr))
      else if anchor == anchor_lowest_energy
      then Option.map (λ (w : Weakest). w.id) (weakest b.self_id scr none wm.entries)
      else none

  -- The landmark that is locked, if it is held and not retracted.
  unfoldable pub locked_landmark : Activation F → WorldModel F → Option (Fact F)
  locked_landmark a wm =
      if not a.landmark_locked then none else elim (get wm.facts a.landmark_locked_key) [
        | none ↦ none
        | some f ↦ if is_live f then some f else none
      ]

  -- The candidate for another landmark, with its time.
  unfoldable pub follow_landmark : Activation F → FactKey → Activation F
  follow_landmark a key =
      if a.landmark_candidate_valid && fact_key_equal a.landmark_candidate_key key
      then record a { landmark_candidate_ms = u32 (a.landmark_candidate_ms + cycle_ms) }
      else record a {
        landmark_candidate_key = key;
        landmark_candidate_ms = 0;
        landmark_candidate_valid = true;
      }

  -- With a live landmark locked that is `held`, another one holds the rank.
  unfoldable pub switch_landmark : Activation F → Fact F → Fact F → Activation F × Position F
  switch_landmark a held raw =
      let a' = follow_landmark a raw.key in
      if leb anchor_hold_ms a'.landmark_candidate_ms
      then (record a' { landmark_locked_key = raw.key; landmark_candidate_valid = false }, raw.pos)
      else (a', held.pos)

  -- resolve_landmark() for the fact that holds the rank.
  unfoldable pub resolve_found : Activation F → Option (Fact F) → Fact F → Activation F × Position F
  resolve_found a none raw = (
    record a {
      landmark_locked = true;
      landmark_locked_key = raw.key;
      landmark_candidate_valid = false;
    },
    raw.pos,
  )
  resolve_found a (some held) raw =
      if fact_key_equal raw.key a.landmark_locked_key
      then (record a { landmark_candidate_valid = false }, raw.pos)
      else switch_landmark a held raw

  -- resolve_landmark()
  unfoldable pub resolve_landmark : Bse F → WorldModel F → Activation F × Option (Position F)
  resolve_landmark b wm =
      elim (find wm.facts b.intent.aim.landmark_type (pos b.intent.aim.landmark_rank)) [
        | none ↦
            (record (b.act) { landmark_locked = false; landmark_candidate_valid = false }, none)
        | some raw ↦
            (let (a, p) = resolve_found b.act (locked_landmark b.act wm) raw in (a, some p))
      ]

  -- The candidate for another anchor, with its time.
  unfoldable pub follow_anchor : Activation F → ℕ → Activation F
  follow_anchor a id =
      if a.anchor_candidate_valid && a.anchor_candidate_id == id
      then record a { anchor_candidate_ms = u32 (a.anchor_candidate_ms + cycle_ms) }
      else record a {
        anchor_candidate_id = id;
        anchor_candidate_ms = 0;
        anchor_candidate_valid = true;
      }

  -- The anchor to look up, after a tick in which the selector gave an id.
  unfoldable pub debounce_anchor : Activation F → ℕ → Activation F × Option ℕ
  debounce_anchor a id =
      if a.anchor_locked && id == a.anchor_locked_id
      then (record a { anchor_candidate_valid = false }, some id)
      else (let a' = follow_anchor a id in
          if leb anchor_hold_ms a'.anchor_candidate_ms
          then (
            record a' {
              anchor_locked = true;
              anchor_locked_id = id;
              anchor_candidate_valid = false;
            },
            some id,
          )
          else if a'.anchor_locked
          then (a', some a'.anchor_locked_id)
          else (a', none))

  unfoldable pub lookup_option : Bse F → WorldModel F → ScrState → Option ℕ → Option (Position F)
  lookup_option b wm scr none = none
  lookup_option b wm scr (some id) = lookup_anchor_position b.self_id scr id wm.entries

  -- The frame ELEMENT, by an element.
  unfoldable pub resolve_element :
      Bse F → WorldModel F → ScrState → Activation F × Option (Position F)
  resolve_element b wm scr = elim (resolve_anchor_selector b wm scr) [
    | none ↦ (record (b.act) { anchor_locked = false; anchor_candidate_valid = false }, none)
    | some id ↦ (let (a, target) = debounce_anchor b.act id in (a, lookup_option b wm scr target))
  ]

  abbrev pub is_none : Option (Position F) → Bool
  is_none none = true
  is_none (some p) = false

  -- The end of the frame ELEMENT: an anchor that is not resolved is lost.
  unfoldable pub note_anchor :
      Bse F → Activation F × Option (Position F) → Bse F × Option (Position F)
  note_anchor b (a, p) = (record b { act = a; anchor_lost = b.anchor_lost || is_none p }, p)

module _ {F : Type 0} ⦃fl : FloatOps F⦄ where
  abbrev pub centroid_of : List (Participant F) → Option (Position F)
  centroid_of [] = none
  centroid_of (p ∷ ps) = some (centroid (p ∷ ps))

  -- resolve_effective_target()
  unfoldable pub resolve_effective_target :
      Bse F → WorldModel F → ScrState → Bse F × Option (Position F)
  resolve_effective_target b wm scr =
      if b.intent.aim.frame == frame_absolute
      then (b, some b.intent.aim.target)
      else if b.intent.aim.frame == frame_collective
      then (b, centroid_of (collect_participants b wm scr))
      else if b.intent.aim.anchor == anchor_landmark
      then note_anchor b (resolve_landmark b wm)
      else note_anchor b (resolve_element b wm scr)
