-- ===== src/Bse/Achieve.antt =====
-- bse.c: whether the goal is achieved, at the end of a tick.
use tapestry.Prelude.{
  ℕ, ◌+◌, Bool, true, false, not, ◌&&◌, List, [], ◌∷◌, Option, none, some, ltb, leb, u32,
  if◌then◌else◌,
}
use tapestry.Prelude.Floats.{FloatOps}
use tapestry.Facts.Types.{Position}
use tapestry.WorldModel.Types.{Entry, WorldModel, cycle_ms}
use tapestry.Scr.Types.{ScrState, peer_is_trusted}
use tapestry.Choreo.Goals.{Intent, IntentType, intent_disperse, intent_hold}
use tapestry.Bse.Types.{Bse, achieve_hold_ms_default, achieve_eps_default, zero_f, distance3}
use tapestry.Bse.Participants.{own_position}

abbrev pub is_hold_intent : IntentType → Bool
is_hold_intent intent_hold = true
is_hold_intent _ = false

abbrev pub is_disperse : IntentType → Bool
is_disperse intent_disperse = true
is_disperse _ = false

module _ {F : Type 0} where
  -- An active and fresh entry of another element.
  abbrev pub is_fresh_other : Entry F → Bool
  is_fresh_other e = e.is_active && (not e.is_self && not e.is_stale)

  -- achieve_hold_ms of the intent, with its default
  abbrev pub hold_of : Intent F → ℕ
  hold_of i = if ltb 0 i.aim.achieve_hold_ms then i.aim.achieve_hold_ms else achieve_hold_ms_default

  -- A tick in which the goal is met, or not: the time runs on, or starts again.
  unfoldable pub count_achieved : Bse F → Bool → Bse F
  count_achieved b met =
      let ms = if met then u32 (b.act.achieve_accum_ms + cycle_ms) else 0 in
      record b {
        act = record (b.act) { achieve_accum_ms = ms; achieved = leb (hold_of b.intent) ms };
      }

module _ {F : Type 0} ⦃fl : FloatOps F⦄ where
  -- achieve_eps of the intent, with its default
  abbrev pub eps_of : Intent F → F
  eps_of i = if fl.lt zero_f i.aim.achieve_eps then i.aim.achieve_eps else achieve_eps_default

  -- The distance of the nearest trusted peer; `none` is -1.
  unfoldable pub nearest_peer : Position F → ScrState → Option F → List (Entry F) → Option F
  nearest_peer own scr d [] = d
  nearest_peer own scr d (e ∷ es) =
      nearest_peer own scr
        (if not (is_fresh_other e && peer_is_trusted scr e.state.id) then d else elim d [
          | none ↦ some (distance3 e.state.position own)
          | some m ↦
              if fl.lt (distance3 e.state.position own) m
              then some (distance3 e.state.position own)
              else some m
        ])
        es

  abbrev pub is_spread : F → Option F → Bool
  is_spread least none = true
  is_spread least (some d) = fl.le least d

  abbrev pub achieve_spread : Bse F → WorldModel F → ScrState → Option (Position F) → Bse F
  achieve_spread b wm scr none = b
  achieve_spread b wm scr (some own) = count_achieved b (
      is_spread (fl.sub b.directive.spacing (eps_of b.intent))
        (nearest_peer own scr none wm.entries))

  abbrev pub achieve_point : Bse F → Option (Position F) → Bse F
  achieve_point b none = b
  achieve_point b (some own) = count_achieved b (fl.le (distance3 own b.goal_pt) (eps_of b.intent))

  -- The achievement predicate.
  unfoldable pub achieve : Bse F → WorldModel F → ScrState → Bse F
  achieve b wm scr =
      if is_hold_intent b.intent.type && b.act.hold_captured
      then record b { act = record (b.act) { achieved = true } }
      else if is_disperse b.intent.type
      then achieve_spread b wm scr (own_position wm.entries)
      else if b.goal_pt_valid
      then achieve_point b (own_position wm.entries)
      else record b { act = record (b.act) { achieve_accum_ms = 0; achieved = false } }
