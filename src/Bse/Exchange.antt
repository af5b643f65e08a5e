-- ===== src/Bse/Exchange.antt =====
-- bse.c: EXCHANGE, which moves every participant to the station of another one.
use tapestry.Prelude.{
  ℕ, zero, suc, ◌+◌, ◌%◌, Bool, true, ◌||◌, List, Option, none, some, ltb, ◌==◌, length, get_elem?,
  if◌then◌else◌,
}
use tapestry.Prelude.Floats.{FloatOps}
use tapestry.Facts.Types.{Position}
use tapestry.WorldModel.Types.{WorldModel}
use tapestry.Scr.Types.{ScrState}
use tapestry.Bse.Types.{TrigOps, Activation, Bse, zero_f, bse_pi, exchange_omega_radps, cycle_s}
use tapestry.Bse.Participants.{Participant, collect_participants, own_rank, centroid}

-- Angles by atan2f() differ by at most a full turn, so two turns make a difference positive.
abbrev pub max_turns : ℕ
max_turns = 2

-- The rank of the station to take.
unfoldable pub dest_rank : ℕ → ℕ → ℕ → ℕ
dest_rank slot_shift n rank = (rank + (if slot_shift == 0 then 1 else slot_shift)) % n

module _ {F : Type 0} ⦃fl : FloatOps F⦄ (trig : TrigOps F) where
  -- `while (dtheta <= 0.0f)`
  unfoldable pub turn_ccw : ℕ → F → F
  turn_ccw zero dtheta = dtheta
  turn_ccw (suc turns) dtheta =
      if fl.le dtheta zero_f
      then turn_ccw turns (fl.add dtheta (fl.mul (fl.of_ℕ 2) bse_pi))
      else dtheta

  abbrev pub angle_about : Position F → Position F → F
  angle_about c p = trig.atan2f (fl.sub p.y c.y) (fl.sub p.x c.x)

  abbrev pub radius_about : Position F → Position F → F
  radius_about c p =
      fl.sqrtf (
        fl.add (fl.mul (fl.sub p.x c.x) (fl.sub p.x c.x))
          (fl.mul (fl.sub p.y c.y) (fl.sub p.y c.y)))

  -- What exchange_capture() stores, from the centroid, the own station and the other one's; `stays`
  -- says that no arc is travelled.
  unfoldable pub capture_arc :
      Activation F → Bool → Position F → Position F → Position F → Activation F
  capture_arc a stays c own other =
      let dest : Position F = record { x = other.x; y = other.y; z = own.z } in
      record a {
        ex_captured = true;
        ex_centroid = c;
        ex_dest = dest;
        ex_theta0 = angle_about c own;
        ex_r0 = radius_about c own;
        ex_r1 = radius_about c dest;
        ex_dtheta =
            if stays
            then zero_f
            else turn_ccw max_turns (fl.sub (angle_about c dest) (angle_about c own));
        ex_progress = zero_f;
      }

  unfoldable pub capture_between :
      Bse F
      → Bool
      → Position F
      → Option (Participant F)
      → Option (Participant F)
      → Option (Activation F)
  capture_between b stays c (some own) (some other) =
      some (capture_arc b.act stays c own.position other.position)
  capture_between b stays c none other = none
  capture_between b stays c (some own) none = none

  -- The rest, at the own rank.
  unfoldable pub capture_at : Bse F → List (Participant F) → Option ℕ → Option (Activation F)
  capture_at b ps none = none
  capture_at b ps (some rank) =
      let dest = dest_rank b.intent.aim.slot_shift (length ps) rank in
      if ltb (length ps) 2
      then none
      else capture_between b (dest == rank || b.intent.aim.direct_path) (centroid ps)
          (get_elem? ps rank) (get_elem? ps dest)

  -- exchange_capture()
  unfoldable pub exchange_capture : Bse F → WorldModel F → ScrState → Option (Activation F)
  exchange_capture b wm scr =
      let ps = collect_participants b wm scr in capture_at b ps (own_rank b ps)

  abbrev pub is_arc_complete : Activation F → Bool
  is_arc_complete a = fl.le a.ex_dtheta zero_f || fl.le a.ex_dtheta a.ex_progress

  abbrev pub advance_arc : Activation F → Activation F
  advance_arc a = record a {
    ex_progress = fl.add a.ex_progress (fl.mul exchange_omega_radps cycle_s);
  }

  abbrev pub arc_point : Activation F → Position F
  arc_point a =
      let theta = fl.add a.ex_theta0 a.ex_progress in
      let r = fl.add a.ex_r0 (fl.mul (fl.sub a.ex_r1 a.ex_r0) (fl.div a.ex_progress a.ex_dtheta)) in
      record {
        x = fl.add a.ex_centroid.x (fl.mul r (trig.cosf theta));
        y = fl.add a.ex_centroid.y (fl.mul r (trig.sinf theta));
        z = a.ex_dest.z;
      }

  -- exchange_arc_target()
  unfoldable pub exchange_arc_target : Activation F → Activation F × Position F
  exchange_arc_target a =
      let a' = advance_arc a in (a', if is_arc_complete a' then a'.ex_dest else arc_point a')
