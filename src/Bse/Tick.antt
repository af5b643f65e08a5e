-- ===== src/Bse/Tick.antt =====
-- bse.c: one tick of the engine, from the intent to the directive.
use tapestry.Prelude.{
  ℕ, Bool, true, false, ◌&&◌, ◌||◌, List, [], ◌∷◌, Option, none, some, ◌==◌, length, map, get_elem?,
  if◌then◌else◌,
}
use tapestry.Prelude.Floats.{FloatOps}
use tapestry.Facts.Types.{Position}
use tapestry.WorldModel.Types.{Entry, WorldModel}
use tapestry.Scr.Types.{ScrState}
use tapestry.Choreo.Goals.{
  IntentType, intent_idle, intent_form, intent_move, intent_disperse, intent_converge, intent_hold,
  intent_exchange, motion_spin,
}
use tapestry.Bse.Types.{
  TrigOps, Activation, Bse, directive_idle, directive_hold, directive_move_to_point,
  directive_maintain_spring, zero_f, decimal, cycle_s, distance3, exchange_occupied_m,
  exchange_standoff_m,
}
use tapestry.Bse.Participants.{Participant, own_position, collect_participants, own_rank, centroid}
use tapestry.Bse.Anchors.{resolve_effective_target}
use tapestry.Bse.Exchange.{exchange_capture, exchange_arc_target, is_arc_complete}
use tapestry.Bse.Slots.{place_slots, form_fit_axis}
use tapestry.Bse.Assign.{at, form_assign_slot}
use tapestry.Bse.Intents.{set_type, zero_position}
use tapestry.Bse.Achieve.{is_fresh_other, achieve}

module _ {F : Type 0} where
  -- The directive to a point, which is the goal point too.
  abbrev pub move_to : Bse F → Position F → Bse F
  move_to b p = record b {
    directive = record (b.directive) { type = directive_move_to_point; target = p };
    goal_pt = p;
    goal_pt_valid = true;
  }

  abbrev pub hold_here : Bse F → Bse F
  hold_here b = set_type b directive_hold

  abbrev pub move_to_or_hold : Bse F × Option (Position F) → Bse F
  move_to_or_hold (b, none) = hold_here b
  move_to_or_hold (b, some p) = move_to b p

  -- The case HOLD once the station is captured.
  abbrev pub keep_station : Bse F → Position F → Bse F
  keep_station b p =
      move_to (record b { act = record (b.act) { hold_station = p; hold_captured = true } }) p

  abbrev pub capture_station : Bse F → Option (Position F) → Bse F
  capture_station b none = hold_here b
  capture_station b (some own) = keep_station b own

  -- The case HOLD.
  unfoldable pub decide_hold : Bse F → WorldModel F → Bse F
  decide_hold b wm =
      if b.act.hold_captured
      then move_to b b.act.hold_station
      else if b.prev_goal_valid
      then keep_station (record b { prev_goal_valid = false }) b.prev_goal_pt
      else capture_station b (own_position wm.entries)

module _ {F : Type 0} ⦃fl : FloatOps F⦄ where
  -- The loop that looks for a peer on the station.
  unfoldable pub is_occupied : Position F → List (Entry F) → Bool
  is_occupied dest [] = false
  is_occupied dest (e ∷ es) =
      (is_fresh_other e && fl.lt (distance3 e.state.position dest) exchange_occupied_m)
      || is_occupied dest es

  abbrev pub standoff : Position F → Position F → Position F
  standoff own dest =
      let d = distance3 own dest in
      record {
        x = fl.add dest.x (fl.mul (fl.div (fl.sub own.x dest.x) d) exchange_standoff_m);
        y = fl.add dest.y (fl.mul (fl.div (fl.sub own.y dest.y) d) exchange_standoff_m);
        z = fl.add dest.z (fl.mul (fl.div (fl.sub own.z dest.z) d) exchange_standoff_m);
      }

  -- The target while the station is occupied.
  abbrev pub standoff_target : Bse F → Option (Position F) → Position F
  standoff_target b none = b.directive.target
  standoff_target b (some own) =
      if fl.lt (decimal 1 1000) (distance3 own b.act.ex_dest)
      then standoff own b.act.ex_dest
      else b.directive.target

  -- The end of the case EXCHANGE, for direct_path.
  unfoldable pub wait_for_station : Bse F → WorldModel F → Bse F
  wait_for_station b wm =
      if b.intent.aim.direct_path && is_occupied b.act.ex_dest wm.entries
      then record b {
        directive = record (b.directive) { target = standoff_target b (own_position wm.entries) };
        goal_pt_valid = false;
      }
      else b

  -- The case MOVE, from the offset.
  abbrev pub move_by : Bse F → Position F → Bse F
  move_by b offset =
      let target = b.intent.aim.target in
      move_to b (record {
        x = fl.add target.x offset.x;
        y = fl.add target.y offset.y;
        z = fl.add target.z offset.z;
      })

  -- The offset that MOVE captures, of the participant at the own rank.
  abbrev pub capture_offset : Bse F → Position F → Option (Participant F) → Bse F
  capture_offset b c none = hold_here b
  capture_offset b c (some own) =
      let offset : Position F = record {
        x = fl.sub own.position.x c.x;
        y = fl.sub own.position.y c.y;
        z = fl.sub own.position.z c.z;
      } in
      move_by (record b { act = record (b.act) { move_captured = true; move_offset = offset } })
        offset

  abbrev pub participant_at : List (Participant F) → Option ℕ → Option (Participant F)
  participant_at ps none = none
  participant_at ps (some rank) = get_elem? ps rank

  -- The case MOVE.
  unfoldable pub decide_move : Bse F → WorldModel F → ScrState → Bse F
  decide_move b wm scr =
      if b.act.move_captured
      then move_by b b.act.move_offset
      else (let ps = collect_participants b wm scr in
          capture_offset b (centroid ps) (participant_at ps (own_rank b ps)))

  -- The case DISPERSE.
  unfoldable pub decide_disperse : Bse F → Bse F
  decide_disperse b = record b {
    directive = record (b.directive) {
      type = directive_maintain_spring;
      spring_k = fl.of_ℕ 5;
      spacing = if fl.lt zero_f b.intent.aim.radius then b.intent.aim.radius else fl.of_ℕ 30;
    };
  }

module _ {F : Type 0} ⦃fl : FloatOps F⦄ (trig : TrigOps F) where
  -- The case EXCHANGE once the stations are captured.
  unfoldable pub follow_arc : Bse F → WorldModel F → Bse F
  follow_arc b wm =
      let (a, target) = exchange_arc_target trig b.act in
      wait_for_station
        (record b {
          act = a;
          directive = record (b.directive) { type = directive_move_to_point; target = target };
          goal_pt = a.ex_dest;
          goal_pt_valid = is_arc_complete trig a;
        })
        wm

  abbrev pub after_capture : Bse F → WorldModel F → Option (Activation F) → Bse F
  after_capture b wm none = hold_here b
  after_capture b wm (some a) = follow_arc (record b { act = a }) wm

  -- The case EXCHANGE.
  unfoldable pub decide_exchange : Bse F → WorldModel F → ScrState → Bse F
  decide_exchange b wm scr =
      if b.act.ex_captured
      then follow_arc b wm
      else after_capture b wm (exchange_capture trig b wm scr)

  -- The slots of FORM, inside the bounds if they are set.
  unfoldable pub form_slots : Bse F → ℕ → Position F → F → List (Position F)
  form_slots b count target theta =
      let slots = place_slots trig b.intent.aim count target theta 0 count in
      if b.form_bounds_set
      then form_fit_axis trig (form_fit_axis trig slots false b.form_min_x b.form_max_x) true
          b.form_min_y b.form_max_y
      else slots

  -- The rest of the case FORM: the turn of SPIN, and the own slot.
  unfoldable pub take_slot : List (Participant F) → ℕ → Bse F × Option (Position F) → Bse F
  take_slot ps rank (b, none) = hold_here b
  take_slot ps rank (b, some target) =
      let spins = b.intent.aim.motion == motion_spin in
      let turned = fl.add b.act.spin_theta (fl.mul b.intent.aim.spin_rate_radps cycle_s) in
      let b' = if spins then record b { act = record (b.act) { spin_theta = turned } } else b in
      let theta =
        if spins then fl.add b.intent.aim.rotation_rad turned else b.intent.aim.rotation_rad in
      let slots = form_slots b' (length ps) target theta in
      let k =
        form_assign_slot trig (map (λ (p : Participant F). p.position) ps) slots (length ps) rank in
      move_to b' (at zero_position slots k)

  abbrev pub form_at : Bse F → WorldModel F → ScrState → List (Participant F) → Option ℕ → Bse F
  form_at b wm scr ps none = hold_here b
  form_at b wm scr ps (some rank) = take_slot ps rank (resolve_effective_target b wm scr)

  -- The case FORM.
  unfoldable pub decide_form : Bse F → WorldModel F → ScrState → Bse F
  decide_form b wm scr =
      if scr.swarm_size == 0
      then hold_here b
      else (let ps = collect_participants b wm scr in form_at b wm scr ps (own_rank b ps))

  -- The `switch` of bse_tick().
  unfoldable pub decide : Bse F → WorldModel F → ScrState → IntentType → Bse F
  decide b wm scr intent_idle = set_type b directive_idle
  decide b wm scr intent_hold = decide_hold b wm
  decide b wm scr intent_exchange = decide_exchange b wm scr
  decide b wm scr intent_form = decide_form b wm scr
  decide b wm scr intent_move = decide_move b wm scr
  decide b wm scr intent_converge = move_to_or_hold (resolve_effective_target b wm scr)
  decide b wm scr intent_disperse = decide_disperse b

  -- bse_tick()
  unfoldable pub bse_tick : Bse F → WorldModel F → ScrState → Bse F
  bse_tick b wm scr =
      achieve
        (decide (record b { goal_pt_valid = false; anchor_lost = false }) wm scr b.intent.type) wm
        scr
