-- ===== src/Scr/Tick.antt =====
-- tapestry-os/subsys/scr/scr.c, scr_tick(), step by step.
use tapestry.Prelude.{
  ℕ, zero, suc, ◌+◌, ◌/◌, ◌%◌, Bool, true, false, not, ◌&&◌, List, [], ◌∷◌, ◌++◌, none, some, ltb,
  leb, ◌==◌, if◌then◌else◌, length, u8, u32,
}
use tapestry.Prelude.Sort.{insertion_sort}
use tapestry.Facts.Types.{max_elements}
use tapestry.WorldModel.Types.{Entry, WorldModel, id_invalid, is_departed, cycle_ms}
use tapestry.WorldModel.Ops.{get_entry}
use tapestry.Scr.Types.{
  Quorum, lost, degraded, healthy, Role, Abort, clear, triggered, cleared, is_lost, is_triggered,
  ScrState, peer_is_trusted,
}

-- What step 1 collects: the candidates in order, and three counts.
pub record Census : Type 0 where
  pub candidates : List ℕ
  pub fresh : ℕ
  pub known : ℕ
  pub departed : ℕ

-- What the loop does with a trusted peer's entry.
unfoldable pub count_peer : {F : Type 0} → ℕ → Entry F → Census → Census
count_peer i e c =
    if is_departed e.state.health_flags
    then record c { known = u8 (c.known + 1); departed = u8 (c.departed + 1) }
    else if e.is_stale
    then record c { known = u8 (c.known + 1) }
    else record c {
      known = u8 (c.known + 1);
      candidates = c.candidates ++ (i ∷ []);
      fresh = u8 (c.fresh + 1);
    }

-- One round of the loop of step 1.
unfoldable pub collect_peer : {F : Type 0} → ScrState → WorldModel F → ℕ → Census → Census
collect_peer scr wm i c =
    if i == scr.own_id
    then c
    else if not (peer_is_trusted scr i)
    then c
    else elim (get_entry wm i) [
      | none ↦ c
      | some e ↦ if not e.is_active then c else count_peer i e c
    ]

-- The loop, with the rounds left and the index.
unfoldable pub collect : {F : Type 0} → ScrState → WorldModel F → ℕ → ℕ → Census → Census
collect scr wm zero i c = c
collect scr wm (suc rounds) i c = collect scr wm rounds (i + 1) (collect_peer scr wm i c)

unfoldable pub census : {F : Type 0} → ScrState → WorldModel F → Census
census scr wm =
    collect scr wm max_elements 0
      (record { candidates = scr.own_id ∷ []; fresh = 0; known = 0; departed = 0 })

-- Step 2.
unfoldable pub classify : ScrState → Census → Quorum
classify scr c =
    let raw =
      if leb scr.quorum_target c.fresh
      then healthy
      else if leb scr.quorum_min c.fresh
      then degraded
      else lost in
    if ltb 0 c.departed && c.known == c.departed then healthy else raw

-- Step 2.5, for the hold time, the accumulated time, the reported state and the raw one: what is
-- reported now, and the new accumulated time.
unfoldable pub hold_recovery : ℕ → ℕ → Quorum → Quorum → Quorum × ℕ
hold_recovery hold_ms recovery_ms reported raw =
    if not (ltb 0 hold_ms)
    then (raw, recovery_ms)
    else if is_lost raw
    then (raw, 0)
    else if not (is_lost reported)
    then (raw, recovery_ms)
    else let waited =
        if ltb recovery_ms hold_ms then u32 (recovery_ms + cycle_ms) else recovery_ms in
      if ltb waited hold_ms then (lost, waited) else (raw, 0)

-- CLEARED lasts one tick.
abbrev pub after_pulse : Abort → Abort
after_pulse cleared = clear
after_pulse a = a

-- Step 3, for the abort state, the previous quorum and the new one.
unfoldable pub abort_step : Abort → Quorum → Quorum → Abort
abort_step abort prev now =
    let a = after_pulse abort in
    if not (is_lost prev) && is_lost now
    then triggered
    else if is_triggered a && is_lost prev && not (is_lost now)
    then cleared
    else a

-- Step 5: the position of the own id in the sorted candidates, 0 if it is not there.
unfoldable pub slot_from : ℕ → ℕ → List ℕ → ℕ
slot_from own i [] = 0
slot_from own i (c ∷ cs) = let rest = slot_from own (u8 (i + 1)) cs in if c == own then i else rest

abbrev pub gt : ℕ → ℕ → Bool
gt a b = ltb b a

unfoldable pub sorted_candidates : Census → List ℕ
sorted_candidates c = insertion_sort gt c.candidates

unfoldable pub first_or : ℕ → List ℕ → ℕ
first_or d [] = d
first_or d (c ∷ cs) = c

-- Step 7.  The capability bits are RELAY 0, SENSOR 1, ACTUATOR 2.
unfoldable pub assign_role : ℕ → ℕ → ℕ → Role
assign_role own leader_id capabilities =
    if own == leader_id
    then Role.leader
    else if capabilities % 2 == 1
    then Role.relay
    else if capabilities / 2 % 2 == 1
    then Role.sensor
    else if capabilities / 4 % 2 == 1
    then Role.actuator
    else Role.follower

-- Step 4.
abbrev pub step_down : ScrState → ScrState
step_down scr = record scr {
  leader_id = id_invalid;
  leader_valid = false;
  role = Role.none;
  task_slot = 0;
  swarm_size = 0;
}

-- Steps 5 to 7.
unfoldable pub elect : ScrState → Census → ScrState
elect scr c =
    let sorted = sorted_candidates c in
    let leader = first_or id_invalid sorted in
    record scr {
      task_slot = slot_from scr.own_id 0 sorted;
      swarm_size = u8 (length c.candidates);
      leader_id = leader;
      leader_valid = true;
      role = assign_role scr.own_id leader scr.capabilities;
    }

-- The state after steps 1 to 3.
unfoldable pub observe : ScrState → Census → ScrState
observe scr c =
    let (now, recovery) =
      hold_recovery scr.quorum_hold_ms scr.quorum_recovery_ms scr.quorum_state (classify scr c) in
    record scr {
      fresh_count = c.fresh;
      quorum_recovery_ms = recovery;
      abort_state = abort_step scr.abort_state scr.prev_quorum_state now;
      prev_quorum_state = now;
      quorum_state = now;
    }

-- scr_tick(), and whether it calls the hook, which it does last.
unfoldable pub scr_tick : {F : Type 0} → ScrState → WorldModel F → ScrState × Bool
scr_tick scr wm =
    let c = census scr wm in
    let s = observe scr c in
    (if is_lost s.quorum_state then step_down s else elect s c, scr.on_tick)
