-- ===== src/Choreo/State.antt =====
-- choreo.c: the static storage, and what the file calls of the behaviour engine.
use tapestry.Prelude.{ℕ, Bool, true, false, List, [], Option}
use tapestry.WorldModel.Types.{WorldModel}
use tapestry.Scr.Types.{ScrState}
use tapestry.Runtime.Cycle.{Directive}
use tapestry.Choreo.Remote.{
  ChoreoState, choreo_idle, choreo_configured, choreo_running, choreo_suspended, Remote,
}
use tapestry.Choreo.Membership.{Membership}
use tapestry.Choreo.Goals.{Goal, Intent}
use tapestry.Choreo.Steps.{Step, Track, Policy}

-- What choreo.c calls of bse.c, over a state X; the flag of a result is the return value 0.
pub record Engine (X F : Type 0) : Type 0 where
  pub init : ℕ → X → X
  pub submit_intent : X → Intent F → X × Bool
  pub preempt_intent : X → Intent F → X × Bool
  pub resume_intent : X → X
  pub set_track_scope : X → ℕ → X
  pub engine_tick : X → WorldModel F → ScrState → X
  pub goal_achieved : X → Bool
  pub anchor_gone : X → Bool
  pub directive : X → Directive F

-- 0, -1, -EPERM, -EBUSY, and an error of the engine.
pub data Answer : Type 0 where
  accepted invalid no_capability busy engine_error : Answer

-- The script engine: the steps with their number are a list, which is empty for none.
pub record Script (F : Type 0) : Type 0 where
  pub steps : List (Step F)
  pub step_idx : ℕ
  pub step_ms : ℕ
  pub active : Bool

-- choreo_parked_goal_t
pub record Parked (F : Type 0) : Type 0 where
  pub goal : Goal F
  pub script : Script F

-- The storage of the departure policy.
pub record Departure : Type 0 where
  pub mode : Policy
  pub reasons : ℕ
  pub min_participants : ℕ
  pub triggered : Bool
  pub triggered_policy : Policy
  pub recall_in_progress : Bool
  pub hold_in_progress : Bool
  pub hold_ms : ℕ
  pub prev_mask : ℕ
  pub prev_mask_valid : Bool

-- The storage of tracks: the table and the step indices have CHOREO_MAX_TRACKS places.
pub record Tracks (F : Type 0) : Type 0 where
  pub table : List (Track F)
  pub n_tracks : ℕ
  pub active_idx : ℕ
  pub step_idxs : List ℕ
  pub candidate_idx : ℕ
  pub candidate_valid : Bool
  pub candidate_ms : ℕ

-- All of it, with the state of the engine; `hw_caps` has the capabilities behind s_scr, and `parked`
-- the goal parked last first.
pub record Choreo (X F : Type 0) : Type 0 where
  pub self_id : ℕ
  pub goal : Goal F
  pub state : ChoreoState
  pub hw_caps : Option ℕ
  pub script : Script F
  pub script_done : Bool
  pub parked : List (Parked F)
  pub membership : Membership
  pub departure : Departure
  pub tracks : Tracks F
  pub remote : Remote F
  pub bse : X

-- CHOREO_MAX_PREEMPT_DEPTH
abbrev pub max_preempt_depth : ℕ
max_preempt_depth = 1

-- CHOREO_MAX_TRACKS
abbrev pub max_tracks : ℕ
max_tracks = 4

abbrev pub is_idle : ChoreoState → Bool
is_idle choreo_idle = true
is_idle _ = false

abbrev pub is_configured : ChoreoState → Bool
is_configured choreo_configured = true
is_configured _ = false

abbrev pub is_active : ChoreoState → Bool
is_active choreo_running = true
is_active choreo_suspended = true
is_active _ = false

-- script_clear()
abbrev pub no_script : {F : Type 0} → Script F
no_script = record { steps = []; step_idx = 0; step_ms = 0; active = false }
