-- ===== src/Choreo/Steps.antt =====
-- choreo.h: the steps of a script, their transitions, and tracks.
use tapestry.Prelude.{ℕ, Bool, List, Option}
use tapestry.Choreo.Goals.{Goal}

-- choreo_achieve_scope_t
pub data Scope : Type 0 where
  scope_self scope_all : Scope

-- choreo_event_t
pub data Event : Type 0 where
  achieved element_joined element_lost count_gte count_eq anchor_lost quorum_lost discovery
        landmark_added landmark_retracted :
      Event

-- choreo_departure_policy_t; CONTINUE is `carry_on`.
pub data Policy : Type 0 where
  carry_on hold land_in_place recall : Policy

-- choreo_transition_t
pub record Transition : Type 0 where
  pub event : Event
  pub threshold : ℕ
  pub goto_step_idx : ℕ
  pub fact_type : ℕ

-- choreo_step_t; `on` has the n_transitions that are declared.
pub record Step (F : Type 0) : Type 0 where
  pub goal : Goal F
  pub max_duration_ms : ℕ
  pub advance_on_achieved : Bool
  pub scope : Scope
  pub on : List Transition
  pub on_departure_set : Bool
  pub on_departure : Policy
  pub indicator : ℕ
  pub telemetry_tag : Option ℕ

-- choreo_track_filter_t
pub record TrackFilter : Type 0 where
  pub required_caps : ℕ
  pub requires_energy_low : Bool

-- choreo_track_t; a pointer to steps with their number is a list.
pub record Track (F : Type 0) : Type 0 where
  pub filter : TrackFilter
  pub steps : List (Step F)
