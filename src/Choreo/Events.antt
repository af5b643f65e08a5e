-- ===== src/Choreo/Events.antt =====
-- choreo.c: what the transitions of a step react to.
use tapestry.Prelude.{
  ℕ, ◌-◌, Bool, true, false, not, ◌&&◌, ◌||◌, List, [], ◌∷◌, Option, none, some, ltb, leb, ◌==◌,
  if◌then◌else◌,
}
use tapestry.Facts.Query.{count_live, tombstones}
use tapestry.WorldModel.Types.{Entry, WorldModel, is_participating}
use tapestry.Scr.Types.{ScrState, is_lost, peer_is_trusted}
use tapestry.Choreo.Steps.{
  Scope, scope_self, scope_all, achieved, element_joined, element_lost, count_gte, count_eq,
  anchor_lost, quorum_lost, discovery, landmark_added, landmark_retracted, Transition, Step,
}
use tapestry.Choreo.State.{Engine, Tracks, Choreo}

module _ {F : Type 0} where
  unfoldable pub choreo_current_track : Tracks F → ℕ
  choreo_current_track t = if ltb 0 t.n_tracks then t.active_idx else 0

  -- The loop of choreo_collective_achieved().
  unfoldable pub all_achieved : ℕ → List (Entry F) → Bool
  all_achieved track [] = true
  all_achieved track (e ∷ es) =
      let rest = all_achieved track es in
      if e.is_self || not (is_participating e)
      then rest
      else if not (e.state.current_track == track)
      then rest
      else if not e.state.goal_achieved
      then false
      else rest

  -- The loop of track_member_count(), from `n` members.
  unfoldable pub without_others : ScrState → ℕ → List (Entry F) → ℕ → ℕ
  without_others scr track [] n = n
  without_others scr track (e ∷ es) n = without_others scr track es (
      if e.is_self || not (is_participating e) || e.is_stale || not (peer_is_trusted scr e.state.id)
      then n
      else if not (e.state.current_track == track) && ltb 1 n
      then n - 1
      else n)

  unfoldable pub track_member_count : Tracks F → WorldModel F → ScrState → ℕ
  track_member_count t wm scr =
      if scr.swarm_size == 0 || t.n_tracks == 0
      then scr.swarm_size
      else without_others scr (choreo_current_track t) wm.entries scr.swarm_size

  unfoldable pub self_discovered : List (Entry F) → Bool
  self_discovered [] = false
  self_discovered (e ∷ es) = if e.is_self then e.state.discovered else self_discovered es

module _ {X F : Type 0} (engine : Engine X F) where
  -- choreo_collective_achieved()
  unfoldable pub collective_achieved : Choreo X F → WorldModel F → Bool
  collective_achieved c wm =
      if not (engine.goal_achieved c.bse)
      then false
      else all_achieved (choreo_current_track c.tracks) wm.entries

  unfoldable pub achieved_in : Choreo X F → WorldModel F → Scope → Bool
  achieved_in c wm scope_all = collective_achieved c wm
  achieved_in c wm scope_self = engine.goal_achieved c.bse

  -- event_fires(), with the pulses of the membership debounce.
  unfoldable pub event_fires :
      Choreo X F → Transition → Step F → WorldModel F → ScrState → Bool → Bool → Bool
  event_fires c t st wm scr joined lost = elim (t.event) [
    | achieved ↦ achieved_in c wm st.scope
    | element_joined ↦ joined
    | element_lost ↦ lost
    | count_gte ↦ leb t.threshold (track_member_count c.tracks wm scr)
    | count_eq ↦ track_member_count c.tracks wm scr == t.threshold
    | anchor_lost ↦ engine.anchor_gone c.bse
    | quorum_lost ↦ is_lost scr.quorum_state
    | discovery ↦ self_discovered wm.entries
    | landmark_added ↦ ltb 0 (count_live wm.facts t.fact_type)
    | landmark_retracted ↦
        count_live wm.facts t.fact_type == 0 && ltb 0 (tombstones wm.facts t.fact_type)
  ]

  -- The target of the first transition that fires; `none` is -1.
  unfoldable pub first_transition :
      Choreo X F → Step F → WorldModel F → ScrState → Bool → Bool → List Transition → Option ℕ
  first_transition c st wm scr joined lost [] = none
  first_transition c st wm scr joined lost (t ∷ ts) =
      if event_fires c t st wm scr joined lost
      then some t.goto_step_idx
      else first_transition c st wm scr joined lost ts
