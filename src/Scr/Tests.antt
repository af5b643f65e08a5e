-- ===== src/Scr/Tests.antt =====
-- scr.c: the theorems on two elements that see each other.
use tapestry.Prelude.{ℕ, ◌<◌, ◌≡◌, refl, ◌≢◌, ◌↔◌, ◌⊎◌, false, List, [], ◌∷◌, arith, count}
use tapestry.WorldModel.Types.{Entry, WorldModel}
use tapestry.WorldModel.Ops.{get_entry}
use tapestry.WorldModel.Samples.{entry_of, world_of}
use tapestry.Scr.Types.{
  ScrState, scr_init, lost, degraded, Role, triggered, cleared, peer_is_trusted,
}
use tapestry.Scr.Tick.{
  census, collect, collect_peer, count_peer, scr_tick, classify, hold_recovery, observe, elect,
}
use tapestry.Scr.Abort.{IsConsistent, scr_init-IsConsistent, scr_tick-IsConsistent, abort_signal}
use tapestry.Scr.Leader.{SameCandidates, IsElection, scr_tick-IsElection, leaders_agree}

-- What both see, each with a world model of its own.
abbrev pair : List (Entry ℕ)
pair = entry_of 0 ∷ entry_of 1 ∷ []

abbrev first_world : WorldModel ℕ
first_world = world_of 0 pair

abbrev second_world : WorldModel ℕ
second_world = world_of 1 pair

abbrev first : ScrState
first = scr_init 0 1 2 0

abbrev second : ScrState
second = scr_init 1 1 2 0

first-census :
    census first first_world
    ≡ record { candidates = 0 ∷ 1 ∷ []; fresh = 1; known = 1; departed = 0 }
unfolding census collect collect_peer count_peer peer_is_trusted get_entry scr_init
first-census = refl

second-census :
    census second second_world
    ≡ record { candidates = 1 ∷ 0 ∷ []; fresh = 1; known = 1; departed = 0 }
unfolding census collect collect_peer count_peer peer_is_trusted get_entry scr_init
second-census = refl

same_candidates : SameCandidates (census first first_world) (census second second_world)
unfolding count
same_candidates p = rw (first-census, second-census) (omega arith)

first_quorum : (scr_tick first first_world).0.quorum_state ≡ degraded
unfolding scr_tick observe elect classify hold_recovery scr_init
first_quorum = rw first-census refl

second_quorum : (scr_tick second second_world).0.quorum_state ≡ degraded
unfolding scr_tick observe elect classify hold_recovery scr_init
second_quorum = rw second-census refl

leaders_agree_example :
    ((scr_tick first first_world).0.leader_id ≡ (scr_tick second second_world).0.leader_id)
    × ((scr_tick first first_world).0.swarm_size ≡ (scr_tick second second_world).0.swarm_size)
    × (first.own_id < second.own_id
        → (scr_tick first first_world).0.task_slot < (scr_tick second second_world).0.task_slot)
leaders_agree_example =
    leaders_agree first second first_world second_world same_candidates (λ e. cc first_quorum)
      (λ e. cc second_quorum)

scr_tick-IsElection_example :
    let s = (scr_tick first first_world).0 in
    ((s.quorum_state ≡ lost)
      × (s.leader_valid ≡ false)
      × (s.leader_id ≡ 255)
      × (s.role ≡ Role.none)
      × (s.task_slot ≡ 0)
      × (s.swarm_size ≡ 0))
    ⊎ ((s.quorum_state ≢ lost) × IsElection (census first first_world) s)
scr_tick-IsElection_example = scr_tick-IsElection first first_world

scr_tick-IsConsistent_example : IsConsistent (scr_tick first first_world).0
scr_tick-IsConsistent_example =
    scr_tick-IsConsistent first first_world (scr_init-IsConsistent 0 1 2 0)

abort_signal_example :
    let s = (scr_tick first first_world).0 in
    ((s.abort_state ≡ triggered)
      ↔ ((s.quorum_state ≡ lost) × ((first.quorum_state ≢ lost) ⊎ (first.abort_state ≡ triggered))))
    × ((s.abort_state ≡ cleared) ↔ ((s.quorum_state ≢ lost) × (first.abort_state ≡ triggered)))
abort_signal_example = abort_signal first first_world (scr_init-IsConsistent 0 1 2 0)
