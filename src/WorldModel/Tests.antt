-- ===== src/WorldModel/Tests.antt =====
-- world_model.c: the theorems on the model of element 1.
use tapestry.Prelude.{
  ◌+◌, not, replicate, ℕ, ◌≡◌, refl, true, [], ◌∷◌, arith, length, All, min, count, ltb,
}
use tapestry.Prelude.Floats.{whole}
use tapestry.Prelude.Sort.{Ascending}
use tapestry.Facts.Types.{default_config, Position}
use tapestry.WorldModel.Types.{WorldModel}
use tapestry.WorldModel.Ops.{update_self, receive_gossip}
use tapestry.WorldModel.Cycle.{wm_init, wm_tick, recompute_metric}
use tapestry.WorldModel.Invariant.{IsModel}
use tapestry.WorldModel.Init.{wm_init-IsModel}
use tapestry.WorldModel.Reach.{start, next, received, updated, ticked, Reach-IsModel}
use tapestry.WorldModel.Receive.{Outcome, receive_gossip_lem}
use tapestry.WorldModel.Queries.{
  CollisionEvent, collides, check_collisions, check_collisions_lem, is_near, farther,
  nearest_candidates, nearest_candidates_lem,
}
use tapestry.WorldModel.Counts.{
  is_fresh_peer, is_stale_peer, is_inactive_peer, recompute_metric_lem,
}
use tapestry.WorldModel.Samples.{state_of, entry_of, world_of}

abbrev alone : WorldModel ℕ
alone = wm_init default_config 1 (state_of 1) 1

alone-IsModel : IsModel alone
alone-IsModel = wm_init-IsModel default_config 1 (state_of 1) 1 refl

alone-owner : 1 ≡ alone.owner_id
unfolding wm_init recompute_metric
alone-owner = refl

receive_gossip_lem_example : Outcome alone (state_of 0) (receive_gossip alone (state_of 0))
receive_gossip_lem_example = receive_gossip_lem alone (state_of 0) alone-IsModel.sized

alone-heard : 1 ≡ (receive_gossip alone (state_of 0)).0.owner_id
unfolding wm_init recompute_metric receive_gossip
alone-heard = refl

-- Element 1 hears element 0, publishes its own state, and a cycle passes.
Reach-IsModel_example :
    IsModel (
      wm_tick default_config (update_self (receive_gossip alone (state_of 0)).0 (state_of 1)).0 100)
Reach-IsModel_example = Reach-IsModel {cfg = default_config} (
    next
      (next (next (start 1 (state_of 1) 1 refl) (received (state_of 0)))
        (updated (state_of 1) alone-heard))
      (ticked 100))

abbrev crowd : WorldModel ℕ
crowd = world_of 7 (entry_of 0 ∷ entry_of 1 ∷ [])

abbrev origin : Position ℕ
origin = record { x = 0; y = 0; z = 0 }

check_collisions_lem_example :
    let (wm', events) = check_collisions crowd origin 4 in
    (length events ≡ min 4 (count (collides origin) crowd.entries))
    × All (λ (v : CollisionEvent ℕ). (v.element_a ≡ 7) × (ltb v.distance 3 ≡ true)) events
    × (wm'.metric.collision_count ≡ length events)
    × (wm'.entries ≡ crowd.entries)
check_collisions_lem_example = check_collisions_lem crowd origin 4 (omega arith)

nearest_candidates_lem_example :
    let cs = nearest_candidates crowd origin 9 1 in
    (length cs ≡ min 1 (count (is_near origin 9) crowd.entries)) × Ascending farther cs
nearest_candidates_lem_example =
    nearest_candidates_lem crowd origin 9 1 (λ a b h. ground arith) (λ a b c h k. ground arith)

abbrev full : WorldModel ℕ
full = world_of 7 (replicate 32 (entry_of 0))

recompute_metric_lem_example :
    let m = (recompute_metric full).metric in
    (m.active_fresh ≡ count is_fresh_peer full.entries)
    × (m.active_stale ≡ count is_stale_peer full.entries)
    × (m.inactive_total ≡ count is_inactive_peer full.entries)
    × (m.active_total ≡ m.active_fresh + m.active_stale)
    × (m.degraded ≡ not m.quorum_held)
    × (m.active_total ≡ 0 → m.quorum_held ≡ true)
recompute_metric_lem_example = recompute_metric_lem full refl
