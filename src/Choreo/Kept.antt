-- ===== src/Choreo/Kept.antt =====
-- choreo.c: the operations on goals, scripts and departures keep what holds of the storage.
use tapestry.Prelude.{
  ℕ, ◌<◌, ◌≡◌, refl, sym, ◌∙◌, ◌⊎◌, inl, inr, true, false, not, List, [], ◌∷◌, Option, none, some,
  arith, leb, if◌then◌else◌, length, get_elem?, u8, lt-length, Bool-cases, Option-cases,
}
use tapestry.Prelude.Floats.{FloatOps}
use tapestry.Facts.Types.{Position}
use tapestry.Choreo.Remote.{choreo_running}
use tapestry.Choreo.Goals.{Goal, goal_to_intent, is_no_goal, caps_satisfied, derived_caps}
use tapestry.Choreo.Steps.{Policy, carry_on, hold, land_in_place, recall}
use tapestry.Choreo.State.{
  Engine, Answer, accepted, no_capability, Script, Parked, Choreo, no_script, max_preempt_depth,
  is_active,
}
use tapestry.Choreo.Lifecycle.{
  terminate_hard, choreo_terminate, choreo_configure, choreo_deploy, choreo_preempt_goal, park_goal,
  start_over, configure_deploy,
}
use tapestry.Choreo.Scripts.{advance_to}
use tapestry.Choreo.Departures.{
  land_for_departure, trigger_recall, trigger_hold, after_hold, after_recall, recall_goal,
  hold_goal, trigger_departure_policy,
}
use tapestry.Choreo.Sound.{IsScript, own_script, OnTrack, Sound, IsSound}

module _ {F : Type 0} where
  pub no_script-IsScript : IsScript {F = F} no_script
  no_script-IsScript = record {
    steps = record { small = omega arith; targets = tt };
    placed = λ e. cc;
  }

module _ {X F : Type 0} ⦃fl : FloatOps F⦄ (engine : Engine X F) where
  pub terminate_hard-IsSound : (c : Choreo X F) → IsSound (terminate_hard engine c)
  unfolding terminate_hard
  terminate_hard-IsSound c = record {
    script = no_script-IsScript;
    parked = tt;
    one = omega arith;
    quiet = inl refl;
    cleared = inr (refl, refl, refl);
    tracks = inl refl;
  }

  pub choreo_terminate-IsSound : (c : Choreo X F) → IsSound c → IsSound (choreo_terminate engine c)
  unfolding choreo_terminate
  choreo_terminate-IsSound c ok = go c.parked ok
    where
      go :
          (ps : List (Parked F))
          → Sound c.script ps c.state c.tracks.table c.tracks.n_tracks c.tracks.active_idx
              c.tracks.step_idxs
          → IsSound (elim ps [
            | [] ↦ terminate_hard engine c
            | p ∷ ps ↦ record c {
              goal = p.goal;
              script = p.script;
              parked = ps;
              state = choreo_running;
              bse = engine.resume_intent c.bse;
            }
          ])
      go [] k = terminate_hard-IsSound c
      go (p ∷ []) k = record {
        script = k.parked.0;
        parked = tt;
        one = omega arith;
        quiet = inl refl;
        cleared = inl refl;
        tracks = k.tracks;
      }
      go (p ∷ q ∷ ps) k = absurd (omega (arith, k.one))

  pub choreo_configure-IsSound :
      (c : Choreo X F) (g : Option (Goal F)) → IsSound c → IsSound (choreo_configure engine c g).0
  unfolding choreo_configure
  choreo_configure-IsSound c none ok = ok
  choreo_configure-IsSound c (some g) ok = ground arith

  pub choreo_deploy-IsSound : (c : Choreo X F) → IsSound c → IsSound (choreo_deploy engine c).0
  unfolding choreo_deploy
  choreo_deploy-IsSound c ok = ground arith

  pub configure_deploy-IsSound :
      (c : Choreo X F) (g : Goal F) → IsSound c → IsSound (configure_deploy engine c g).0
  unfolding configure_deploy
  configure_deploy-IsSound c g ok = ground (
    arith,
    choreo_configure-IsSound c (some g),
    choreo_deploy-IsSound (choreo_configure engine c (some g)).0,
  )

  -- The storage after a goal is parked.
  park_lem :
      (c : Choreo X F)
      → length c.parked < 1
      → IsSound c
      → Sound
          (record (c.script) { active = false })
          (record { goal = c.goal; script = c.script } ∷ c.parked)
          choreo_running
          c.tracks.table
          c.tracks.n_tracks
          c.tracks.active_idx
          c.tracks.step_idxs
  park_lem c h ok = record {
    script = record { steps = ok.script.steps; placed = λ e. cc };
    parked = (ok.script, ok.parked);
    one = omega arith;
    quiet = inr refl;
    cleared = inl refl;
    tracks = unparked c.parked h ok.tracks;
  }
    where
      unparked :
          (ps : List (Parked F))
          → length ps < 1
          → (c.tracks.n_tracks ≡ 0)
            ⊎ OnTrack
                (own_script c.script ps)
                c.tracks.table
                c.tracks.n_tracks
                c.tracks.active_idx
                c.tracks.step_idxs
          → (c.tracks.n_tracks ≡ 0)
            ⊎ OnTrack c.script c.tracks.table c.tracks.n_tracks c.tracks.active_idx
                c.tracks.step_idxs
      unparked [] h t = t
      unparked (p ∷ ps) h t = absurd (omega arith)

  preempt_lem :
      (c : Choreo X F) (g : Goal F)
      → length c.parked < 1
      → IsSound c
      → IsSound
          (if not (caps_satisfied c.hw_caps (derived_caps g))
            then (c, no_capability)
            else park_goal engine c g).0
  unfolding park_goal
  preempt_lem c g h ok = elim (Bool-cases (not (caps_satisfied c.hw_caps (derived_caps g)))) [
    | inl e ↦ rw e ok
    | inr e ↦ rw e elim (Bool-cases (not (engine.preempt_intent c.bse (goal_to_intent g)).1)) [
      | inl e ↦ rw e ok
      | inr e ↦ rw e (park_lem c h ok)
    ]
  ]

  pub choreo_preempt_goal-IsSound :
      (c : Choreo X F) (g : Option (Goal F))
      → IsSound c
      → IsSound (choreo_preempt_goal engine c g).0
  unfolding choreo_preempt_goal
  choreo_preempt_goal-IsSound c none ok = ok
  choreo_preempt_goal-IsSound c (some g) ok = elim (Bool-cases (is_no_goal g.type)) [
    | inl e ↦ rw e ok
    | inr e ↦ rw e elim (Bool-cases (not (is_active c.state))) [
      | inl e ↦ rw e ok
      | inr e ↦ rw e elim (Bool-cases (leb max_preempt_depth (length c.parked))) [
        | inl e ↦ rw e ok
        | inr e ↦ rw e (preempt_lem c g (ground arith) ok)
      ]
    ]
  ]

  pub start_over-IsSound : (c : Choreo X F) → IsSound c → IsSound (start_over engine c)
  unfolding start_over
  start_over-IsSound c ok = ground (arith, terminate_hard-IsSound c)

  -- The storage at another step of the same script, or at another time of the step.
  pub rescript_lem :
      (c : Choreo X F) (s : Script F)
      → s.steps ≡ c.script.steps
      → s.active ≡ c.script.active
      → IsScript s
      → IsSound c
      → IsSound (record c { script = s })
  rescript_lem c s e a k ok = record {
    script = k;
    parked = ok.parked;
    one = ok.one;
    quiet = ground (arith, ok.quiet);
    cleared = ground (arith, ok.cleared);
    tracks = same_tracks c.parked ok.tracks;
  }
    where
      same_tracks :
          (ps : List (Parked F))
          → (c.tracks.n_tracks ≡ 0)
            ⊎ OnTrack
                (own_script c.script ps)
                c.tracks.table
                c.tracks.n_tracks
                c.tracks.active_idx
                c.tracks.step_idxs
          → (c.tracks.n_tracks ≡ 0)
            ⊎ OnTrack
                (own_script s ps)
                c.tracks.table
                c.tracks.n_tracks
                c.tracks.active_idx
                c.tracks.step_idxs
      same_tracks [] (inl e) = inl e
      same_tracks [] (inr t) = inr (record {
        ready = t.ready;
        within = t.within;
        running = a ∙ t.running;
        same = λ tr p. t.same tr p ∙ sym e;
      })
      same_tracks (p ∷ ps) t = t

  -- Nothing depends on the time spent in a step.
  pub spend_lem :
      (c : Choreo X F) (ms : ℕ)
      → IsSound c
      → IsSound (record c { script = record (c.script) { step_ms = ms } })
  spend_lem c ms ok =
      rescript_lem c (record (c.script) { step_ms = ms }) refl refl
        (record { steps = ok.script.steps; placed = ok.script.placed }) ok

  move_lem :
      (c : Choreo X F) (idx : ℕ)
      → idx < length c.script.steps
      → IsSound c
      → IsSound (record c { script = record (c.script) { step_ms = 0; step_idx = idx } })
  move_lem c idx h ok =
      rescript_lem c (record (c.script) { step_ms = 0; step_idx = idx }) refl refl
        (record { steps = ok.script.steps; placed = λ u. h }) ok

  pub advance_to-IsSound :
      (c : Choreo X F) (target : ℕ) → IsSound c → IsSound (advance_to engine c target)
  unfolding advance_to
  advance_to-IsSound c target ok = elim (Bool-cases (leb (length c.script.steps) target)) [
    | inl e ↦ rw e (
        choreo_terminate-IsSound
          (record c { script = record (c.script) { step_ms = 0 }; script_done = true })
          (spend_lem c 0 ok))
    | inr e ↦ rw e elim (Option-cases (get_elem? c.script.steps (u8 target))) [
      | inl g ↦ rw g (spend_lem c 0 ok)
      | inr (st, g) ↦ rw g (move_lem c (u8 target) (lt-length c.script.steps (u8 target) st g) ok)
    ]
  ]

  land-IsSound : (c : Choreo X F) (p : Policy) → IsSound c → IsSound (land_for_departure engine c p)
  unfolding land_for_departure
  land-IsSound c p ok = choreo_terminate-IsSound _ ok

  after_hold-IsSound : (r : Choreo X F × Answer) → IsSound r.0 → IsSound (after_hold engine r)
  unfolding after_hold
  after_hold-IsSound (c, accepted) ok = ok
  after_hold-IsSound (c, _) ok = land-IsSound c land_in_place ok

  after_recall-IsSound : (r : Choreo X F × Answer) → IsSound r.0 → IsSound (after_recall engine r)
  unfolding after_recall
  after_recall-IsSound (c, accepted) ok = ok
  after_recall-IsSound (c, _) ok = land-IsSound c land_in_place ok

  pub trigger-IsSound :
      (c : Choreo X F) (p : Policy) (point : Option (Position F))
      → IsSound c
      → IsSound (trigger_departure_policy engine c p point)
  unfolding trigger_departure_policy trigger_recall trigger_hold
  trigger-IsSound c recall none ok = land-IsSound c land_in_place ok
  trigger-IsSound c recall (some p) ok =
      after_recall-IsSound _ (choreo_preempt_goal-IsSound c (some (recall_goal engine p)) ok)
  trigger-IsSound c hold point ok =
      after_hold-IsSound _ (choreo_preempt_goal-IsSound c (some (hold_goal engine)) ok)
  trigger-IsSound c land_in_place point ok = land-IsSound c land_in_place ok
  trigger-IsSound c carry_on point ok = ok
