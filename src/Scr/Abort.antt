-- ===== src/Scr/Abort.antt =====
-- The quorum-recovery hold and the abort signal of scr_tick(), over runs of ticks.
use tapestry.Prelude.{ℕ, ◌≡◌, refl, sym, ◌∙◌, ◌↔◌, ◌≢◌, ◌⊎◌, false, List, [], ◌∷◌, arith}
use tapestry.WorldModel.Types.{WorldModel}
use tapestry.Scr.Types.{Quorum, lost, Abort, triggered, cleared, is_lost, ScrState, scr_init}
use tapestry.Scr.Tick.{hold_recovery, abort_step, observe, classify, census, elect, scr_tick}

-- What the abort signal says of the quorum: triggered only while the quorum is lost, cleared only
-- while it is not; and the quorum seen last is the one reported.
pub record IsConsistent (scr : ScrState) : Type 0 where
  pub same : scr.prev_quorum_state ≡ scr.quorum_state
  pub when_triggered : scr.abort_state ≡ triggered → scr.quorum_state ≡ lost
  pub when_cleared : scr.abort_state ≡ cleared → is_lost scr.quorum_state ≡ false

abort_step_lem :
    (a : Abort) (prev now : Quorum)
    → (a ≡ triggered → prev ≡ lost)
    → (abort_step a prev now ≡ triggered → now ≡ lost)
      × (abort_step a prev now ≡ cleared → is_lost now ≡ false)
unfolding abort_step
abort_step_lem a prev now h = (λ e. ground arith, λ e. ground arith)

-- What step 3 makes of the signal, exactly.
abort_step_iff :
    (a : Abort) (prev now : Quorum)
    → (a ≡ triggered → prev ≡ lost)
    → ((abort_step a prev now ≡ triggered) ↔ ((now ≡ lost) × ((prev ≢ lost) ⊎ (a ≡ triggered))))
      × ((abort_step a prev now ≡ cleared) ↔ ((now ≢ lost) × (a ≡ triggered)))
unfolding abort_step
abort_step_iff a prev now h =
    ((λ e. grind arith, λ e. grind arith), (λ e. grind arith, λ e. grind arith))

-- A tick reports what observe() computes.
tick_reports :
    {F : Type 0} (scr : ScrState) (wm : WorldModel F)
    → let s = (scr_tick scr wm).0 in
      let o = observe scr (census scr wm) in
      (s.abort_state ≡ o.abort_state)
      × (s.quorum_state ≡ o.quorum_state)
      × (s.prev_quorum_state ≡ o.prev_quorum_state)
unfolding scr_tick elect
tick_reports scr wm = ground arith

-- The signals are consistent from the start.
pub scr_init-IsConsistent :
    (own quorum_min target caps : ℕ) → IsConsistent (scr_init own quorum_min target caps)
unfolding scr_init
scr_init-IsConsistent own quorum_min target caps = record {
  same = refl;
  when_triggered = λ e. cc;
  when_cleared = λ e. cc;
}

-- scr_tick() keeps the signal consistent with the quorum that it reports: TRIGGERED only while it is
-- lost, CLEARED only while it is not, and the quorum seen last is the one reported.
pub scr_tick-IsConsistent :
    {F : Type 0} (scr : ScrState) (wm : WorldModel F)
    → IsConsistent scr
    → IsConsistent (scr_tick scr wm).0
unfolding observe
scr_tick-IsConsistent scr wm c =
    let (a, q, p) = tick_reports scr wm in
    let now =
      (hold_recovery scr.quorum_hold_ms scr.quorum_recovery_ms scr.quorum_state
        (classify scr (census scr wm))).0 in
    let (t, cl) =
      abort_step_lem scr.abort_state scr.prev_quorum_state now (λ e. c.same ∙ c.when_triggered e) in
    record {
      same = p ∙ sym q;
      when_triggered = λ e. q ∙ t (sym a ∙ e);
      when_cleared = λ e. rw q (cl (sym a ∙ e));
    }

-- Each tick's signal.  From consistent state, TRIGGERED is reported exactly while the quorum is lost
-- and either was not lost before, or TRIGGERED was already up; CLEARED exactly when the quorum is not
-- lost and TRIGGERED was up, so for one tick and never without TRIGGERED before it.
pub abort_signal :
    {F : Type 0} (scr : ScrState) (wm : WorldModel F)
    → IsConsistent scr
    → let s = (scr_tick scr wm).0 in
      ((s.abort_state ≡ triggered)
        ↔ ((s.quorum_state ≡ lost) × ((scr.quorum_state ≢ lost) ⊎ (scr.abort_state ≡ triggered))))
      × ((s.abort_state ≡ cleared) ↔ ((s.quorum_state ≢ lost) × (scr.abort_state ≡ triggered)))
unfolding observe
abort_signal scr wm c =
    let (a, q, p) = tick_reports scr wm in
    rw (a, q, ← c.same)
      (abort_step_iff scr.abort_state scr.prev_quorum_state _ (λ e. c.same ∙ c.when_triggered e))

-- The hold over a run of raw readings: what is reported after them, and the accumulated time.
pub run_hold : ℕ → Quorum → ℕ → List Quorum → Quorum × ℕ
run_hold hold_ms reported recovery_ms [] = (reported, recovery_ms)
run_hold hold_ms reported recovery_ms (raw ∷ raws) =
    let (q, r) = hold_recovery hold_ms recovery_ms reported raw in run_hold hold_ms q r raws
