-- ===== src/Choreo/Loading.antt =====
-- choreo.c: the submissions keep what holds of the storage.
use tapestry.Prelude.{
  ℕ, ◌<◌, ◌≡◌, refl, inl, inr, Bool, true, false, List, [], ◌∷◌, Option, arith, length, All,
}
use tapestry.Prelude.Floats.{FloatOps}
use tapestry.Choreo.Remote.{choreo_idle, choreo_running}
use tapestry.Choreo.Goals.{Goal}
use tapestry.Choreo.Steps.{Transition, Step}
use tapestry.Choreo.State.{Engine, Answer, accepted, Choreo}
use tapestry.Choreo.Lifecycle.{start_over, configure_deploy}
use tapestry.Choreo.Scripts.{
  past_end, validate_step, validate_from, validate_steps, first_step, after_deploy, start_script,
  choreo_submit_script, submit_validated, choreo_submit_script,
}
use tapestry.Choreo.Sound.{TargetsIn, IsSteps, IsScript, IsSound}
use tapestry.Choreo.Submission.{
  IsCleared, Supersedes, start_over-IsCleared, configure_deploy-Supersedes,
}
use tapestry.Choreo.Kept.{start_over-IsSound, configure_deploy-IsSound}

past_end_lem : (n : ℕ) (ts : List Transition) → past_end n ts ≡ false → TargetsIn n ts
unfolding past_end
past_end_lem n [] h = tt
past_end_lem n (t ∷ ts) h = ground (arith, past_end_lem n ts)

module _ {F : Type 0} where
  validate_step_lem :
      (hw : Option ℕ) (b : Bool) (n : ℕ) (st : Step F)
      → validate_step hw b n st ≡ accepted
      → TargetsIn n st.on
  unfolding validate_step
  validate_step_lem hw b n st h = ground (arith, past_end_lem n st.on)

  validate_from_lem :
      (hw : Option ℕ) (b : Bool) (n : ℕ) (sts : List (Step F))
      → validate_from hw b n sts ≡ accepted
      → All (λ st. TargetsIn n st.on) sts
  unfolding validate_from
  validate_from_lem hw b n [] h = tt
  validate_from_lem hw b n (st ∷ sts) h =
      ground (arith, validate_step_lem hw b n st, validate_from_lem hw b n sts)

  -- Steps that are accepted are some, and have their targets in range.
  pub validate_steps_lem :
      (hw : Option ℕ) (sts : List (Step F)) (b : Bool)
      → validate_steps hw sts b ≡ accepted
      → length sts < 256
      → IsSteps sts × (0 < length sts)
  unfolding validate_steps
  validate_steps_lem hw [] b h small = cc
  validate_steps_lem hw (st ∷ sts) b h small = (
    record { small = small; targets = validate_from_lem hw b (length (st ∷ sts)) (st ∷ sts) h },
    omega arith,
  )

  pub first_step-IsScript :
      (sts : List (Step F)) → IsSteps sts → 0 < length sts → IsScript (first_step sts)
  first_step-IsScript sts k h = record { steps = k; placed = λ u. h }

module _ {X F : Type 0} where
  pub cleared_lem : (c : Choreo X F) → IsSound c → c.state ≡ choreo_idle → IsCleared c
  cleared_lem c ok e = elim (ok.cleared) [ inl a ↦ cc | inr k ↦ k ]

module _ {X F : Type 0} ⦃fl : FloatOps F⦄ (engine : Engine X F) where
  -- In a storage that is cleared, some steps begin.
  begin_lem :
      (c : Choreo X F) (sts : List (Step F))
      → IsSteps sts
      → 0 < length sts
      → c.state ≡ choreo_running
      → IsCleared c
      → IsSound c
      → IsSound (record c { script = first_step sts })
  begin_lem c sts k h run (off, empty, zero_) ok = record {
    script = first_step-IsScript sts k h;
    parked = ok.parked;
    one = ok.one;
    quiet = inl empty;
    cleared = inl (rw run refl);
    tracks = inl zero_;
  }

  after_deploy-IsSound :
      (sts : List (Step F)) (g : Goal F) (r : Choreo X F × Answer)
      → IsSteps sts
      → 0 < length sts
      → Supersedes g r
      → IsSound r.0
      → IsSound (after_deploy engine sts r).0
  unfolding after_deploy
  after_deploy-IsSound sts g (c, accepted) k h (run, e, off) ok = begin_lem c sts k h run off ok
  after_deploy-IsSound sts g (c, _) k h sup ok = ok

  start_script-IsSound :
      (c : Choreo X F) (sts : List (Step F))
      → IsSteps sts × (0 < length sts)
      → IsSound c
      → IsSound (start_script engine c sts).0
  unfolding start_script
  start_script-IsSound c [] k ok = ok
  start_script-IsSound c (st ∷ sts) (k, h) ok =
      let c0 = start_over engine c in
      let (e, off) = start_over-IsCleared engine c (cleared_lem c ok) in
      after_deploy-IsSound (st ∷ sts) st.goal (configure_deploy engine c0 st.goal) k h
        (configure_deploy-Supersedes engine c0 st.goal e off)
        (configure_deploy-IsSound engine c0 st.goal (start_over-IsSound engine c ok))

  submit_validated-IsSound :
      (a : Answer) (c : Choreo X F) (sts : List (Step F))
      → (a ≡ accepted → IsSteps sts × (0 < length sts))
      → IsSound c
      → IsSound (submit_validated engine a c sts).0
  unfolding submit_validated
  submit_validated-IsSound accepted c sts k ok = start_script-IsSound c sts (k refl) ok
  submit_validated-IsSound _ c sts k ok = ok

  pub choreo_submit_script-IsSound :
      (c : Choreo X F) (sts : List (Step F))
      → length sts < 256
      → IsSound c
      → IsSound (choreo_submit_script engine c sts).0
  unfolding choreo_submit_script
  choreo_submit_script-IsSound c sts small ok =
      submit_validated-IsSound (validate_steps c.hw_caps sts true) c sts
        (λ e. validate_steps_lem c.hw_caps sts true e small) ok
