-- ===== src/Bse/Served.antt =====
-- bse.c under choreo.c: the engine pursues the goal that the choreography has.
use mathlib.Core.Path.{◌∙◌, subst, ap, sym}
use tapestry.Prelude.{
  suc, ◌<◌, ◌≡◌, refl, Bool, true, false, List, [], ◌∷◌, some, arith, length, if◌then◌else◌,
}
use tapestry.Prelude.Floats.{FloatOps}
use tapestry.Choreo.Goals.{Goal, Intent, goal_to_intent}
use tapestry.Choreo.Remote.{ChoreoState, choreo_idle, choreo_running}
use tapestry.Choreo.State.{Engine, Script, Parked, Choreo, is_active}
use tapestry.Bse.Types.{TrigOps, ParkedIntent, Bse}
use tapestry.Bse.Intents.{
  bse_init, bse_submit_intent, bse_preempt_intent, bse_resume_intent, bse_set_track_scope, activate,
  reset_activation, snapshot_prev_goal,
}
use tapestry.Bse.Tick.{bse_tick}
use tapestry.Bse.Kept.{Keeps, resume_lem}

module _ {F : Type 0} ⦃fl : FloatOps F⦄ (trig : TrigOps F) where
  -- bse.h, as choreo.c calls it.
  abbrev pub bse_engine : Engine (Bse F) F
  bse_engine = record {
    init = bse_init;
    submit_intent = λ b i. bse_submit_intent b (some i);
    preempt_intent = λ b i. bse_preempt_intent b (some i);
    resume_intent = λ b. (bse_resume_intent b).0;
    set_track_scope = bse_set_track_scope;
    engine_tick = bse_tick trig;
    goal_achieved = λ b. b.act.achieved;
    anchor_gone = λ b. b.anchor_lost;
    directive = λ b. b.directive;
  }

module _ {F : Type 0} where
  -- One parked intent for each parked goal, in the same order, and for an active element the intent of
  -- its goal.
  pub data AreServed : List (Parked F) → List (ParkedIntent F) → Type 0 where
    nothing : AreServed [] []
    one_more :
        {p : Parked F} {q : ParkedIntent F} {ps : List (Parked F)} {qs : List (ParkedIntent F)}
        → q.intent ≡ goal_to_intent p.goal
        → AreServed ps qs
        → AreServed (p ∷ ps) (q ∷ qs)

  -- The engine serves the choreography: its intent and what it has parked are the choreography's.
  pub record Served (st : ChoreoState) (g : Goal F) (ps : List (Parked F)) (b : Bse F)
      : Type 0 where
    pub parked : AreServed ps b.parked
    pub current : is_active st ≡ true → b.intent ≡ goal_to_intent g

  abbrev pub IsServed : Choreo (Bse F) F → Type 0
  IsServed c = Served c.state c.goal c.parked c.bse

  pub AreServed-length :
      {ps : List (Parked F)} {qs : List (ParkedIntent F)} → AreServed ps qs → length ps ≡ length qs
  AreServed-length nothing = refl
  AreServed-length (one_more i r) = ap suc (AreServed-length r)

  pub Served-if :
      (st : ChoreoState) (g : Goal F) (ps : List (Parked F)) (t : Bool) (b1 b2 : Bse F)
      → Served st g ps b1
      → Served st g ps b2
      → Served st g ps (if t then b1 else b2)
  Served-if st g ps true b1 b2 s1 s2 = s1
  Served-if st g ps false b1 b2 s1 s2 = s2

  -- Only the intent and what is parked count.
  pub Served-Keeps :
      (st : ChoreoState) (g : Goal F) (ps : List (Parked F)) (b b' : Bse F)
      → Keeps b b'
      → Served st g ps b
      → Served st g ps b'
  Served-Keeps st g ps b b' k s = record {
    parked = subst (λ qs. AreServed ps qs) (sym k.parked) s.parked;
    current = λ a. k.intent ∙ s.current a;
  }

module _ {F : Type 0} ⦃fl : FloatOps F⦄ where
  submit_lem :
      (b : Bse F) (i : Intent F)
      → ((bse_submit_intent b (some i)).0.intent ≡ i)
        × ((bse_submit_intent b (some i)).0.parked ≡ [])
  unfolding bse_submit_intent activate reset_activation snapshot_prev_goal
  submit_lem b i = (ground arith, ground arith)

  -- A submission, while no goal is parked.
  pub submit-Served :
      (st : ChoreoState) (g : Goal F) (ps : List (Parked F)) (b : Bse F)
      → ps ≡ []
      → Served st g ps (bse_submit_intent b (some (goal_to_intent g))).0
  submit-Served st g ps b e =
      let (i, p) = submit_lem b (goal_to_intent g) in
      record { parked = rw e (subst (λ qs. AreServed [] qs) (sym p) nothing); current = λ a. i }

  -- The submission that ends everything.
  pub quiet-Served :
      (g : Goal F) (b : Bse F) (i : Intent F)
      → Served choreo_idle g [] (bse_submit_intent b (some i)).0
  quiet-Served g b i = record {
    parked = subst (λ qs. AreServed [] qs) (sym (submit_lem b i).1) nothing;
    current = λ a. cc;
  }

  preempt_lem :
      (b : Bse F) (i : Intent F)
      → length b.parked < 1
      → ((bse_preempt_intent b (some i)).0.intent ≡ i)
        × ((bse_preempt_intent b (some i)).0.parked
            ≡ record { intent = b.intent; act = b.act } ∷ b.parked)
        × ((bse_preempt_intent b (some i)).1 ≡ true)
  unfolding bse_preempt_intent activate reset_activation snapshot_prev_goal
  preempt_lem b i h = (ground arith, ground arith, ground arith)

  -- A preemption of an active element, while no goal is parked: the engine takes it.
  pub preempt-Served :
      (st : ChoreoState) (g g' : Goal F) (s : Script F) (ps : List (Parked F)) (b : Bse F)
      → is_active st ≡ true
      → length ps < 1
      → Served st g ps b
      → Served choreo_running g'
          (record { goal = g; script = s } ∷ ps)
          (bse_preempt_intent b (some (goal_to_intent g'))).0
        × ((bse_preempt_intent b (some (goal_to_intent g'))).1 ≡ true)
  preempt-Served st g g' s ps b a h k =
      let (i, p, d) =
        preempt_lem b (goal_to_intent g') (omega (arith, AreServed-length k.parked)) in
      (
        record {
          parked =
              subst (λ qs. AreServed (record { goal = g; script = s } ∷ ps) qs) (sym p)
                (one_more (k.current a) k.parked);
          current = λ a. i;
        },
        d,
      )

  -- A resumption brings the intent of the parked goal back.
  pub resume-Served :
      (st : ChoreoState) (p : Parked F) (ps : List (Parked F)) (b : Bse F)
      (qs : List (ParkedIntent F))
      → b.parked ≡ qs
      → AreServed (p ∷ ps) qs
      → Served st p.goal ps (bse_resume_intent b).0
  resume-Served st p ps b [] e k = elim k [ ]
  resume-Served st p ps b (q ∷ qs) e (one_more i r) =
      let (i', a, k, d) = resume_lem b q qs e in
      record { parked = subst (λ qs. AreServed ps qs) (sym k) r; current = λ a. i' ∙ i }
