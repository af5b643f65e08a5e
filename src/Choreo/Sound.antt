-- ===== src/Choreo/Sound.antt =====
-- choreo.c: what holds of scripts, parked goals and tracks between two operations.
use mathlib.Core.Path.{subst}
use tapestry.Prelude.{
  ℕ, zero, suc, ◌≤◌, ◌<◌, ◌≡◌, refl, ◌⊎◌, true, false, List, [], ◌∷◌, some, arith, length,
  get_elem?, set, All,
}
use tapestry.Choreo.Remote.{ChoreoState}
use tapestry.Choreo.Steps.{Transition, Step, Track}
use tapestry.Choreo.State.{Script, Parked, Choreo, is_active}

-- The targets of some transitions lie in a script of n steps, or at its end.
abbrev pub TargetsIn : ℕ → List Transition → Type 0
TargetsIn n ts = All (λ t. t.goto_step_idx ≤ n) ts

module _ {F : Type 0} where
  -- Steps as validate_steps() leaves them: few enough for a uint8_t, and with all targets in range.
  pub record IsSteps (steps : List (Step F)) : Type 0 where
    pub small : length steps < 256
    pub targets : All (λ st. TargetsIn (length steps) st.on) steps

  -- The current step of an active script is one of its steps.
  pub record IsScript (s : Script F) : Type 0 where
    pub steps : IsSteps s.steps
    pub placed : s.active ≡ true → s.step_idx < length s.steps

  -- The first n tracks have steps, and remember one of them.
  abbrev pub Ready : ℕ → List (Track F) → List ℕ → Type 0
  Ready zero ts is = Unit
  Ready (suc n) [] is = ⊥
  Ready (suc n) (t ∷ ts) [] = ⊥
  Ready (suc n) (t ∷ ts) (i ∷ is) = IsSteps t.steps × (i < length t.steps) × Ready n ts is

  -- The script that the tracks are about: where a goal has preempted it, the parked one.
  abbrev pub own_script : Script F → List (Parked F) → Script F
  own_script s [] = s
  own_script s (p ∷ ps) = p.script

  -- The script of an element in multi-track mode is the active track's.
  pub record OnTrack (s : Script F) (table : List (Track F)) (n act : ℕ) (idxs : List ℕ)
      : Type 0 where
    pub ready : Ready n table idxs
    pub within : act < n
    pub running : s.active ≡ true
    pub same : (t : Track F) → get_elem? table act ≡ some t → t.steps ≡ s.steps

  pub record Sound (s : Script F) (ps : List (Parked F)) (st : ChoreoState) (table : List (Track F))
      (n act : ℕ) (idxs : List ℕ) : Type 0 where
    pub script : IsScript s
    pub parked : All (λ p. IsScript p.script) ps
    pub one : length ps ≤ 1
    pub quiet : (ps ≡ []) ⊎ (s.active ≡ false)
    pub cleared : (is_active st ≡ true) ⊎ ((s.active ≡ false) × (ps ≡ []) × (n ≡ 0))
    pub tracks : (n ≡ 0) ⊎ OnTrack (own_script s ps) table n act idxs

  pub Ready-at :
      (n k : ℕ) (ts : List (Track F)) (is : List ℕ)
      → Ready n ts is
      → k < n
      → (t : Track F) × (i : ℕ) × (get_elem? ts k ≡ some t)
        × (get_elem? is k ≡ some i)
        × IsSteps t.steps
        × (i < length t.steps)
  Ready-at zero k ts is r h = absurd (omega arith)
  Ready-at (suc n) k [] is r h = absurd r
  Ready-at (suc n) k (t ∷ ts) [] r h = absurd r
  Ready-at (suc n) zero (t ∷ ts) (i ∷ is) (a, b, r) h = (t, i, refl, refl, a, b)
  Ready-at (suc n) (suc k) (t ∷ ts) (i ∷ is) (a, b, r) h = Ready-at n k ts is r (omega arith)

  pub Ready-IsSteps :
      (n k : ℕ) (ts : List (Track F)) (is : List ℕ) (t : Track F)
      → Ready n ts is
      → k < n
      → get_elem? ts k ≡ some t
      → IsSteps t.steps
  Ready-IsSteps n k ts is t r h e =
      let (t', i, at, j, steps, h') = Ready-at n k ts is r h in
      let same : t' ≡ t = cc in subst (λ (x : Track F). IsSteps x.steps) same steps

  pub own_script_lem : (s : Script F) (ps : List (Parked F)) → ps ≡ [] → own_script s ps ≡ s
  own_script_lem s [] e = refl
  own_script_lem s (p ∷ ps) e = cc

  pub Ready-set :
      (n k : ℕ) (ts : List (Track F)) (is : List ℕ) (v : ℕ)
      → Ready n ts is
      → ((t : Track F) → get_elem? ts k ≡ some t → v < length t.steps)
      → Ready n ts (set is k v)
  Ready-set zero k ts is v r h = tt
  Ready-set (suc n) k [] is v r h = absurd r
  Ready-set (suc n) k (t ∷ ts) [] v r h = absurd r
  Ready-set (suc n) zero (t ∷ ts) (i ∷ is) v (a, b, r) h = (a, h t refl, r)
  Ready-set (suc n) (suc k) (t ∷ ts) (i ∷ is) v (a, b, r) h = (a, b, Ready-set n k ts is v r h)

module _ {X F : Type 0} where
  abbrev pub IsSound : Choreo X F → Type 0
  IsSound c =
      Sound c.script c.parked c.state c.tracks.table c.tracks.n_tracks c.tracks.active_idx
        c.tracks.step_idxs
