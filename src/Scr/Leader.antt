-- ===== src/Scr/Leader.antt =====
-- What scr_tick() elects, and that elements which see the same candidates agree.
use mathlib.Core.Path.{subst}
use tapestry.Prelude.{
  ℕ, ◌+◌, ◌≤◌, ◌<◌, ◌≡◌, refl, sym, ◌↔◌, ◌≢◌, ◌⊎◌, inl, inr, Bool, true, false, List, [], ◌∷◌,
  arith, ltb, ◌==◌, Bool-cases, count,
}
use tapestry.WorldModel.Types.{WorldModel, id_invalid}
use tapestry.Scr.Types.{lost, is_lost, Role, ScrState}
use tapestry.Scr.Tick.{
  Census, census, observe, sorted_candidates, first_or, assign_role, elect, scr_tick,
}
use tapestry.Scr.Election.{
  below, occurs, sorted_candidates-Ascending, count-sorted_candidates, slot_from-below,
  first_or-least, length-sorted_candidates, length-count, IsCensus, census-IsCensus,
}

-- What a tick that does not find the quorum lost reports: the leader is a candidate below which there
-- is none; the task slot counts the candidates below the own id; the swarm is the own element and the
-- fresh peers; and the role is the leader's exactly if the own id leads.
pub record IsElection (c : Census) (s : ScrState) : Type 0 where
  pub valid : s.leader_valid ≡ true
  pub member : 0 < occurs s.leader_id c.candidates
  pub least : below s.leader_id c.candidates ≡ 0
  pub slot : s.task_slot ≡ below s.own_id c.candidates
  pub size : s.swarm_size ≡ c.fresh + 1
  pub leads : (s.role ≡ Role.leader) ↔ (s.own_id ≡ s.leader_id)

assign_role_leads :
    (own leader_id caps : ℕ) → (assign_role own leader_id caps ≡ Role.leader) ↔ (own ≡ leader_id)
unfolding assign_role
assign_role_leads own leader_id caps = (λ e. ground arith, λ e. ground arith)

elect-IsElection :
    (scr : ScrState) (c : Census) → IsCensus scr.own_id 32 c → IsElection c (elect scr c)
unfolding elect
elect-IsElection scr c k =
    let (low, mem) =
      first_or-least id_invalid (sorted_candidates c) (sorted_candidates-Ascending c)
        (omega (arith, length-sorted_candidates c, k.one_each)) in
    let m = first_or id_invalid (sorted_candidates c) in
    record {
      valid = refl;
      member = omega (arith, mem, count-sorted_candidates (λ x. x == m) c);
      least = omega (arith, low, count-sorted_candidates (λ x. ltb x m) c);
      slot = omega (
        arith,
        slot_from-below scr.own_id 0 (sorted_candidates c) (sorted_candidates-Ascending c)
            (omega (arith, k.own_in, count-sorted_candidates (λ x. x == scr.own_id) c))
            (omega (arith, length-sorted_candidates c, k.one_each, k.few)),
        count-sorted_candidates (λ x. ltb x scr.own_id) c,
      );
      size = omega (arith, k.one_each, k.few);
      leads = assign_role_leads scr.own_id m scr.capabilities;
    }

quorum_state-elect : (o : ScrState) (c : Census) → (elect o c).quorum_state ≡ o.quorum_state
unfolding elect
quorum_state-elect o c = refl

observe-own_id : (scr : ScrState) (c : Census) → (observe scr c).own_id ≡ scr.own_id
unfolding observe
observe-own_id scr c = refl

-- Each tick either reports the quorum as lost, with no leader, no role, no slot and an empty swarm,
-- or reports an election over the candidates it has collected: itself and the trusted, active, fresh
-- peers that have not departed.
pub scr_tick-IsElection :
    {F : Type 0} (scr : ScrState) (wm : WorldModel F)
    → let s = (scr_tick scr wm).0 in
      ((s.quorum_state ≡ lost)
        × (s.leader_valid ≡ false)
        × (s.leader_id ≡ id_invalid)
        × (s.role ≡ Role.none)
        × (s.task_slot ≡ 0)
        × (s.swarm_size ≡ 0))
      ⊎ ((s.quorum_state ≢ lost) × IsElection (census scr wm) s)
unfolding scr_tick
scr_tick-IsElection scr wm =
    let o = observe scr (census scr wm) in
    elim (Bool-cases (is_lost o.quorum_state)) [
      | inl e ↦ rw e (inl (ground arith, refl, refl, refl, refl, refl))
      | inr e ↦ rw e (
          inr (
            not_lost o e,
            elect-IsElection o (census scr wm) (
                subst (λ n. IsCensus n 32 (census scr wm))
                  (sym (observe-own_id scr (census scr wm))) (census-IsCensus scr wm)),
          ))
    ]
  where
    not_lost :
        (o : ScrState)
        → is_lost o.quorum_state ≡ false
        → (elect o (census scr wm)).quorum_state ≢ lost
    not_lost o e h =
        let q : (elect o (census scr wm)).quorum_state ≡ o.quorum_state = quorum_state-elect o _ in
        ground arith

-- The same candidates, in whatever order: as many of them pass any test.
abbrev pub SameCandidates : Census → Census → Type 0
SameCandidates c d = (p : ℕ → Bool) → count p c.candidates ≡ count p d.candidates

occurs-below : (m n : ℕ) (xs : List ℕ) → m < n → 0 < occurs m xs → 0 < below n xs
unfolding count
occurs-below m n [] h k = elim k [ ]
occurs-below m n (x ∷ xs) h k = ground (arith, occurs-below m n xs h)

below_mono : (m n : ℕ) (xs : List ℕ) → m ≤ n → below m xs ≤ below n xs
unfolding count
below_mono m n [] h = omega arith
below_mono m n (x ∷ xs) h = ground (arith, below_mono m n xs h)

below-lt : (m n : ℕ) (xs : List ℕ) → m < n → 0 < occurs m xs → below m xs < below n xs
unfolding count
below-lt m n [] h k = elim k [ ]
below-lt m n (x ∷ xs) h k = ground (arith, below-lt m n xs h, below_mono m n xs (omega arith))

-- Of the elections themselves.
elections_agree :
    (c d : Census) (s s' : ScrState)
    → IsCensus s.own_id 32 c
    → IsCensus s'.own_id 32 d
    → SameCandidates c d
    → IsElection c s
    → IsElection d s'
    → (s.leader_id ≡ s'.leader_id)
      × (s.swarm_size ≡ s'.swarm_size)
      × (s.own_id < s'.own_id → s.task_slot < s'.task_slot)
elections_agree c d s s' k k' same e e' = (
  leaders,
  omega (
    arith,
    e.size,
    e'.size,
    k.one_each,
    k'.one_each,
    length-count c.candidates,
    length-count d.candidates,
    same (λ _. true),
  ),
  λ h. omega (
    arith,
    e.slot,
    e'.slot,
    below-lt s.own_id s'.own_id c.candidates h k.own_in,
    same (λ x. ltb x s'.own_id),
  ),
)
  where
    no_less : (m n : ℕ) → 0 < occurs m c.candidates → below n c.candidates ≡ 0 → n ≤ m
    no_less m n h z = elim (Bool-cases (ltb m n)) [
      | inl l ↦ omega (arith, occurs-below m n c.candidates (ground arith) h)
      | inr l ↦ ground arith
    ]

    leaders : s.leader_id ≡ s'.leader_id
    leaders = omega (
      arith,
      no_less s.leader_id s'.leader_id e.member
          (omega (arith, same (λ x. ltb x s'.leader_id), e'.least)),
      no_less s'.leader_id s.leader_id (omega (arith, same (λ x. x == s'.leader_id), e'.member))
          e.least,
    )

scr_tick-own_id :
    {F : Type 0} (scr : ScrState) (wm : WorldModel F) → (scr_tick scr wm).0.own_id ≡ scr.own_id
unfolding scr_tick elect observe
scr_tick-own_id scr wm = ground arith

-- Leader election needs no message.  Two elements whose ticks collect the same candidates, in
-- whatever order, and neither of which finds the quorum lost, report the same leader and the same
-- size of the swarm; and the one with the smaller id has the smaller task slot.
pub leaders_agree :
    {F : Type 0} (scr scr' : ScrState) (wm wm' : WorldModel F)
    → SameCandidates (census scr wm) (census scr' wm')
    → let s = (scr_tick scr wm).0 in
      let s' = (scr_tick scr' wm').0 in
      s.quorum_state ≢ lost
      → s'.quorum_state ≢ lost
      → (s.leader_id ≡ s'.leader_id)
        × (s.swarm_size ≡ s'.swarm_size)
        × (scr.own_id < scr'.own_id → s.task_slot < s'.task_slot)
leaders_agree {F} scr scr' wm wm' same h h' =
    let own = scr_tick-own_id scr wm in
    let own' = scr_tick-own_id scr' wm' in
    let (leaders, sizes, slots) =
      elections_agree (census scr wm) (census scr' wm') (scr_tick scr wm).0 (scr_tick scr' wm').0
        (rw own (census-IsCensus scr wm)) (rw own' (census-IsCensus scr' wm')) same
        (elected scr wm h) (elected scr' wm' h') in
    (leaders, sizes, λ k. slots (omega (arith, own, own', k)))
  where
    elected :
        (scr : ScrState) (wm : WorldModel F)
        → (scr_tick scr wm).0.quorum_state ≢ lost
        → IsElection (census scr wm) (scr_tick scr wm).0
    elected scr wm h = elim (scr_tick-IsElection scr wm) [ inl l ↦ absurd (h l.0) | inr e ↦ e.1 ]
