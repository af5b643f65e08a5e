-- ===== src/WorldModel/Queries.antt =====
-- tapestry-os/subsys/csm/world_model.c: wm_nearest_elements(), wm_check_collisions(), wm_snapshot().
use tapestry.Prelude.{
  ℕ, zero, suc, ◌^◌, ◌<◌, ◌≡◌, refl, Bool, true, false, not, ◌&&◌, ◌||◌, List, [], ◌∷◌, map, none,
  some, arith, ltb, if◌then◌else◌, get_elem?, length, take, length-take, All-take, All, count, min,
  Bool-cases, inl, inr, u8,
}
use tapestry.Prelude.Floats.{FloatOps}
use tapestry.Prelude.Sort.{
  Ascending, insertion_sort-Ascending, insertion_sort, count-insertion_sort,
}
use tapestry.Facts.Types.{Position, position_distance, max_elements}
use tapestry.WorldModel.Types.{Entry, ElementState, WorldModel, is_blank}

-- collision_event_t
pub record CollisionEvent (F : Type 0) : Type 0 where
  pub element_a : ℕ
  pub element_b : ℕ
  pub distance : F
  pub logical_clock : ℕ

and_right : (a b : Bool) → (a && b) ≡ true → b ≡ true
and_right true b h = h
and_right false b h = cc

-- near_candidate_t
pub record NearCandidate (F : Type 0) : Type 0 where
  pub id : ℕ
  pub dist : F

module _ {F : Type 0} where
  -- A populated, active entry of another element.
  abbrev pub is_other : Entry F → Bool
  is_other e = not (is_blank e) && e.is_active && not e.is_self

  -- wm_snapshot()
  unfoldable pub snapshot_from : List (Entry F) → List (ElementState F)
  snapshot_from [] = []
  snapshot_from (e ∷ es) =
      let rest = snapshot_from es in if is_blank e || not e.is_active then rest else e.state ∷ rest

  unfoldable pub snapshot : WorldModel F → ℕ → List (ElementState F)
  snapshot wm max_count = take max_count (snapshot_from wm.entries)

module _ {F : Type 0} ⦃fl : FloatOps F⦄ where
  -- MIN_SEPARATION
  abbrev pub min_separation : F
  min_separation = fl.of_ℕ 3

  -- Is this entry's element within the radius?
  abbrev pub is_near : Position F → F → Entry F → Bool
  is_near pos radius e = is_other e && fl.le (position_distance pos e.state.position) radius

  unfoldable pub near_from : Position F → F → List (Entry F) → List (NearCandidate F)
  near_from pos radius [] = []
  near_from pos radius (e ∷ es) =
      let rest = near_from pos radius es in
      if is_near pos radius e
      then record { id = e.state.id; dist = position_distance pos e.state.position } ∷ rest
      else rest

  abbrev pub farther : NearCandidate F → NearCandidate F → Bool
  farther a b = fl.lt b.dist a.dist

  -- The candidates that are given back, and their ids.
  unfoldable pub nearest_candidates : WorldModel F → Position F → F → ℕ → List (NearCandidate F)
  nearest_candidates wm pos radius max_count =
      take max_count (insertion_sort farther (near_from pos radius wm.entries))

  unfoldable pub nearest : WorldModel F → Position F → F → ℕ → List ℕ
  nearest wm pos radius max_count =
      map (λ (c : NearCandidate F). c.id) (nearest_candidates wm pos radius max_count)

  -- Is this entry's element too close?
  abbrev pub collides : Position F → Entry F → Bool
  collides pos e = is_other e && fl.lt (position_distance pos e.state.position) min_separation

  unfoldable pub collisions_from : ℕ → ℕ → Position F → List (Entry F) → List (CollisionEvent F)
  collisions_from owner clock pos [] = []
  collisions_from owner clock pos (e ∷ es) =
      let rest = collisions_from owner clock pos es in
      if collides pos e
      then record {
        element_a = owner;
        element_b = e.state.id;
        distance = position_distance pos e.state.position;
        logical_clock = clock;
      }
        ∷ rest
      else rest

  abbrev pub own_clock : WorldModel F → ℕ
  own_clock wm =
      if ltb wm.owner_id max_elements
      then elim (get_elem? wm.entries wm.owner_id) [ none ↦ 0 | some e ↦ e.state.logical_clock ]
      else 0

  -- The scan stops at `max_events`, which a prefix of all events stands for.
  unfoldable pub check_collisions :
      WorldModel F → Position F → ℕ → WorldModel F × List (CollisionEvent F)
  check_collisions wm own_pos max_events =
      let events =
        take max_events (collisions_from wm.owner_id (own_clock wm) own_pos wm.entries) in
      (record wm { metric = record (wm.metric) { collision_count = u8 (length events) } }, events)

  length-collisions_from :
      (owner clock : ℕ) (pos : Position F) (es : List (Entry F))
      → length (collisions_from owner clock pos es) ≡ count (collides pos) es
  unfolding collisions_from count
  length-collisions_from owner clock pos [] = refl
  length-collisions_from owner clock pos (e ∷ es) = elim (Bool-cases (collides pos e)) [
    | inl c ↦ rw c (omega (arith, length-collisions_from owner clock pos es))
    | inr c ↦ rw c (omega (arith, length-collisions_from owner clock pos es))
  ]

  All-collisions_from :
      (owner clock : ℕ) (pos : Position F) (es : List (Entry F))
      → All
          (λ (v : CollisionEvent F).
            (v.element_a ≡ owner) × (fl.lt v.distance min_separation ≡ true))
          (collisions_from owner clock pos es)
  unfolding collisions_from
  All-collisions_from owner clock pos [] = tt
  All-collisions_from owner clock pos (e ∷ es) = elim (Bool-cases (collides pos e)) [
    | inl c ↦ rw c ((refl, and_right _ _ c), All-collisions_from owner clock pos es)
    | inr c ↦ rw c (All-collisions_from owner clock pos es)
  ]

  -- wm_check_collisions() reports one event for each other active element that is closer than the
  -- minimum separation, up to the caller's maximum; each is the owner's and names such a distance;
  -- and the metric counts them.  The maximum is a byte.
  pub check_collisions_lem :
      (wm : WorldModel F) (pos : Position F) (max_events : ℕ)
      → max_events < 2 ^ 8
      → let (wm', events) = check_collisions wm pos max_events in
        (length events ≡ min max_events (count (collides pos) wm.entries))
        × All
            (λ (v : CollisionEvent F).
              (v.element_a ≡ wm.owner_id) × (fl.lt v.distance min_separation ≡ true))
            events
        × (wm'.metric.collision_count ≡ length events)
        × (wm'.entries ≡ wm.entries)
  unfolding check_collisions
  check_collisions_lem wm pos max_events h =
      let all = collisions_from wm.owner_id (own_clock wm) pos wm.entries in
      let n = length-take max_events all in
      let k = length-collisions_from wm.owner_id (own_clock wm) pos wm.entries in
      (
        omega (arith, n, k),
        All-take _ max_events all (All-collisions_from wm.owner_id (own_clock wm) pos wm.entries),
        omega (arith, n, h),
        refl,
      )

  length-near_from :
      (pos : Position F) (radius : F) (es : List (Entry F))
      → count (λ _. true) (near_from pos radius es) ≡ count (is_near pos radius) es
  unfolding near_from count
  length-near_from pos radius [] = refl
  length-near_from pos radius (e ∷ es) = elim (Bool-cases (is_near pos radius e)) [
    | inl c ↦ rw c (omega (arith, length-near_from pos radius es))
    | inr c ↦ rw c (omega (arith, length-near_from pos radius es))
  ]

  length-count_all : (cs : List (NearCandidate F)) → count (λ _. true) cs ≡ length cs
  unfolding count
  length-count_all [] = refl
  length-count_all (c ∷ cs) = omega (arith, length-count_all cs)

  Ascending-take :
      (n : ℕ) (cs : List (NearCandidate F)) → Ascending farther cs → Ascending farther (take n cs)
  Ascending-take zero cs h = tt
  Ascending-take (suc n) [] h = tt
  Ascending-take (suc n) (c ∷ cs) h = (All-take _ n cs h.0, Ascending-take n cs h.1)

  -- wm_nearest_elements() chooses among the other active elements within the radius: as many as there
  -- are, up to the caller's maximum, and in the order of their distances.  The order asks of the
  -- comparison that it is asymmetric and that not being farther is transitive, as it is of numbers.
  pub nearest_candidates_lem :
      (wm : WorldModel F) (pos : Position F) (radius : F) (max_count : ℕ)
      → ((a b : F) → fl.lt a b ≡ true → fl.lt b a ≡ false)
      → ((a b c : F) → fl.lt b a ≡ false → fl.lt c b ≡ false → fl.lt c a ≡ false)
      → let cs = nearest_candidates wm pos radius max_count in
        (length cs ≡ min max_count (count (is_near pos radius) wm.entries)) × Ascending farther cs
  unfolding nearest_candidates
  nearest_candidates_lem wm pos radius max_count asymm trans =
      let near = near_from pos radius wm.entries in
      let sorted = insertion_sort farther near in
      (
        omega (
          arith,
          length-take max_count sorted,
          length-count_all sorted,
          count-insertion_sort farther (λ _. true) near,
          length-near_from pos radius wm.entries,
        ),
        Ascending-take max_count sorted (
            insertion_sort-Ascending farther (λ a b. asymm b.dist a.dist)
              (λ a b c. trans a.dist b.dist c.dist) near),
      )
