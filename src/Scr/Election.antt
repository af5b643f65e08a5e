-- ===== src/Scr/Election.antt =====
-- Leader election and task slots of scr_tick(): the leader is the least candidate, the slot counts
-- the candidates below, and elements that see the same candidates agree.
use tapestry.Prelude.{
  ℕ, zero, suc, ◌+◌, ◌%◌, ◌^◌, ◌≤◌, ◌<◌, ◌≡◌, refl, inl, inr, Bool, true, false, not, List, [], ◌∷◌,
  ◌++◌, Option, none, some, arith, ltb, ◌==◌, if◌then◌else◌, length, All, Bool-cases, count,
}
use tapestry.Prelude.Sort.{Ascending, count-insertion_sort, insertion_sort-Ascending}
use tapestry.WorldModel.Types.{WorldModel, Entry}
use tapestry.WorldModel.Ops.{get_entry}
use tapestry.Scr.Types.{ScrState, peer_is_trusted}
use tapestry.Scr.Tick.{
  Census, count_peer, collect_peer, collect, census, gt, sorted_candidates, first_or, slot_from,
}

-- How many candidates lie below an id, and how often an id is among them.
abbrev pub below : ℕ → List ℕ → ℕ
below n = count (λ c. ltb c n)

abbrev pub occurs : ℕ → List ℕ → ℕ
occurs n = count (λ c. c == n)

gt_asymm : (a b : ℕ) → gt a b ≡ true → gt b a ≡ false
gt_asymm a b h = ground arith

gt_trans : (a b c : ℕ) → gt a b ≡ false → gt b c ≡ false → gt a c ≡ false
gt_trans a b c h k = ground arith

pub sorted_candidates-Ascending : (c : Census) → Ascending gt (sorted_candidates c)
unfolding sorted_candidates
sorted_candidates-Ascending c = insertion_sort-Ascending gt gt_asymm gt_trans c.candidates

pub count-sorted_candidates :
    (p : ℕ → Bool) (c : Census) → count p (sorted_candidates c) ≡ count p c.candidates
unfolding sorted_candidates
count-sorted_candidates p c = count-insertion_sort gt p c.candidates

none_below : (m n : ℕ) (xs : List ℕ) → n ≤ m → All (λ y. gt m y ≡ false) xs → below n xs ≡ 0
unfolding count
none_below m n [] h a = refl
none_below m n (x ∷ xs) h a = ground (arith, none_below m n xs h a.1)

le_of_occurs : (x n : ℕ) (xs : List ℕ) → All (λ y. gt x y ≡ false) xs → 0 < occurs n xs → x ≤ n
unfolding count
le_of_occurs x n [] a h = elim h [ ]
le_of_occurs x n (y ∷ xs) a h = ground (arith, le_of_occurs x n xs a.1)

-- In a sorted list the first place of an id is the number of ids below it.
pub slot_from-below :
    (own i : ℕ) (xs : List ℕ)
    → Ascending gt xs
    → 0 < occurs own xs
    → i + length xs < 256
    → slot_from own i xs ≡ i + below own xs
unfolding slot_from count
slot_from-below own i [] s h b = elim h [ ]
slot_from-below own i (x ∷ xs) s h b = elim (Bool-cases (x == own)) [
  | inl e ↦ rw e (omega (arith, none_below x own (x ∷ xs) (ground arith) (ground arith, s.0)))
  | inr e ↦
      let next : (i + 1) % 2 ^ 8 ≡ i + 1 = omega arith in
      rw (e, next)
        (ground (
          arith,
          le_of_occurs x own xs s.0,
          slot_from-below own (i + 1) xs s.1 (ground arith) (omega arith),
        ))
]

-- The first of a sorted list is the least.
pub first_or-least :
    (d : ℕ) (xs : List ℕ)
    → Ascending gt xs
    → 0 < length xs
    → (below (first_or d xs) xs ≡ 0) × (0 < occurs (first_or d xs) xs)
unfolding first_or count
first_or-least d [] s h = elim h [ ]
first_or-least d (x ∷ xs) s h = (ground (arith, none_below x x xs (omega arith) s.0), ground arith)

pub length-count : (xs : List ℕ) → count (λ _. true) xs ≡ length xs
unfolding count
length-count [] = refl
length-count (x ∷ xs) = omega (arith, length-count xs)

pub length-sorted_candidates : (c : Census) → length (sorted_candidates c) ≡ length c.candidates
length-sorted_candidates c = omega (
  arith,
  length-count (sorted_candidates c),
  length-count c.candidates,
  count-sorted_candidates (λ _. true) c,
)

-- A census as the loop of step 1 leaves it: the own id is a candidate, and beside it there is one
-- candidate for each fresh peer.
pub record IsCensus (own rounds : ℕ) (c : Census) : Type 0 where
  pub own_in : 0 < occurs own c.candidates
  pub one_each : length c.candidates ≡ c.fresh + 1
  pub few : c.fresh ≤ rounds

length-snoc : (xs : List ℕ) (i : ℕ) → length (xs ++ (i ∷ [])) ≡ length xs + 1
length-snoc [] i = refl
length-snoc (x ∷ xs) i = omega (arith, length-snoc xs i)

occurs-snoc : (n i : ℕ) (xs : List ℕ) → occurs n xs ≤ occurs n (xs ++ (i ∷ []))
unfolding count
occurs-snoc n i [] = omega arith
occurs-snoc n i (x ∷ xs) = ground (arith, occurs-snoc n i xs)

count_peer-IsCensus :
    {F : Type 0} (own n i : ℕ) (e : Entry F) (c : Census)
    → n < 255
    → IsCensus own n c
    → IsCensus own (n + 1) (count_peer i e c)
unfolding count_peer
count_peer-IsCensus own n i e c h k =
    ground (arith, length-snoc c.candidates i, occurs-snoc own i c.candidates)

IsCensus-mono : (own n : ℕ) (c : Census) → IsCensus own n c → IsCensus own (n + 1) c
IsCensus-mono own n c k = record {
  own_in = k.own_in;
  one_each = k.one_each;
  few = omega (arith, k.few);
}

collect_peer-IsCensus :
    {F : Type 0} (scr : ScrState) (wm : WorldModel F) (own n i : ℕ) (c : Census)
    → n < 255
    → IsCensus own n c
    → IsCensus own (n + 1) (collect_peer scr wm i c)
unfolding collect_peer
collect_peer-IsCensus {F} scr wm own n i c h k = elim (Bool-cases (i == scr.own_id)) [
  | inl e ↦ rw e same
  | inr e ↦ rw e (elim (Bool-cases (peer_is_trusted scr i)) [
    | inr d ↦ rw d same
    | inl t ↦ rw t (look (get_entry wm i))
  ])
]
  where
    same : IsCensus own (n + 1) c
    same = IsCensus-mono own n c k

    look :
        (r : Option (Entry F))
        → IsCensus own (n + 1) (elim r as (λ _. Census) [
          | none ↦ c
          | some e ↦ if not e.is_active then c else count_peer i e c
        ])
    look none = same
    look (some e) = elim (Bool-cases e.is_active) [
      | inl a ↦ simp a (count_peer-IsCensus own n i e c h k)
      | inr a ↦ simp a same
    ]

collect-IsCensus :
    {F : Type 0} (scr : ScrState) (wm : WorldModel F) (own n rounds i : ℕ) (c : Census)
    → n + rounds < 256
    → IsCensus own n c
    → IsCensus own (n + rounds) (collect scr wm rounds i c)
unfolding collect
collect-IsCensus scr wm own n zero i c h k = record {
  own_in = k.own_in;
  one_each = k.one_each;
  few = omega (arith, k.few);
}
collect-IsCensus scr wm own n (suc rounds) i c h k =
    let r =
      collect-IsCensus scr wm own (n + 1) rounds (i + 1) (collect_peer scr wm i c) (omega arith)
        (collect_peer-IsCensus scr wm own n i c (omega arith) k) in
    record { own_in = r.own_in; one_each = r.one_each; few = omega (arith, r.few) }

pub census-IsCensus :
    {F : Type 0} (scr : ScrState) (wm : WorldModel F) → IsCensus scr.own_id 32 (census scr wm)
unfolding census count
census-IsCensus scr wm =
    collect-IsCensus scr wm scr.own_id 0 32 0
      (record { candidates = scr.own_id ∷ []; fresh = 0; known = 0; departed = 0 }) (omega arith)
      (record { own_in = ground arith; one_each = refl; few = omega arith })
