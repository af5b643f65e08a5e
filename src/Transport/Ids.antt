-- ===== src/Transport/Ids.antt =====
-- The ids of elements that start together differ.
use tapestry.Prelude.{
  ℕ, suc, ◌+◌, ◌<◌, ◌≤◌, ◌≡◌, refl, sym, ap, ◌∙◌, ◌≢◌, inl, inr, Bool, true, false, not, List, [],
  ◌∷◌, some, arith, ltb, ◌==◌, Bool-cases, length, get_elem?, count, count-le-length, lt-length, u8,
}
use native.Mathlib.Decide.{dec_lt}
use tapestry.Facts.Types.{max_elements}
use tapestry.Transport.Negotiate.{Window, nth_free, rank_of, negotiated_id}

-- A rank below the number of free ids has an id, and it is free.
nth_free-free :
    (i seen rank : ℕ) (claimed : List Bool)
    → seen ≤ rank
    → rank < seen + count not claimed
    → (j : ℕ) × (nth_free i seen rank claimed ≡ some (i + j)) × (get_elem? claimed j ≡ some false)
unfolding nth_free count
nth_free-free i seen rank [] le lt = absurd (omega (arith, le, lt))
nth_free-free i seen rank (true ∷ claimed) le lt =
    let (j, e, g) = nth_free-free (i + 1) seen rank claimed le (omega (arith, lt)) in
    let z : i + 1 + j ≡ i + suc j = omega arith in (suc j, e ∙ ap some z, g)
nth_free-free i seen rank (false ∷ claimed) le lt = elim (Bool-cases (seen == rank)) [
  | inl e ↦ let z : i ≡ i + 0 = omega arith in (0, rw e (ap some z), refl)
  | inr e ↦
      let (j, q, g) =
        nth_free-free (i + 1) (seen + 1) rank claimed (ground arith) (omega (arith, lt)) in
      let z : i + 1 + j ≡ i + suc j = omega arith in (suc j, rw e (q ∙ ap some z), g)
]

nth_free_least :
    (i seen rank : ℕ) (claimed : List Bool) (x : ℕ) → nth_free i seen rank claimed ≡ some x → i ≤ x
unfolding nth_free
nth_free_least i seen rank [] x h = ground arith
nth_free_least i seen rank (true ∷ claimed) x h =
    omega (arith, nth_free_least (i + 1) seen rank claimed x h)
nth_free_least i seen rank (false ∷ claimed) x h = elim (Bool-cases (seen == rank)) [
  | inl e ↦ ground arith
  | inr e ↦ ground (arith, nth_free_least (i + 1) (seen + 1) rank claimed x)
]

-- A greater rank has a greater id.
nth_free_mono :
    (i seen rank rank' : ℕ) (claimed : List Bool) (x y : ℕ)
    → seen ≤ rank
    → rank < rank'
    → nth_free i seen rank claimed ≡ some x
    → nth_free i seen rank' claimed ≡ some y
    → x < y
unfolding nth_free
nth_free_mono i seen rank rank' [] x y le lt h k = ground arith
nth_free_mono i seen rank rank' (true ∷ claimed) x y le lt h k =
    nth_free_mono (i + 1) seen rank rank' claimed x y le lt h k
nth_free_mono i seen rank rank' (false ∷ claimed) x y le lt h k = elim (Bool-cases (seen == rank)) [
  | inl e ↦ ground (arith, nth_free_least (i + 1) (seen + 1) rank' claimed y)
  | inr e ↦ ground (arith, nth_free_mono (i + 1) (seen + 1) rank rank' claimed x y)
]

-- Two elements that have heard the same: as many nonces pass any test among those that each knows,
-- the own one counted.
abbrev pub HeardTheSame : ℕ → List ℕ → ℕ → List ℕ → Type 0
HeardTheSame a as' b bs = (p : ℕ → Bool) → count p (a ∷ as') ≡ count p (b ∷ bs)

count_mono :
    (p q : ℕ → Bool) (xs : List ℕ) → ((x : ℕ) → p x ≡ true → q x ≡ true) → count p xs ≤ count q xs
unfolding count
count_mono p q [] h = omega arith
count_mono p q (x ∷ xs) h = elim (Bool-cases (p x)) [
  | inl e ↦ let e' = h x e in rw (e, e') (omega (arith, count_mono p q xs h))
  | inr e ↦ rw e (omega (arith, count_mono p q xs h))
]

-- Of two that have heard the same the one with the smaller nonce has the smaller rank.
rank_of_mono :
    (a b : ℕ) (peers peers' : List ℕ)
    → HeardTheSame a peers b peers'
    → a < b
    → rank_of a peers < rank_of b peers'
unfolding rank_of count
rank_of_mono a b peers peers' same lt =
    let below : (ltb a b) ≡ true = ground arith in
    let not_self : (ltb b b) ≡ false = ground arith in
    let s = same (λ p. ltb p b) in
    let m = count_mono (λ p. ltb p a) (λ p. ltb p b) peers (λ x h. ground arith) in
    ground (arith, s, m)

-- What the id taken is: the free one with the own rank.
negotiated_id_lem :
    (own : ℕ) (w : Window)
    → length w.claimed ≡ max_elements
    → length w.peers < count not w.claimed
    → (nth_free 0 0 (rank_of own w.peers) w.claimed ≡ some (negotiated_id own w))
      × (get_elem? w.claimed (negotiated_id own w) ≡ some false)
unfolding negotiated_id rank_of
negotiated_id_lem own w sized room =
    let r = rank_of own w.peers in
    let few : r ≤ length w.peers = count-le-length (λ p. ltb p own) w.peers in
    let (j, e, g) = nth_free-free 0 0 r w.claimed (omega arith) (omega (arith, few, room)) in
    let small = lt-length w.claimed j false g in
    let z : u8 (0 + j) ≡ j = omega (arith, small, sized) in
    let id : negotiated_id own w ≡ j = rw (negotiated_id, e) z in
    let y : 0 + j ≡ j = omega arith in (e ∙ ap some (y ∙ sym id), ap (get_elem? w.claimed) id ∙ g)

-- Two elements that start together, have heard the same nonces and the same ids in use, and have
-- different nonces, take different ids, and each takes one that is not in use, if there are more free
-- ids than co-starting peers.
pub ids_differ :
    (a b : ℕ) (w w' : Window)
    → a ≢ b
    → HeardTheSame a w.peers b w'.peers
    → w'.claimed ≡ w.claimed
    → length w.claimed ≡ max_elements
    → length w.peers < count not w.claimed
    → length w'.peers < count not w'.claimed
    → (negotiated_id a w ≢ negotiated_id b w')
      × (get_elem? w.claimed (negotiated_id a w) ≡ some false)
      × (get_elem? w'.claimed (negotiated_id b w') ≡ some false)
ids_differ a b w w' ne same ids sized room room' =
    let sized' = ap length ids ∙ sized in
    let (e, g) = negotiated_id_lem a w sized room in
    let (e', g') = negotiated_id_lem b w' sized' room' in
    let f' = ap (nth_free 0 0 (rank_of b w'.peers)) (sym ids) ∙ e' in
    (
      λ q. elim (dec_lt a b) [
        | yes lt ↦
            let r = rank_of_mono a b w.peers w'.peers same lt in
            omega (
              arith,
              q,
              nth_free_mono 0 0 (rank_of a w.peers) (rank_of b w'.peers) w.claimed
                  (negotiated_id a w) (negotiated_id b w') (omega arith) r e f',
            )
        | no ge ↦
            let r = rank_of_mono b a w'.peers w.peers (λ p. sym (same p)) (omega (arith, ne)) in
            omega (
              arith,
              q,
              nth_free_mono 0 0 (rank_of b w'.peers) (rank_of a w.peers) w.claimed
                  (negotiated_id b w') (negotiated_id a w) (omega arith) r f' e,
            )
      ],
      g,
      g',
    )
