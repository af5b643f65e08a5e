-- ===== src/Gossip/Queue.antt =====
-- The relay queue: its bounds, and which frame gives way where it is full.
use mathlib.Core.Path.{subst}
use tapestry.Prelude.{
  ℕ, suc, ◌+◌, ◌≤◌, ◌<◌, ◌≡◌, refl, sym, ap, ◌∙◌, ◌⊎◌, inl, inr, true, List, [], ◌∷◌, ◌++◌, some,
  arith, ltb, leb, if◌then◌else◌, Bool-cases, length, get_elem?, set, All, length-append,
  length-set, All-set,
}
use tapestry.Wire.Frames.{GossipFrame}
use tapestry.Gossip.Types.{Gossip}
use tapestry.Gossip.Relay.{
  relay_queue_depth, tier_of, hops_of, stored, worst_from, worst, relay_enqueue, should_relay,
  relay,
}

module _ {F : Type 0} where
  -- No more frames than slots, and none with more hops left than a frame's last relay but one.
  abbrev pub IsQueue : List (GossipFrame F) → Type 0
  IsQueue q = (length q ≤ relay_queue_depth) × All (λ f. hops_of f < 3) q

  -- A frame stands at a place, and none of the list has a lower tier.
  abbrev pub IsWorst : List (GossipFrame F) → ℕ × ℕ → Type 0
  IsWorst q (place, tier) =
      ((v : GossipFrame F) × (get_elem? q place ≡ some v) × (tier_of v ≡ tier))
      × All (λ f. tier ≤ tier_of f) q

  stored-hops : (f : GossipFrame F) → 0 < hops_of f → hops_of (stored f) + 1 ≡ hops_of f
  unfolding stored
  stored-hops f h = omega arith

  stored-tier : (f : GossipFrame F) → tier_of (stored f) ≡ tier_of f
  unfolding stored
  stored-tier f = omega arith

  abbrev Search : ℕ → ℕ × ℕ → List (GossipFrame F) → ℕ × ℕ → Type 0
  Search i w fs r =
      ((r ≡ w) × All (λ f. w.1 ≤ tier_of f) fs)
      ⊎ ((j : ℕ) × (v : GossipFrame F) × (r ≡ (i + j, tier_of v))
          × (get_elem? fs j ≡ some v)
          × (tier_of v < w.1)
          × All (λ f. tier_of v ≤ tier_of f) fs)

  worst_from-Search :
      (i : ℕ) (w : ℕ × ℕ) (fs : List (GossipFrame F)) → Search i w fs (worst_from i w fs)
  unfolding worst_from
  worst_from-Search i w [] = inl (refl, tt)
  worst_from-Search i w (f ∷ fs) = elim (Bool-cases (ltb (tier_of f) w.1)) [
    | inl e ↦ rw e (lower (ground arith) (worst_from-Search (i + 1) (i, tier_of f) fs))
    | inr e ↦ rw e (higher (ground arith) (worst_from-Search (i + 1) w fs))
  ]
    where
      lower :
          {r : ℕ × ℕ} → tier_of f < w.1 → Search (i + 1) (i, tier_of f) fs r → Search i w (f ∷ fs) r
      lower h (inl (e, a)) =
          let z : i ≡ i + 0 = omega arith in
          inr (0, f, e ∙ ap (λ k. (k, tier_of f)) z, refl, h, (omega arith, a))
      lower h (inr (j, v, e, g, t, a)) =
          let z : i + 1 + j ≡ i + suc j = omega arith in
          inr (
            suc j,
            v,
            e ∙ ap (λ k. (k, tier_of v)) z,
            g,
            omega (arith, t, h),
            (omega (arith, t), a),
          )

      higher : {r : ℕ × ℕ} → w.1 ≤ tier_of f → Search (i + 1) w fs r → Search i w (f ∷ fs) r
      higher h (inl (e, a)) = inl (e, (h, a))
      higher h (inr (j, v, e, g, t, a)) =
          let z : i + 1 + j ≡ i + suc j = omega arith in
          inr (suc j, v, e ∙ ap (λ k. (k, tier_of v)) z, g, t, (omega (arith, t, h), a))

  worst-IsWorst : (q : List (GossipFrame F)) → 0 < length q → IsWorst q (worst q)
  unfolding worst
  worst-IsWorst [] h = absurd (omega arith)
  worst-IsWorst (f ∷ fs) h = settle (worst_from-Search 1 (0, tier_of f) fs)
    where
      settle : {r : ℕ × ℕ} → Search 1 (0, tier_of f) fs r → IsWorst (f ∷ fs) r
      settle (inl (e, a)) = subst (IsWorst (f ∷ fs)) (sym e) ((f, refl, refl), (omega arith, a))
      settle (inr (j, v, e, g, t, a)) =
          let z : 1 + j ≡ suc j = omega arith in
          subst (IsWorst (f ∷ fs)) (sym (e ∙ ap (λ k. (k, tier_of v)) z))
            ((v, g, refl), (omega (arith, t), a))

  -- What becomes of a frame that finds the queue full.
  abbrev pub Full : Gossip F → GossipFrame F → Gossip F → Type 0
  Full g f g' =
      ((g' ≡ g) × All (λ q. tier_of f ≤ tier_of q) g.relay_q)
      ⊎ ((place : ℕ) × (victim : GossipFrame F) × (get_elem? g.relay_q place ≡ some victim)
          × (tier_of victim < tier_of f)
          × All (λ q. tier_of victim ≤ tier_of q) g.relay_q
          × (g'.relay_q ≡ set g.relay_q place (stored f))
          × (tier_of (stored f) ≡ tier_of f))

  -- A frame that finds the relay queue full is dropped exactly if no queued frame has a lower tier,
  -- and else takes the place, with its tier, of a frame whose tier is the lowest queued and lower
  -- than its own.
  pub relay_enqueue-Full :
      (now rnd : ℕ) (g : Gossip F) (f : GossipFrame F)
      → length g.relay_q ≡ relay_queue_depth
      → Full g f (relay_enqueue now rnd g f)
  unfolding relay_enqueue
  relay_enqueue-Full now rnd g f n =
      let e : leb relay_queue_depth (length g.relay_q) ≡ true = ground arith in
      rw (relay_enqueue, e) (look (worst g.relay_q) (worst-IsWorst g.relay_q (omega arith)))
    where
      All-le :
          (a b : ℕ) (q : List (GossipFrame F))
          → a ≤ b
          → All (λ v. b ≤ tier_of v) q
          → All (λ v. a ≤ tier_of v) q
      All-le a b [] h all = tt
      All-le a b (x ∷ q) h all = (omega (arith, all.0), All-le a b q h all.1)

      look :
          (w : ℕ × ℕ)
          → IsWorst g.relay_q w
          → Full g f (
              if leb (tier_of f) w.1
              then g
              else record g { relay_q = set g.relay_q w.0 (stored f) })
      look (place, tier) ((v, at_place, t), least) = elim (Bool-cases (leb (tier_of f) tier)) [
        | inl e ↦ rw e (inl (refl, All-le (tier_of f) tier g.relay_q (ground arith) least))
        | inr e ↦ rw e (
            inr (
              place,
              v,
              at_place,
              ground arith,
              All-le (tier_of v) tier g.relay_q (omega arith) least,
              refl,
              stored-tier f,
            ))
      ]

  All-snoc :
      (P : GossipFrame F → Type 0) (q : List (GossipFrame F)) (f : GossipFrame F)
      → All P q
      → P f
      → All P (q ++ (f ∷ []))
  All-snoc P [] f a p = (p, tt)
  All-snoc P (x ∷ q) f a p = (a.0, All-snoc P q f a.1 p)

  hops_stored : (f : GossipFrame F) → 0 < hops_of f → hops_of (stored f) < 3
  hops_stored f h = omega (arith, stored-hops f h)

  relay_enqueue-IsQueue :
      (now rnd : ℕ) (g : Gossip F) (f : GossipFrame F)
      → 0 < hops_of f
      → IsQueue g.relay_q
      → IsQueue (relay_enqueue now rnd g f).relay_q
  unfolding relay_enqueue
  relay_enqueue-IsQueue now rnd g f hop (n, a) =
      elim (Bool-cases (leb relay_queue_depth (length g.relay_q))) [
        | inl e ↦ rw (relay_enqueue, e) (full (worst g.relay_q))
        | inr e ↦
            let room : length g.relay_q < relay_queue_depth = ground arith in
            rw (relay_enqueue, e)
              (
                omega (arith, length-append g.relay_q (stored f ∷ []), room),
                All-snoc (λ v. hops_of v < 3) g.relay_q (stored f) a (hops_stored f hop),
              )
      ]
    where
      full :
          (w : ℕ × ℕ)
          → let g' : Gossip F =
              if leb (tier_of f) w.1
              then g
              else record g { relay_q = set g.relay_q w.0 (stored f) } in
            IsQueue g'.relay_q
      full (place, tier) = elim (Bool-cases (leb (tier_of f) tier)) [
        | inl e ↦ rw e (n, a)
        | inr e ↦ rw e (
          omega (arith, n, length-set g.relay_q place (stored f)),
          All-set (λ f. hops_of f < 3) g.relay_q place (stored f) a (hops_stored f hop),
        )
      ]

  pub relay-IsQueue :
      (now rnd : ℕ) (g : Gossip F) (f : GossipFrame F)
      → IsQueue g.relay_q
      → IsQueue (relay now rnd g f).relay_q
  unfolding relay should_relay
  relay-IsQueue now rnd g f ok = elim (Bool-cases (should_relay g f)) [
    | inl e ↦ rw (relay, e) (relay_enqueue-IsQueue now rnd _ f (ground arith) ok)
    | inr e ↦ rw (relay, e) ok
  ]
