-- ===== src/Facts/Convergence.antt =====
-- Replicas that are given the same versions of a fact, in any order and any number of times, end
-- with the same version: wm_fact_receive() for a key that is held.
use mathlib.Core.Path.{subst}
use tapestry.Prelude.{
  ◌≡◌, refl, inl, inr, ◌⊎◌, Bool, true, false, List, [], ◌∷◌, arith, if◌then◌else◌, Bool-cases,
}
use tapestry.Facts.Types.{Fact, is_immutable}
use tapestry.Facts.Order.{is_live, rank_cmp}
use tapestry.Facts.Merge.{merge_held, changes}

module _ {F : Type 0} where
  -- The version that stands after `f` is received over `h`.
  unfoldable pub merged : Fact F → Fact F → Fact F
  merged h f = if changes (merge_held h f) then f else h

  abbrev pub In : Fact F → List (Fact F) → Type 0
  In f [] = ⊥
  In f (h ∷ hs) = (f ≡ h) ⊎ In f hs

  -- Two versions of one fact: of one key and one immutability, and one record where they are both
  -- live, or both retracted, under one stamp.
  pub record Agree (a b : Fact F) : Type 0 where
    pub same_key : a.key ≡ b.key
    pub same_kind : is_immutable a.flags ≡ is_immutable b.flags
    pub same_stamp : is_live a ≡ is_live b → a.stamp ≡ b.stamp → a ≡ b

  -- Whether `f` displaces `h`.
  abbrev wins : Fact F → Fact F → Bool
  wins f h = changes (merge_held h f)

  wins_irrefl : (a : Fact F) → wins a a ≡ false
  unfolding merge_held rank_cmp
  wins_irrefl a = ground arith

  -- Neither displaces the other only if they are one record.
  wins_connex : (a b : Fact F) → Agree a b → wins a b ≡ false → wins b a ≡ false → a ≡ b
  unfolding merge_held rank_cmp
  wins_connex a b g h k = g.same_stamp (ground arith) (ground arith)

  -- What does not displace `b`, which does not displace `c`, does not displace `c`.
  wins_trans :
      (a b c : Fact F)
      → Agree a b
      → Agree b c
      → wins a b ≡ false
      → wins b c ≡ false
      → wins a c ≡ false
  unfolding merge_held rank_cmp
  wins_trans a b c g g' h k = ground arith

  wins_asymm : (a b : Fact F) → Agree a b → wins a b ≡ true → wins b a ≡ false
  unfolding merge_held rank_cmp
  wins_asymm a b g h = ground arith

  -- A history of received versions.
  unfoldable pub deliver : Fact F → List (Fact F) → Fact F
  deliver h [] = h
  deliver h (f ∷ fs) = deliver (merged h f) fs

  abbrev pub AllAgree : List (Fact F) → Type 0
  AllAgree xs = (a b : Fact F) → In a xs → In b xs → Agree a b

  -- What a replica ends with is one of the versions, and no version displaces it.
  abbrev Best : List (Fact F) → Fact F → Type 0
  Best xs m = In m xs × ((x : Fact F) → In x xs → wins x m ≡ false)

  Best-keep :
      (h f m : Fact F) (fs : List (Fact F))
      → AllAgree (h ∷ f ∷ fs)
      → wins f h ≡ false
      → Best (h ∷ fs) m
      → Best (h ∷ f ∷ fs) m
  Best-keep h f m fs g w (i, b) = (widen i, least)
    where
      widen : {x : Fact F} → In x (h ∷ fs) → In x (h ∷ f ∷ fs)
      widen (inl e) = inl e
      widen (inr r) = inr (inr r)

      least : (x : Fact F) → In x (h ∷ f ∷ fs) → wins x m ≡ false
      least x (inl e) = b x (inl e)
      least x (inr (inl e)) = rw e (
          wins_trans f h m (g f h (inr (inl refl)) (inl refl)) (g h m (inl refl) (widen i)) w
            (b h (inl refl)))
      least x (inr (inr r)) = b x (inr r)

  Best-take :
      (h f m : Fact F) (fs : List (Fact F))
      → AllAgree (h ∷ f ∷ fs)
      → wins f h ≡ true
      → Best (f ∷ fs) m
      → Best (h ∷ f ∷ fs) m
  Best-take h f m fs g w (i, b) = (inr i, least)
    where
      least : (x : Fact F) → In x (h ∷ f ∷ fs) → wins x m ≡ false
      least x (inl e) = rw e (
          wins_trans h f m (g h f (inl refl) (inr (inl refl))) (g f m (inr (inl refl)) (inr i))
            (wins_asymm f h (g f h (inr (inl refl)) (inl refl)) w) (b f (inl refl)))
      least x (inr r) = b x r

  deliver-Best :
      (h : Fact F) (fs : List (Fact F)) → AllAgree (h ∷ fs) → Best (h ∷ fs) (deliver h fs)
  unfolding deliver merged
  deliver-Best h [] g = (inl refl, λ x. elim [ inl e ↦ rw e (wins_irrefl h) | inr r ↦ elim r [ ] ])
  deliver-Best h (f ∷ fs) g = elim (Bool-cases (wins f h)) [
    | inl w ↦
        let p : f ≡ merged h f = rw w refl in
        subst (λ h'. Best (h ∷ f ∷ fs) (deliver h' fs)) p
          (Best-take h f _ fs g w (deliver-Best f fs (λ a b i j. g a b (inr i) (inr j))))
    | inr w ↦
        let p : h ≡ merged h f = rw w refl in
        subst (λ h'. Best (h ∷ f ∷ fs) (deliver h' fs)) p
          (Best-keep h f _ fs g w (deliver-Best h fs (λ a b i j. g a b (skip i) (skip j))))
  ]
    where
      skip : {x : Fact F} → In x (h ∷ fs) → In x (h ∷ f ∷ fs)
      skip (inl e) = inl e
      skip (inr r) = inr (inr r)

  -- Two replicas that hold versions of one fact and are given the same set of versions, in any
  -- order and with any repetitions, end with the same version.
  pub deliver_converges :
      (h g : Fact F) (fs gs : List (Fact F))
      → AllAgree (h ∷ fs)
      → ((x : Fact F) → In x (h ∷ fs) → In x (g ∷ gs))
      → ((x : Fact F) → In x (g ∷ gs) → In x (h ∷ fs))
      → deliver h fs ≡ deliver g gs
  deliver_converges h g fs gs agree to from =
      let (i, b) = deliver-Best h fs agree in
      let (j, c) = deliver-Best g gs (λ a b i j. agree a b (from a i) (from b j)) in
      wins_connex _ _ (agree _ _ i (from _ j)) (c _ (to _ i)) (b _ (from _ j))
