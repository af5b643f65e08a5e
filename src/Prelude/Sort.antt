-- ===== src/Prelude/Sort.antt =====
-- The insertion sort of world_model.c and scr.c, on a list of any type: it keeps the items and puts
-- them in order.
use mathlib.Core.List.{reverse, reverse-cons}
use tapestry.Prelude.{
  ◌+◌, ◌≡◌, refl, Bool, true, false, List, [], ◌∷◌, ◌++◌, arith, if◌then◌else◌, Bool-cases, inl,
  inr, count, All,
}

module _ {A : Type 0} (gt : A → A → Bool) where
  -- The inner `while`: `key` moves left past what is greater.  The sorted prefix is held with its
  -- right end first.
  unfoldable pub shift_in : A → List A → List A
  shift_in key [] = key ∷ []
  shift_in key (x ∷ xs) = if gt x key then x ∷ shift_in key xs else key ∷ x ∷ xs

  -- The outer `for`.
  unfoldable pub sort_onto : List A → List A → List A
  sort_onto sorted [] = sorted
  sort_onto sorted (x ∷ xs) = sort_onto (shift_in x sorted) xs

  unfoldable pub insertion_sort : List A → List A
  unfolding sort_onto shift_in
  insertion_sort xs = reverse (sort_onto [] xs)

  -- In order: nothing greater stands before anything.
  abbrev pub Ascending : List A → Type 0
  Ascending [] = Unit
  Ascending (x ∷ xs) = All (λ y. gt x y ≡ false) xs × Ascending xs

  abbrev Descending : List A → Type 0
  Descending [] = Unit
  Descending (x ∷ xs) = All (λ y. gt y x ≡ false) xs × Descending xs

  module _ (p : A → Bool) where
    count-shift_in : (key : A) (xs : List A) → count p (shift_in key xs) ≡ count p (key ∷ xs)
    unfolding shift_in count
    count-shift_in key [] = refl
    count-shift_in key (x ∷ xs) = elim (Bool-cases (gt x key)) [
      | inl e ↦ rw e (omega (arith, count-shift_in key xs))
      | inr e ↦ rw e refl
    ]

    count-sort_onto : (ys xs : List A) → count p (sort_onto ys xs) ≡ count p xs + count p ys
    unfolding sort_onto count
    count-sort_onto ys [] = omega arith
    count-sort_onto ys (x ∷ xs) =
        omega (arith, count-sort_onto (shift_in x ys) xs, count-shift_in x ys)

    count-append : (xs ys : List A) → count p (xs ++ ys) ≡ count p xs + count p ys
    unfolding count
    count-append [] ys = omega arith
    count-append (x ∷ xs) ys = omega (arith, count-append xs ys)

    count-reverse : (xs : List A) → count p (reverse xs) ≡ count p xs
    unfolding count
    count-reverse [] = refl
    count-reverse (x ∷ xs) =
        rw (reverse-cons x xs) (omega (arith, count-append (reverse xs) (x ∷ []), count-reverse xs))

    -- The sort keeps the items: as many pass any test after it as before.
    pub count-insertion_sort : (xs : List A) → count p (insertion_sort xs) ≡ count p xs
    unfolding insertion_sort count
    count-insertion_sort xs = omega (arith, count-reverse (sort_onto [] xs), count-sort_onto [] xs)

  module _ (gt_asymm : (a b : A) → gt a b ≡ true → gt b a ≡ false)
      (ge_trans : (a b c : A) → gt a b ≡ false → gt b c ≡ false → gt a c ≡ false) where
    All-shift_in :
        (b key : A) (xs : List A)
        → gt key b ≡ false
        → All (λ y. gt y b ≡ false) xs
        → All (λ y. gt y b ≡ false) (shift_in key xs)
    unfolding shift_in
    All-shift_in b key [] k a = (k, tt)
    All-shift_in b key (x ∷ xs) k a = elim (Bool-cases (gt x key)) [
      | inl e ↦ rw e (a.0, All-shift_in b key xs k a.1)
      | inr e ↦ rw e (k, a)
    ]

    All-trans :
        (x key : A) (xs : List A)
        → gt x key ≡ false
        → All (λ y. gt y x ≡ false) xs
        → All (λ y. gt y key ≡ false) xs
    All-trans x key [] e a = tt
    All-trans x key (y ∷ xs) e a = (ge_trans y x key a.0 e, All-trans x key xs e a.1)

    shift_in-Descending : (key : A) (xs : List A) → Descending xs → Descending (shift_in key xs)
    unfolding shift_in
    shift_in-Descending key [] d = (tt, tt)
    shift_in-Descending key (x ∷ xs) d = elim (Bool-cases (gt x key)) [
      | inl e ↦ rw e (All-shift_in x key xs (gt_asymm x key e) d.0, shift_in-Descending key xs d.1)
      | inr e ↦ rw e ((e, All-trans x key xs e d.0), d)
    ]

    sort_onto-Descending : (ys xs : List A) → Descending ys → Descending (sort_onto ys xs)
    unfolding sort_onto
    sort_onto-Descending ys [] d = d
    sort_onto-Descending ys (x ∷ xs) d =
        sort_onto-Descending (shift_in x ys) xs (shift_in-Descending x ys d)

    All-snoc : (P : A → Type 0) (xs : List A) (y : A) → All P xs → P y → All P (xs ++ (y ∷ []))
    All-snoc P [] y a p = (p, tt)
    All-snoc P (x ∷ xs) y a p = (a.0, All-snoc P xs y a.1 p)

    All-reverse : (P : A → Type 0) (xs : List A) → All P xs → All P (reverse xs)
    All-reverse P [] a = tt
    All-reverse P (x ∷ xs) a =
        rw (reverse-cons x xs) (All-snoc P (reverse xs) x (All-reverse P xs a.1) a.0)

    Ascending-snoc :
        (xs : List A) (y : A)
        → Ascending xs
        → All (λ x. gt x y ≡ false) xs
        → Ascending (xs ++ (y ∷ []))
    Ascending-snoc [] y s a = (tt, tt)
    Ascending-snoc (x ∷ xs) y s a =
        (All-snoc (λ z. gt x z ≡ false) xs y s.0 a.0, Ascending-snoc xs y s.1 a.1)

    reverse-Ascending : (xs : List A) → Descending xs → Ascending (reverse xs)
    reverse-Ascending [] d = tt
    reverse-Ascending (x ∷ xs) d = rw (reverse-cons x xs) (
        Ascending-snoc (reverse xs) x (reverse-Ascending xs d.1)
          (All-reverse (λ y. gt y x ≡ false) xs d.0))

    -- The sort puts the items in order, if `gt` is the strict part of a total preorder.
    pub insertion_sort-Ascending : (xs : List A) → Ascending (insertion_sort xs)
    unfolding insertion_sort
    insertion_sort-Ascending xs = reverse-Ascending _ (sort_onto-Descending [] xs tt)
