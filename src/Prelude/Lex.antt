-- ===== src/Prelude/Lex.antt =====
-- The lexicographic order of lists of numbers, on which the comparison functions rest.
use tapestry.Prelude.{ℕ, ◌≡◌, refl, Bool, true, false, List, [], ◌∷◌, arith, ltb, if◌then◌else◌}

-- Whether the first list comes strictly before the second.
unfoldable pub lex_lt : List ℕ → List ℕ → Bool
lex_lt [] [] = false
lex_lt [] (y ∷ ys) = true
lex_lt (x ∷ xs) [] = false
lex_lt (x ∷ xs) (y ∷ ys) = if ltb x y then true else if ltb y x then false else lex_lt xs ys

pub lex_lt_irrefl : (xs : List ℕ) → lex_lt xs xs ≡ false
unfolding lex_lt
lex_lt_irrefl [] = refl
lex_lt_irrefl (x ∷ xs) = ground (arith, lex_lt_irrefl xs)

pub lex_lt_asymm : (xs ys : List ℕ) → lex_lt xs ys ≡ true → lex_lt ys xs ≡ false
unfolding lex_lt
lex_lt_asymm [] [] h = refl
lex_lt_asymm [] (y ∷ ys) h = refl
lex_lt_asymm (x ∷ xs) [] h = ground arith
lex_lt_asymm (x ∷ xs) (y ∷ ys) h = ground (arith, lex_lt_asymm xs ys)

pub lex_lt_trans :
    (xs ys zs : List ℕ) → lex_lt xs ys ≡ true → lex_lt ys zs ≡ true → lex_lt xs zs ≡ true
unfolding lex_lt
lex_lt_trans [] [] zs h k = ground arith
lex_lt_trans [] (y ∷ ys) [] h k = k
lex_lt_trans [] (y ∷ ys) (z ∷ zs) h k = refl
lex_lt_trans (x ∷ xs) [] zs h k = ground arith
lex_lt_trans (x ∷ xs) (y ∷ ys) [] h k = ground arith
lex_lt_trans (x ∷ xs) (y ∷ ys) (z ∷ zs) h k = ground (arith, lex_lt_trans xs ys zs)

-- Neither before the other: they are one list.
pub lex_lt_connex : (xs ys : List ℕ) → lex_lt xs ys ≡ false → lex_lt ys xs ≡ false → xs ≡ ys
unfolding lex_lt
lex_lt_connex [] [] h k = refl
lex_lt_connex [] (y ∷ ys) h k = ground arith
lex_lt_connex (x ∷ xs) [] h k = ground arith
lex_lt_connex (x ∷ xs) (y ∷ ys) h k = ground (arith, lex_lt_connex xs ys)

-- "Not before" is transitive.
pub lex_le_trans :
    (xs ys zs : List ℕ) → lex_lt xs ys ≡ false → lex_lt ys zs ≡ false → lex_lt xs zs ≡ false
unfolding lex_lt
lex_le_trans [] [] zs h k = k
lex_le_trans [] (y ∷ ys) zs h k = ground arith
lex_le_trans (x ∷ xs) [] [] h k = refl
lex_le_trans (x ∷ xs) [] (z ∷ zs) h k = ground arith
lex_le_trans (x ∷ xs) (y ∷ ys) [] h k = refl
lex_le_trans (x ∷ xs) (y ∷ ys) (z ∷ zs) h k = ground (arith, lex_le_trans xs ys zs)
