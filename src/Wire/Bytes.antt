-- ===== src/Wire/Bytes.antt =====
-- Packed structs in memory: little-endian fields one behind another, as memcpy() moves them.
use native.Mathlib.Decide.{dec_lt}
use native.Mathlib.Nat.{pow-suc}
use mathlib.Core.List.{append_assoc}
use tapestry.Prelude.{
  ℕ, zero, suc, ◌+◌, ◌*◌, ◌/◌, ◌%◌, ◌^◌, ◌≤◌, ◌<◌, ◌≡◌, refl, ap, List, [], ◌∷◌, ◌++◌, Option, none,
  some, arith, length, length-append,
}

-- A number as `w` bytes, the lowest first.
unfoldable pub put_le : ℕ → ℕ → List ℕ
put_le zero v = []
put_le (suc w) v = v % 256 ∷ put_le w (v / 256)

-- The number in the first `w` bytes, and the bytes behind them; `none` if there are too few.
unfoldable pub get_le : ℕ → List ℕ → Option (ℕ × List ℕ)
get_le zero bs = some (0, bs)
get_le (suc w) [] = none
get_le (suc w) (b ∷ bs) = elim (get_le w bs) [
  | none ↦ none
  | some (v, rest) ↦ some (b + 256 * v, rest)
]

-- The fields of a struct: their widths in bytes, and their values.
unfoldable pub put_fields : List ℕ → List ℕ → List ℕ
put_fields [] vs = []
put_fields (w ∷ ws) [] = []
put_fields (w ∷ ws) (v ∷ vs) = put_le w v ++ put_fields ws vs

unfoldable pub get_fields : List ℕ → List ℕ → Option (List ℕ × List ℕ)
get_fields [] bs = some ([], bs)
get_fields (w ∷ ws) bs = elim (get_le w bs) [
  | none ↦ none
  | some (v, rest) ↦ elim (get_fields ws rest) [
    | none ↦ none
    | some (vs, rest') ↦ some (v ∷ vs, rest')
  ]
]

-- A struct read from the front of a buffer whose length is known to be enough, as through a cast;
-- `none` where it is not.
unfoldable pub decode_fields : {A : Type 0} → List ℕ → (List ℕ → Option A) → List ℕ → Option A
decode_fields ws of bytes = elim (get_fields ws bytes) [ none ↦ none | some (vs, rest) ↦ of vs ]

-- The size of a struct.
abbrev pub size_of : List ℕ → ℕ
size_of [] = 0
size_of (w ∷ ws) = w + size_of ws

-- As many values as fields, each within its width.
abbrev pub Fits : List ℕ → List ℕ → Type 0
Fits [] [] = Unit
Fits [] (v ∷ vs) = ⊥
Fits (w ∷ ws) [] = ⊥
Fits (w ∷ ws) (v ∷ vs) = (v < 256 ^ w) × Fits ws vs

get_le-put_le :
    (w v : ℕ) (rest : List ℕ) → v < 256 ^ w → get_le w (put_le w v ++ rest) ≡ some (v, rest)
unfolding get_le put_le
get_le-put_le zero v rest h = let z : v ≡ 0 = omega arith in rw z refl
get_le-put_le (suc w) v rest h =
    let small : v / 256 < 256 ^ w = omega (arith, pow-suc 256 w, h) in
    let e : v % 256 + 256 * (v / 256) ≡ v = omega arith in
    rw (get_le-put_le w (v / 256) rest small, e) refl

get_fields-put_fields :
    (ws vs rest : List ℕ) → Fits ws vs → get_fields ws (put_fields ws vs ++ rest) ≡ some (vs, rest)
unfolding get_fields put_fields
get_fields-put_fields [] [] rest h = refl
get_fields-put_fields [] (v ∷ vs) rest h = elim h [ ]
get_fields-put_fields (w ∷ ws) [] rest h = elim h [ ]
get_fields-put_fields (w ∷ ws) (v ∷ vs) rest h =
    rw
      (
        append_assoc (put_le w v) (put_fields ws vs) rest,
        get_fields,
        get_le-put_le w v (put_fields ws vs ++ rest) h.0,
        get_fields-put_fields ws vs rest h.1,
      )
      refl

length-put_le : (w v : ℕ) → length (put_le w v) ≡ w
unfolding put_le
length-put_le zero v = refl
length-put_le (suc w) v = ap suc (length-put_le w (v / 256))

pub length-put_fields : (ws vs : List ℕ) → Fits ws vs → length (put_fields ws vs) ≡ size_of ws
unfolding put_fields
length-put_fields [] [] h = refl
length-put_fields [] (v ∷ vs) h = elim h [ ]
length-put_fields (w ∷ ws) [] h = elim h [ ]
length-put_fields (w ∷ ws) (v ∷ vs) h = omega (
  arith,
  length-append (put_le w v) (put_fields ws vs),
  length-put_le w v,
  length-put_fields ws vs h.1,
)

-- Reading fails exactly where there are too few bytes.
get_le_short : (w : ℕ) (bs : List ℕ) → length bs < w → get_le w bs ≡ none
unfolding get_le
get_le_short zero bs h = absurd (omega arith)
get_le_short (suc w) [] h = refl
get_le_short (suc w) (b ∷ bs) h = rw (get_le_short w bs (omega arith)) refl

get_le_enough :
    (w : ℕ) (bs : List ℕ)
    → w ≤ length bs
    → (v : ℕ) × (rest : List ℕ) × (get_le w bs ≡ some (v, rest)) × (length rest + w ≡ length bs)
unfolding get_le
get_le_enough zero bs h = (0, bs, refl, omega arith)
get_le_enough (suc w) [] h = absurd (omega arith)
get_le_enough (suc w) (b ∷ bs) h =
    let (v, rest, e, n) = get_le_enough w bs (omega arith) in
    (b + 256 * v, rest, rw e refl, omega (arith, n))

get_fields_short : (ws bs : List ℕ) → length bs < size_of ws → get_fields ws bs ≡ none
unfolding get_fields
get_fields_short [] bs h = absurd (omega arith)
get_fields_short (w ∷ ws) bs h = elim (dec_lt (length bs) w) [
  | yes p ↦ rw (get_fields, get_le_short w bs p) refl
  | no p ↦
      let (v, rest, e, n) = get_le_enough w bs (omega arith) in
      rw (get_fields, e, get_fields_short ws rest (omega (arith, n, h))) refl
]

get_fields_enough :
    (ws bs : List ℕ)
    → size_of ws ≤ length bs
    → (vs : List ℕ) × (rest : List ℕ) × (get_fields ws bs ≡ some (vs, rest))
      × (length vs ≡ length ws)
unfolding get_fields
get_fields_enough [] bs h = ([], bs, refl, refl)
get_fields_enough (w ∷ ws) bs h =
    let (v, rest, e, n) = get_le_enough w bs (omega (arith, h)) in
    let (vs, rest', e', m) = get_fields_enough ws rest (omega (arith, n, h)) in
    (v ∷ vs, rest', rw (get_fields, e, e') refl, ap suc m)

pub decode_fields-put_fields :
    {A : Type 0} (ws : List ℕ) (of : List ℕ → Option A) (vs rest : List ℕ)
    → Fits ws vs
    → decode_fields ws of (put_fields ws vs ++ rest) ≡ of vs
unfolding decode_fields
decode_fields-put_fields ws of vs rest h =
    rw (decode_fields, get_fields-put_fields ws vs rest h) refl

pub decode_fields_short :
    {A : Type 0} (ws : List ℕ) (of : List ℕ → Option A) (bytes : List ℕ)
    → length bytes < size_of ws
    → decode_fields ws of bytes ≡ none
unfolding decode_fields
decode_fields_short ws of bytes h = rw (decode_fields, get_fields_short ws bytes h) refl

pub decode_fields_enough :
    {A : Type 0} (ws : List ℕ) (of : List ℕ → Option A) (bytes : List ℕ)
    → size_of ws ≤ length bytes
    → (vs : List ℕ) × (length vs ≡ length ws) × (decode_fields ws of bytes ≡ of vs)
unfolding decode_fields
decode_fields_enough ws of bytes h =
    let (vs, rest, e, n) = get_fields_enough ws bytes h in (vs, n, rw (decode_fields, e) refl)
