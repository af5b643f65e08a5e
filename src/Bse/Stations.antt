-- ===== src/Bse/Stations.antt =====
-- bse.c: the stations of an EXCHANGE, as the participants share them out.
use mathlib.Core.Path.{◌∙◌, ap}
use native.Mathlib.Nat.{mod-lt, div-add-mod, mul-le-mul_left}
use tapestry.Prelude.{
  ℕ, ◌+◌, ◌/◌, ◌%◌, ◌≤◌, ◌<◌, ◌≡◌, ◌≢◌, refl, sym, ◌⊎◌, inl, inr, true, false, ◌||◌, List, some,
  arith, ltb, ◌==◌, if◌then◌else◌, length, get_elem?, Option-cases, length-lt,
}
use tapestry.Prelude.Floats.{FloatOps}
use tapestry.Bse.Types.{TrigOps, Activation, Bse}
use tapestry.Bse.Participants.{Participant, centroid}
use tapestry.Bse.Exchange.{dest_rank, capture_arc, capture_between, capture_at}

-- Numbers less than `n` apart that have a remainder in common are equal.
close_lem : (n a b : ℕ) → 0 < n → a ≤ b → b < a + n → a % n ≡ b % n → a ≡ b
close_lem n a b pos le near e = elim (quotients (a / n) (b / n)) [
  | inl lt ↦ absurd (
      omega
        (arith, div-add-mod a n, div-add-mod b n, mul-le-mul_left n lt, mod-lt a pos, mod-lt b pos))
  | inr ge ↦ omega (arith, div-add-mod a n, div-add-mod b n, mul-le-mul_left n ge)
]
  where
    quotients : (p q : ℕ) → (p + 1 ≤ q) ⊎ (q ≤ p)
    quotients p q = omega arith

-- The stations of n participants, by rank, are shared out anew: each rank gets a rank of a participant,
-- and two ranks that get the same one are equal, whatever the slot shift is.
dest_rank_injective :
    (slot_shift n r1 r2 : ℕ)
    → r1 < n
    → r2 < n
    → (dest_rank slot_shift n r1 < n)
      × (dest_rank slot_shift n r1 ≡ dest_rank slot_shift n r2 → r1 ≡ r2)
unfolding dest_rank
dest_rank_injective slot_shift n r1 r2 lt1 lt2 =
    (mod-lt _ (omega arith), λ e. by_order (if slot_shift == 0 then 1 else slot_shift) e)
  where
    order : (r1 ≤ r2) ⊎ (r2 ≤ r1)
    order = omega arith

    by_order : (s : ℕ) → (r1 + s) % n ≡ (r2 + s) % n → r1 ≡ r2
    by_order s e = elim order [
      | inl le ↦
          omega (arith, close_lem n (r1 + s) (r2 + s) (omega arith) (omega arith) (omega arith) e)
      | inr le ↦
          omega
            (arith, close_lem n (r2 + s) (r1 + s) (omega arith) (omega arith) (omega arith) (sym e))
    ]

two_lem : (n r1 r2 : ℕ) → r1 < n → r2 < n → r1 ≢ r2 → 2 ≤ n
two_lem n r1 r2 lt1 lt2 differ = omega (arith, differ)

module _ {F : Type 0} where
  participant_lem :
      (ps : List (Participant F)) (i : ℕ)
      → i < length ps
      → (p : Participant F) × (get_elem? ps i ≡ some p)
  participant_lem ps i h = elim (Option-cases (get_elem? ps i)) [
    | inl e ↦ absurd (omega (arith, length-lt ps i e))
    | inr k ↦ k
  ]

module _ {F : Type 0} ⦃fl : FloatOps F⦄ (trig : TrigOps F) where
  -- The one at a rank captures its exchange, and its destination is the x and y of the one at another
  -- rank, at the own altitude.
  abbrev pub HeadsFor : Bse F → List (Participant F) → ℕ → ℕ → Type 0
  HeadsFor b ps rank dest =
      (a : Activation F) × (own : Participant F) × (other : Participant F) × (capture_at trig b ps
          (some rank)
        ≡ some a)
      × (get_elem? ps rank ≡ some own)
      × (get_elem? ps dest ≡ some other)
      × (a.ex_dest ≡ record { x = other.position.x; y = other.position.y; z = own.position.z })
      × (a.ex_captured ≡ true)

  -- Of two participants or more, the one at a rank always captures its exchange, and its destination
  -- is the x and y of the participant at the destination rank, at the own altitude.
  capture_takes_station :
      (b : Bse F) (ps : List (Participant F)) (rank : ℕ)
      → 2 ≤ length ps
      → rank < length ps
      → HeadsFor b ps rank (dest_rank b.intent.aim.slot_shift (length ps) rank)
  unfolding capture_at capture_between capture_arc
  capture_takes_station b ps rank two lt =
      let dest = dest_rank b.intent.aim.slot_shift (length ps) rank in
      let (own, e) = participant_lem ps rank lt in
      let (other, k) =
        participant_lem ps dest
          (dest_rank_injective b.intent.aim.slot_shift (length ps) rank rank lt lt).0 in
      let stays = dest == rank || b.intent.aim.direct_path in
      let few : ltb (length ps) 2 ≡ false = ground arith in
      (
        capture_arc trig b.act stays (centroid ps) own.position other.position,
        own,
        other,
        rw (capture_at, few, e, k) refl,
        e,
        k,
        refl,
        refl,
      )

  -- Whatever their positions, two participants of different ranks in the same list of participants,
  -- with the same slot shift, both capture their exchange, and head for the x and y of participants of
  -- different ranks, each at its own altitude.
  pub exchange_shares_stations :
      (b1 b2 : Bse F) (ps : List (Participant F)) (r1 r2 : ℕ)
      → b1.intent.aim.slot_shift ≡ b2.intent.aim.slot_shift
      → r1 < length ps
      → r2 < length ps
      → r1 ≢ r2
      → (d1 : ℕ) × (d2 : ℕ) × HeadsFor b1 ps r1 d1 × HeadsFor b2 ps r2 d2 × (d1 ≢ d2)
  exchange_shares_stations b1 b2 ps r1 r2 e lt1 lt2 differ =
      let n = length ps in
      let two : 2 ≤ n = two_lem n r1 r2 lt1 lt2 differ in
      (
        dest_rank b1.intent.aim.slot_shift n r1,
        dest_rank b2.intent.aim.slot_shift n r2,
        capture_takes_station b1 ps r1 two lt1,
        capture_takes_station b2 ps r2 two lt2,
        λ k. differ (
            (dest_rank_injective b1.intent.aim.slot_shift n r1 r2 lt1 lt2).1
              (k ∙ ap (λ s. dest_rank s n r2) (sym e))),
      )
