-- ===== src/Facts/Order.antt =====
-- facts.c, "Ordering": liveness, the rank order and the eviction order, and that both are the
-- lexicographic order of a list of fields.
use tapestry.Prelude.{
  ℕ, ◌≡◌, Bool, true, false, not, ◌||◌, List, [], ◌∷◌, arith, ltb, ◌==◌, if◌then◌else◌,
}
use tapestry.Prelude.Lex.{lex_lt}
use tapestry.Facts.Types.{Fact, is_retracted, priority_of, type_none}

-- The sign of a C comparison.
pub data Sign : Type 0 where
  below same above : Sign

-- `r < 0` and `r > 0`.
abbrev pub is_below : Sign → Bool
is_below below = true
is_below _ = false

abbrev pub is_above : Sign → Bool
is_above above = true
is_above _ = false

module _ {F : Type 0} where
  abbrev pub is_live : Fact F → Bool
  is_live f = not (is_retracted f.flags)

  unfoldable pub rank_cmp : Fact F → Fact F → Sign
  rank_cmp a b =
      if not (a.stamp == b.stamp)
      then (if ltb a.stamp b.stamp then below else above)
      else if not (a.key.origin == b.key.origin)
      then (if ltb a.key.origin b.key.origin then below else above)
      else if not (a.key.epoch == b.key.epoch)
      then (if ltb a.key.epoch b.key.epoch then below else above)
      else if not (a.key.seq == b.key.seq)
      then (if ltb a.key.seq b.key.seq then below else above)
      else same

  -- `int la = is_live(a) ? 1 : 0`
  abbrev pub live_bit : Fact F → ℕ
  live_bit f = if is_live f then 1 else 0

  unfoldable pub evict_cmp : Fact F → Fact F → Sign
  evict_cmp a b =
      if not (live_bit a == live_bit b)
      then (if ltb (live_bit a) (live_bit b) then below else above)
      else if not (priority_of a.flags == priority_of b.flags)
      then (if ltb (priority_of a.flags) (priority_of b.flags) then below else above)
      else rank_cmp a b

  unfoldable pub type_matches : ℕ → Fact F → Bool
  type_matches type f = type == type_none || f.key.type == type

  -- The fields that the two orders compare, in order.
  abbrev pub rank_fields : Fact F → List ℕ
  rank_fields f = f.stamp ∷ f.key.origin ∷ f.key.epoch ∷ f.key.seq ∷ []

  abbrev pub evict_fields : Fact F → List ℕ
  evict_fields f = live_bit f ∷ priority_of f.flags ∷ rank_fields f

  -- `rank_cmp` is the lexicographic order of (stamp, origin, epoch, seq).
  pub rank_cmp-lex :
      (a b : Fact F) → is_below (rank_cmp a b) ≡ lex_lt (rank_fields a) (rank_fields b)
  unfolding rank_cmp lex_lt
  rank_cmp-lex a b = ground arith

  pub rank_cmp-swap :
      (a b : Fact F) → is_above (rank_cmp a b) ≡ lex_lt (rank_fields b) (rank_fields a)
  unfolding rank_cmp lex_lt
  rank_cmp-swap a b = ground arith

  -- `evict_cmp` is the lexicographic order of (live, priority, stamp, origin, epoch, seq).
  pub evict_cmp-lex :
      (a b : Fact F) → is_below (evict_cmp a b) ≡ lex_lt (evict_fields a) (evict_fields b)
  unfolding evict_cmp lex_lt
  evict_cmp-lex a b = ground (arith, rank_cmp-lex a b)
