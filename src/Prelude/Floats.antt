-- ===== src/Prelude/Floats.antt =====
-- C's `float`: a type and the operations that the code calls, as an interface.  Nothing is assumed
-- of them here; a theorem that needs a law of one names it as a hypothesis.
use tapestry.Prelude.{ℕ, zero, suc, ◌+◌, ◌-◌, ◌*◌, ◌/◌, Bool, ltb, leb, if◌then◌else◌}

pub record FloatOps (F : Type 0) : Type 0 where
  pub of_ℕ : ℕ → F
  pub add : F → F → F
  pub sub : F → F → F
  pub mul : F → F → F
  pub div : F → F → F
  pub sqrtf : F → F
  pub lt : F → F → Bool
  pub le : F → F → Bool

-- The root of a whole number, rounded down, searched from `k` down.
abbrev isqrt_from : ℕ → ℕ → ℕ
isqrt_from zero n = 0
isqrt_from (suc k) n = if leb (suc k * suc k) n then suc k else isqrt_from k n

-- For tests: whole numbers, where a difference is taken without its sign and roots go up to 20.
instance abbrev pub whole : FloatOps ℕ
whole = record {
  of_ℕ = λ n. n;
  add = λ a b. a + b;
  sub = λ a b. (a - b) + (b - a);
  mul = λ a b. a * b;
  div = λ a b. a / b;
  sqrtf = isqrt_from 20;
  lt = ltb;
  le = leb;
}
