-- ===== src/Prelude/Int.antt =====
-- C's `int` where its sign matters, under the library's names.
use tapestry.Prelude.{ℕ}

-- `negsuc n` is -(n + 1).
pub data ℤ : Type 0 where
  pos : ℕ → ℤ
  negsuc : ℕ → ℤ
