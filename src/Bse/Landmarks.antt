-- ===== src/Bse/Landmarks.antt =====
-- bse.c: a landmark that takes over the rank is followed only after the hold time.
use tapestry.Prelude.{ℕ, ◌≡◌, true, List, [], ◌∷◌, some}
use tapestry.Facts.Types.{Fact, FactKey}
use tapestry.Bse.Types.{Activation}
use tapestry.Bse.Anchors.{resolve_found}

module _ {F : Type 0} where
  -- Ticks in which the locked landmark is live, each with its fact and the one that holds the rank.
  abbrev pub after_looks : List (Fact F × Fact F) → Activation F → Activation F
  after_looks [] a = a
  after_looks ((held, raw) ∷ ls) a = after_looks ls (resolve_found a (some held) raw).0

  -- One key has held the rank for some time, and `locked` is still followed.
  record Waiting (key locked : FactKey) (ms : ℕ) (a : Activation F) : Type 0 where
    valid : a.landmark_candidate_valid ≡ true
    candidate : a.landmark_candidate_key ≡ key
    time : a.landmark_candidate_ms ≡ ms
    followed : a.landmark_locked_key ≡ locked
