-- ===== src/Choreo/Membership.antt =====
-- choreo.c, update_membership_debounce(): the count of the collective, with changes that must last.
use tapestry.Prelude.{ℕ, ◌+◌, Bool, true, false, not, ltb, leb, ◌==◌, if◌then◌else◌, u32}

-- CHOREO_MEMBERSHIP_HOLD_MS
abbrev pub membership_hold_ms : ℕ
membership_hold_ms = 2000

-- s_count_locked_valid, s_count_locked, s_count_candidate and s_count_candidate_ms
pub record Membership : Type 0 where
  pub locked_valid : Bool
  pub locked : ℕ
  pub candidate : ℕ
  pub candidate_ms : ℕ

-- The candidate of one tick and its time, ...
unfoldable pub follow : Membership → ℕ → Membership
follow m raw =
    if raw == m.candidate
    then record m { candidate_ms = u32 (m.candidate_ms + 100) }
    else record m { candidate = raw; candidate_ms = 0 }

-- ... and its confirmation, with the two pulses: joined, lost.
unfoldable pub confirm : Membership → ℕ → Membership × Bool × Bool
confirm m raw =
    if leb membership_hold_ms m.candidate_ms
    then (record m { locked = raw }, ltb m.locked raw, ltb raw m.locked)
    else (m, false, false)

-- One tick, with the count of track_member_count().
unfoldable pub update_membership_debounce : Membership → ℕ → Membership × Bool × Bool
update_membership_debounce m raw =
    if not m.locked_valid
    then (record m { locked_valid = true; locked = raw; candidate_ms = 0 }, false, false)
    else if raw == m.locked
    then (record m { candidate_ms = 0 }, false, false)
    else confirm (follow m raw) raw
