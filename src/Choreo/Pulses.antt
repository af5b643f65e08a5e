-- ===== src/Choreo/Pulses.antt =====
-- A change of the collective's count that lasts is reported, once.
use tapestry.Prelude.{
  ℕ, zero, suc, ◌+◌, ◌*◌, ◌<◌, ◌≤◌, ◌≡◌, refl, ◌≢◌, ◌⊎◌, inl, inr, Bool, true, false, ◌||◌, List,
  [], ◌∷◌, arith, ltb, if◌then◌else◌, ◌∙◌,
}
use tapestry.Choreo.Membership.{
  Membership, membership_hold_ms, follow, confirm, update_membership_debounce,
}

-- The pulses of n ticks with one count.
unfoldable pub pulses : ℕ → ℕ → Membership → List (Bool × Bool)
pulses zero raw m = []
pulses (suc n) raw m =
    let (m', joined, lost) = update_membership_debounce m raw in
    let rest = pulses n raw m' in if joined || lost then (joined, lost) ∷ rest else rest

-- What the code keeps: a candidate whose time is up is the locked count.
pub record IsMembership (m : Membership) : Type 0 where
  pub started : m.locked_valid ≡ true
  pub timely : (m.candidate_ms < membership_hold_ms) ⊎ (m.candidate ≡ m.locked)

settled_once :
    (n raw : ℕ) (m : Membership) → m.locked_valid ≡ true → raw ≡ m.locked → pulses n raw m ≡ []
unfolding pulses update_membership_debounce
settled_once zero raw m v e = refl
settled_once (suc n) raw m v e =
    ground (arith, settled_once n raw (record m { candidate_ms = 0 }) v e)

pending_once :
    (n raw : ℕ) (m : Membership)
    → m.locked_valid ≡ true
    → raw ≢ m.locked
    → raw ≡ m.candidate
    → m.candidate_ms < membership_hold_ms
    → membership_hold_ms ≤ m.candidate_ms + 100 * n
    → pulses n raw m ≡ (ltb m.locked raw, ltb raw m.locked) ∷ []
unfolding pulses update_membership_debounce follow confirm
pending_once zero raw m v ne e small long = absurd (omega arith)
pending_once (suc n) raw m v ne e small long = ground (
  arith,
  settled_once n raw (record m { locked = raw; candidate_ms = m.candidate_ms + 100 }) v refl,
  pending_once n raw (record m { candidate_ms = m.candidate_ms + 100 }) v ne e,
)

same_or_not : (a b : ℕ) → (a ≡ b) ⊎ (a ≢ b)
same_or_not a b = omega arith

restart_once :
    (n raw : ℕ) (m : Membership)
    → m.locked_valid ≡ true
    → raw ≢ m.locked
    → raw ≢ m.candidate
    → 20 ≤ n
    → pulses (suc n) raw m ≡ (ltb m.locked raw, ltb raw m.locked) ∷ []
unfolding pulses update_membership_debounce follow confirm
restart_once n raw m v ne d long =
    ground (arith, pending_once n raw (record m { candidate = raw; candidate_ms = 0 }) v ne refl)

report_once :
    (n raw : ℕ) (m : Membership)
    → 21 ≤ n
    → raw ≢ m.locked
    → IsMembership m
    → pulses n raw m ≡ (ltb m.locked raw, ltb raw m.locked) ∷ []
report_once zero raw m h ne w = absurd (omega arith)
report_once (suc n) raw m h ne w = elim (w.timely) [
  | inl small ↦ elim (same_or_not raw m.candidate) [
    | inl e ↦ pending_once (suc n) raw m w.started ne e small (omega arith)
    | inr d ↦ restart_once n raw m w.started ne d (omega arith)
  ]
  | inr e ↦ restart_once n raw m w.started ne (λ d. ne (d ∙ e)) (omega arith)
]

-- The first tick starts the debounce, and every one keeps it.
update-IsMembership :
    (m : Membership) (raw : ℕ)
    → (m.locked_valid ≡ true → IsMembership m)
    → IsMembership (update_membership_debounce m raw).0
unfolding update_membership_debounce follow confirm
update-IsMembership m raw w = ground arith

-- The state after the ticks of a list of counts.
unfoldable pub after : List ℕ → Membership → Membership
after [] m = m
after (r ∷ rs) m = after rs (update_membership_debounce m r).0

after-IsMembership : (rs : List ℕ) (m : Membership) → IsMembership m → IsMembership (after rs m)
unfolding after
after-IsMembership [] m w = w
after-IsMembership (r ∷ rs) m w = after-IsMembership rs _ (update-IsMembership m r (λ v. w))

-- Whatever counts there were since the debounce began, one at least, a count that differs from the
-- locked one and stays for 21 ticks or more is reported by exactly one pulse: joined if it is greater,
-- lost if it is less.
pub pulses_once :
    (r : ℕ) (rs : List ℕ) (m : Membership) (n raw : ℕ)
    → m.locked_valid ≡ false
    → 21 ≤ n
    → raw ≢ (after (r ∷ rs) m).locked
    → pulses n raw (after (r ∷ rs) m)
      ≡ (ltb (after (r ∷ rs) m).locked raw, ltb raw (after (r ∷ rs) m).locked) ∷ []
unfolding after
pulses_once r rs m n raw v h ne =
    report_once n raw (after (r ∷ rs) m) h ne
      (after-IsMembership rs _ (update-IsMembership m r (λ t. cc)))
