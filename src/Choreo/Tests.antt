-- ===== src/Choreo/Tests.antt =====
-- choreo.c: a remote host that is heard, and then not.
use tapestry.Prelude.{ℕ, ◌≡◌, refl, true, false, List, [], ◌∷◌, Option, none, some, arith, inr, ltb}
use tapestry.Prelude.Floats.{whole}
use tapestry.Runtime.Cycle.{Directive}
use tapestry.Choreo.Remote.{
  choreo_running, Remote, choreo_remote_directive, choreo_remote_active, choreo_get_directive,
}
use tapestry.Choreo.Membership.{Membership, update_membership_debounce, follow, confirm}
use tapestry.Choreo.Pulses.{pulses, after, pulses_once}
use tapestry.Choreo.Steering.{ticks, cycles, silence_ends_remote, stream_steers}

abbrev go_to : ℕ → Directive ℕ
go_to n = record { type = 1; target = record { x = n; y = 0; z = 0 }; spring_k = 1; spacing = 1 }

-- Long adopted, and just heard again.
abbrev steered : Remote ℕ
steered = record {
  dir = go_to 3;
  goal_id = 1;
  src = 0;
  seen = true;
  age_ms = 0;
  fresh_ms = 2400;
  adopted = true;
}

silence_ends_remote_example :
    choreo_get_directive
      (ticks 40 (choreo_remote_directive steered (go_to 5) 1 0))
      choreo_running
      (go_to 9)
    ≡ go_to 9
silence_ends_remote_example =
    silence_ends_remote steered (go_to 5) 1 0 40 choreo_running (go_to 9) (omega arith)

-- Not adopted yet, with six tenths of the hold time behind it.
abbrev heard : Remote ℕ
heard = record steered { fresh_ms = 1200; adopted = false }

abbrev stream : List (Option (Directive ℕ × ℕ × ℕ))
stream = none ∷ some (go_to 4, 1, 0) ∷ none ∷ none ∷ some (go_to 5, 1, 0) ∷ none ∷ none ∷ none ∷ []

stream_steers_example : choreo_remote_active (cycles stream heard) choreo_running ≡ true
stream_steers_example =
    stream_steers 0 stream heard (refl, refl, omega arith, inr (omega arith, omega arith))
      (omega arith, (omega arith, (omega arith, (omega arith, (omega arith, (omega arith, tt))))))

abbrev unlocked : Membership
unlocked = record { locked_valid = false; locked = 0; candidate = 0; candidate_ms = 0 }

-- Five elements, of which one is missing for two ticks.
abbrev counted : Membership
counted = after (5 ∷ 5 ∷ 4 ∷ 4 ∷ 5 ∷ []) unlocked

counted-locked : counted.locked ≡ 5
unfolding after update_membership_debounce follow confirm
counted-locked = refl

pulses_once_example : pulses 25 4 counted ≡ (ltb counted.locked 4, ltb 4 counted.locked) ∷ []
pulses_once_example =
    pulses_once 5 (5 ∷ 4 ∷ 4 ∷ 5 ∷ []) unlocked 25 4 refl (omega arith)
      (λ e. omega (arith, e, counted-locked))
