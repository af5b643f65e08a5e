-- ===== src/Gossip/Forgery.antt =====
-- What a received buffer without a valid tag does: nothing.
use tapestry.Prelude.{
  ℕ, ◌≡◌, refl, sym, ap, ◌∙◌, inl, inr, false, List, Option, none, some, Option-cases,
}
use tapestry.Prelude.Floats.{FloatOps}
use tapestry.Facts.Types.{Config}
use tapestry.Wire.Auth.{Mac, IsSealed, unseal, unseal_iff}
use tapestry.Wire.Frames.{DirectiveFrame}
use tapestry.Wire.Layout.{FloatBits}
use tapestry.Gossip.Types.{Build, Node}
use tapestry.Gossip.Drain.{RelayReadings, gossip_in, drain_buf}
use tapestry.Gossip.Directive.{directive_in, poll_buf}
use tapestry.Gossip.FactFrames.{fact_in, drain_fact}

-- No frame of a size stands at the front of the buffer with the tag that the key gives it.
abbrev pub IsForged : Mac → ℕ → List ℕ → Type 0
IsForged mac size buf = ¬ ((body : List ℕ) × IsSealed mac size buf body)

unseal_forged :
    (auth : Option Mac) (mac : Mac) (size : ℕ) (buf : List ℕ)
    → auth ≡ some mac
    → IsForged mac size buf
    → unseal auth size buf ≡ none
unseal_forged auth mac size buf e forged = elim (Option-cases (unseal auth size buf)) [
  | inl n ↦ n
  | inr (body, got) ↦
      absurd (
        forged (body, (unseal_iff mac size buf body).0 (ap (λ a. unseal a size buf) (sym e) ∙ got)))
]

module _ {F : Type 0} ⦃fl : FloatOps F⦄ ⦃fb : FloatBits F⦄ where
  -- In a build with authentication a received buffer that does not start with a frame of the kind's
  -- size and the tag that the key gives that frame changes nothing and is not counted: neither as a
  -- gossip frame, nor as a directive, nor as a fact frame.
  pub forgeries_ignored :
      (cfg : Config) (b : Build) (mac : Mac) (own_id : ℕ) (r : RelayReadings) (node : Node F)
      (polled : Option (DirectiveFrame F)) (buf : List ℕ)
      → b.auth ≡ some mac
      → (IsForged mac 48 buf → drain_buf b own_id r node buf ≡ (node, false))
        × (IsForged mac 30 buf → poll_buf b own_id node.gossip polled buf ≡ (node.gossip, polled))
        × (IsForged mac 53 buf → drain_fact cfg b own_id node.wm.facts buf ≡ (node.wm.facts, false))
  unfolding drain_buf gossip_in poll_buf directive_in drain_fact fact_in
  forgeries_ignored cfg b mac own_id r node polled buf e = (
    λ h. rw (drain_buf, gossip_in, unseal_forged b.auth mac 48 buf e h) refl,
    λ h. rw (poll_buf, directive_in, unseal_forged b.auth mac 30 buf e h) refl,
    λ h. rw (drain_fact, fact_in, unseal_forged b.auth mac 53 buf e h) refl,
  )
