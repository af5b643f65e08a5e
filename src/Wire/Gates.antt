-- ===== src/Wire/Gates.antt =====
-- gossip.c: the gates in front of each kind of frame, in a build with authentication and in one
-- without.
use tapestry.Prelude.{
  ℕ, ◌<◌, ◌≤◌, ◌≡◌, refl, sym, ap, ◌∙◌, ◌↔◌, List, ◌++◌, Option, none, some, false, arith, ltb,
  length, take, drop, length-append, length-take, take-append, append-take-drop,
}
use tapestry.Wire.Auth.{Mac, unseal, IsSealed, unseal_iff}

-- The buffer starts with a frame of `size` bytes and, with authentication, its tag.
abbrev pub IsFramed : Option Mac → ℕ → List ℕ → List ℕ → Type 0
IsFramed none size buf body = (rest : List ℕ) × (length body ≡ size) × (buf ≡ body ++ rest)
IsFramed (some mac) size buf body = IsSealed mac size buf body

unseal-starts :
    (size : ℕ) (buf body : List ℕ) → unseal none size buf ≡ some body → IsFramed none size buf body
unfolding unseal
unseal-starts size buf body h =
    let long : size ≤ length buf = ground arith in
    let same : take size buf ≡ body = ground arith in
    (
      drop size buf,
      omega (arith, ap length same, length-take size buf, long),
      sym (append-take-drop size buf) ∙ ap (λ x. x ++ drop size buf) same,
    )

starts-unseal :
    (size : ℕ) (buf body : List ℕ) → IsFramed none size buf body → unseal none size buf ≡ some body
unfolding unseal
starts-unseal size buf body (rest, n, q) =
    let whole : size ≤ length buf = omega (arith, ap length q, length-append body rest, n) in
    let long : ltb (length buf) size ≡ false = ground arith in
    let front : take size buf ≡ body = rw (q, ← n) (take-append body rest) in
    rw (unseal, long, front) refl

short_lem :
    (auth : Option Mac) (size : ℕ) (buf : List ℕ) → length buf < size → unseal auth size buf ≡ none
unfolding unseal
short_lem none size buf h = ground arith
short_lem (some mac) size buf h = ground arith

-- A receiver takes a frame out of a buffer exactly if the buffer starts with the frame, of the size of
-- its kind, and, in a build with authentication, the tag follows that its own key gives the frame.  A
-- buffer shorter than the frame is refused.
pub unseal_takes_frames :
    (auth : Option Mac) (size : ℕ) (buf body : List ℕ)
    → ((unseal auth size buf ≡ some body) ↔ IsFramed auth size buf body)
      × (length buf < size → unseal auth size buf ≡ none)
unseal_takes_frames none size buf body =
    ((unseal-starts size buf body, starts-unseal size buf body), short_lem none size buf)
unseal_takes_frames (some mac) size buf body =
    (unseal_iff mac size buf body, short_lem (some mac) size buf)
