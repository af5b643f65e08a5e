-- ===== src/Wire/Auth.antt =====
-- gossip.c: the authentication tag that stands behind a frame, where a build has one.
use tapestry.Prelude.{
  ℕ, ◌+◌, ◌≤◌, ◌≡◌, refl, sym, ap, ◌∙◌, ◌↔◌, List, [], ◌∷◌, ◌++◌, Option, none, some, Bool, true,
  false, ◌&&◌, arith, ltb, ◌==◌, if◌then◌else◌, length, take, drop, min, length-append, length-take,
  take-append, drop-append, append-take-drop, append_nil,
}
use tapestry.Wire.Frames.{auth_tag_size}

-- The message authentication code under the deployment's key: auth_key_load() and
-- psa_mac_compute().  `none` is a failure of either.
abbrev pub Mac : Type 0
Mac = List ℕ → Option (List ℕ)

unfoldable pub hmac4_sign : Mac → List ℕ → Option (List ℕ)
hmac4_sign mac msg = elim (mac msg) [
  | none ↦ none
  | some code ↦ if ltb (length code) auth_tag_size then none else some (take auth_tag_size code)
]

-- Whether the bytes expected stand at the front of those received.
unfoldable pub same_bytes : List ℕ → List ℕ → Bool
same_bytes [] bs = true
same_bytes (e ∷ es) [] = false
same_bytes (e ∷ es) (b ∷ bs) = (e == b) && same_bytes es bs

unfoldable pub hmac4_verify : Mac → List ℕ → List ℕ → Bool
hmac4_verify mac msg tag = elim (hmac4_sign mac msg) [
  | none ↦ false
  | some expected ↦ same_bytes expected tag
]

-- What each sender does to a packed frame: with authentication it appends the tag, and sends nothing
-- if there is none.  No `Mac` is a build without authentication.
unfoldable pub seal : Option Mac → List ℕ → Option (List ℕ)
seal none body = some body
seal (some mac) body = elim (hmac4_sign mac body) [ none ↦ none | some tag ↦ some (body ++ tag) ]

-- The gates that each receiver puts before a frame of `size` bytes: its length, then its tag.
unfoldable pub unseal : Option Mac → ℕ → List ℕ → Option (List ℕ)
unseal none size buf = if ltb (length buf) size then none else some (take size buf)
unseal (some mac) size buf =
    if ltb (length buf) size
    then none
    else if ltb (length buf) (size + auth_tag_size)
    then none
    else if hmac4_verify mac (take size buf) (drop size buf)
    then some (take size buf)
    else none

same_bytes-append : (es bs : List ℕ) → same_bytes es (es ++ bs) ≡ true
unfolding same_bytes
same_bytes-append [] bs = refl
same_bytes-append (e ∷ es) bs = ground (arith, same_bytes-append es bs)

same_bytes-true : (es bs : List ℕ) → same_bytes es bs ≡ true → (rest : List ℕ) × (bs ≡ es ++ rest)
unfolding same_bytes
same_bytes-true [] bs h = (bs, refl)
same_bytes-true (e ∷ es) [] h = ground arith
same_bytes-true (e ∷ es) (b ∷ bs) h =
    let p : e ≡ b = ground arith in
    let (rest, q) = same_bytes-true es bs (ground arith) in
    (rest, ap (λ l. b ∷ l) q ∙ ap (λ x. x ∷ (es ++ rest)) (sym p))

length-hmac4_sign :
    (mac : Mac) (msg tag : List ℕ) → hmac4_sign mac msg ≡ some tag → length tag ≡ auth_tag_size
unfolding hmac4_sign
length-hmac4_sign mac msg tag h = look (mac msg) h
  where
    look :
        (r : Option (List ℕ))
        → elim r [
          | none ↦ none
          | some code ↦
              if ltb (length code) auth_tag_size then none else some (take auth_tag_size code)
        ]
          ≡ some tag
        → length tag ≡ auth_tag_size
    look none h = ground arith
    look (some code) h =
        let n = length-take auth_tag_size code in
        let p : take auth_tag_size code ≡ tag = ground arith in
        let q : ltb (length code) auth_tag_size ≡ false = ground arith in
        let r : length tag ≡ min auth_tag_size (length code) = ap length (sym p) ∙ n in ground arith

-- A buffer that is a frame of `size` bytes with its tag behind it, and perhaps more bytes.
abbrev pub IsSealed : Mac → ℕ → List ℕ → List ℕ → Type 0
IsSealed mac size buf body =
    (tag : List ℕ) × (rest : List ℕ) × (length body ≡ size)
    × (hmac4_sign mac body ≡ some tag)
    × (buf ≡ body ++ (tag ++ rest))

unseal-IsSealed :
    (mac : Mac) (size : ℕ) (buf body : List ℕ)
    → unseal (some mac) size buf ≡ some body
    → IsSealed mac size buf body
unfolding unseal hmac4_verify
unseal-IsSealed mac size buf body h =
    let long : size + auth_tag_size ≤ length buf = ground arith in
    let same : take size buf ≡ body = ground arith in
    let checked : hmac4_verify mac (take size buf) (drop size buf) ≡ true = ground arith in
    look long same (hmac4_sign mac body) refl
      (ap (λ x. hmac4_verify mac x (drop size buf)) (sym same) ∙ checked)
  where
    look :
        size + auth_tag_size ≤ length buf
        → take size buf ≡ body
        → (r : Option (List ℕ)) → hmac4_sign mac body ≡ r
        → elim r [ none ↦ false | some expected ↦ same_bytes expected (drop size buf) ] ≡ true
        → IsSealed mac size buf body
    look long same none e c = ground arith
    look long same (some tag) e c =
        let (rest, q) = same_bytes-true tag (drop size buf) c in
        let n : length body ≡ size = omega (arith, ap length same, length-take size buf, long) in
        (
          tag,
          rest,
          n,
          e,
          sym (append-take-drop size buf)
              ∙ ap (λ x. x ++ drop size buf) same
              ∙ ap (λ x. body ++ x) q,
        )

hmac4_verify-append :
    (mac : Mac) (body tag rest : List ℕ)
    → hmac4_sign mac body ≡ some tag
    → hmac4_verify mac body (tag ++ rest) ≡ true
unfolding hmac4_verify
hmac4_verify-append mac body tag rest e = rw (hmac4_verify, e) (same_bytes-append tag rest)

IsSealed-unseal :
    (mac : Mac) (size : ℕ) (buf body : List ℕ)
    → IsSealed mac size buf body
    → unseal (some mac) size buf ≡ some body
unfolding unseal
IsSealed-unseal mac size buf body (tag, rest, n, e, q) =
    let t = length-hmac4_sign mac body tag e in
    let whole : length buf ≡ size + auth_tag_size + length rest =
      omega (arith, ap length q, length-append body (tag ++ rest), length-append tag rest, t, n) in
    let front : take size buf ≡ body = rw (q, ← n) (take-append body (tag ++ rest)) in
    let back : drop size buf ≡ tag ++ rest = rw (q, ← n) (drop-append body (tag ++ rest)) in
    let a : ltb (length buf) size ≡ false = ground arith in
    let b : ltb (length buf) (size + auth_tag_size) ≡ false = ground arith in
    let c : hmac4_verify mac body (tag ++ rest) ≡ true = hmac4_verify-append mac body tag rest e in
    rw (unseal, a, b, front, back, c) refl

-- With authentication, a receiver takes a frame out of a buffer exactly if the buffer starts with
-- the frame, of the size expected, and behind it the tag that its own key gives the frame.
pub unseal_iff :
    (mac : Mac) (size : ℕ) (buf body : List ℕ)
    → (unseal (some mac) size buf ≡ some body) ↔ IsSealed mac size buf body
unseal_iff mac size buf body =
    (unseal-IsSealed mac size buf body, IsSealed-unseal mac size buf body)

-- What a sender seals, a receiver with the same key unseals.
pub unseal-seal :
    (auth : Option Mac) (body sent : List ℕ)
    → seal auth body ≡ some sent
    → unseal auth (length body) sent ≡ some body
unfolding seal unseal
unseal-seal none body sent h =
    let e : body ≡ sent = ground arith in
    let a : ltb (length body) (length body) ≡ false = ground arith in
    let t : take (length body) body ≡ body =
      ap (take (length body)) (sym (append_nil body)) ∙ take-append body [] in
    rw (← e, unseal, a, t) refl
unseal-seal (some mac) body sent h = look (hmac4_sign mac body) refl h
  where
    look :
        (r : Option (List ℕ))
        → hmac4_sign mac body ≡ r
        → elim r [ none ↦ none | some tag ↦ some (body ++ tag) ] ≡ some sent
        → unseal (some mac) (length body) sent ≡ some body
    look none e h = ground arith
    look (some tag) e h =
        let q : body ++ tag ≡ sent = ground arith in
        IsSealed-unseal mac (length body) sent body
          (tag, [], refl, e, sym q ∙ ap (λ x. body ++ x) (sym (append_nil tag)))
