-- ===== src/Transport/Peers.antt =====
-- What the window collects: nonces of others, each once, and no more than there are elements.
use mathlib.Core.Path.{subst}
use tapestry.Prelude.{
  ℕ, ◌<◌, ◌≤◌, ◌≡◌, refl, sym, ap, ◌∙◌, ◌≢◌, inl, inr, true, false, List, [], ◌∷◌, ◌++◌, arith,
  Option, none, some, ltb, ◌==◌, Bool-cases, length, length-append, length-set,
}
use tapestry.Prelude.Floats.{FloatOps}
use tapestry.Facts.Types.{max_elements}
use tapestry.Wire.Layout.{FloatBits, decode_gossip}
use tapestry.Wire.Frames.{GossipFrame}
use tapestry.Gossip.Types.{Build}
use tapestry.Gossip.Discovery.{Discovery, hear, drain_discovery}
use tapestry.Transport.Negotiate.{
  batch_size, Window, is_heard, add_peer, add_peers, beacon_due, cycle, window,
}

-- No nonce stands twice.
abbrev pub Distinct : List ℕ → Type 0
Distinct [] = Unit
Distinct (p ∷ ps) = (is_heard p ps ≡ false) × Distinct ps

pub record ArePeers (own : ℕ) (peers : List ℕ) : Type 0 where
  pub few : length peers ≤ max_elements
  pub others : is_heard own peers ≡ false
  pub distinct : Distinct peers

is_heard-append :
    (nonce p : ℕ) (ps : List ℕ)
    → is_heard nonce ps ≡ false
    → nonce ≢ p
    → is_heard nonce (ps ++ (p ∷ [])) ≡ false
unfolding is_heard
is_heard-append nonce p [] h ne = ground arith
is_heard-append nonce p (x ∷ ps) h ne = ground (arith, is_heard-append nonce p ps)

Distinct-append :
    (p : ℕ) (ps : List ℕ) → is_heard p ps ≡ false → Distinct ps → Distinct (ps ++ (p ∷ []))
unfolding is_heard
Distinct-append p [] h d = (refl, tt)
Distinct-append p (x ∷ ps) h d =
    (is_heard-append x p ps d.0 (ground arith), Distinct-append p ps (ground arith) d.1)

add_peer-ArePeers :
    (own : ℕ) (peers : List ℕ) (nonce : ℕ)
    → ArePeers own peers
    → ArePeers own (add_peer own peers nonce)
unfolding add_peer
add_peer-ArePeers own peers nonce ok = elim (Bool-cases (nonce == own)) [
  | inl e ↦ rw (add_peer, e) ok
  | inr e ↦
      rw (add_peer, e)
        (elim (Bool-cases (is_heard nonce peers)) [
          | inl h ↦ rw h ok
          | inr h ↦ rw h (elim (Bool-cases (ltb (length peers) max_elements)) [
            | inr n ↦ rw n ok
            | inl n ↦
                let room : length peers < max_elements = ground arith in
                rw n (record {
                  few = omega (arith, length-append peers (nonce ∷ []), room);
                  others = is_heard-append own nonce peers ok.others (ground arith);
                  distinct = Distinct-append nonce peers h ok.distinct;
                })
          ])
        ])
]

add_peers-ArePeers :
    (own : ℕ) (peers batch : List ℕ) → ArePeers own peers → ArePeers own (add_peers own peers batch)
unfolding add_peers
add_peers-ArePeers own peers [] ok = ok
add_peers-ArePeers own peers (nonce ∷ batch) ok =
    add_peers-ArePeers own (add_peer own peers nonce) batch (add_peer-ArePeers own peers nonce ok)

pub record IsWindow (own : ℕ) (w : Window) : Type 0 where
  pub peers : ArePeers own w.peers
  pub sized : length w.claimed ≡ max_elements

module _ {F : Type 0} where
  length-hear :
      (max_nonces max_id : ℕ) (d : Discovery) (f : GossipFrame F)
      → length (hear max_nonces max_id d f).claimed ≡ length d.claimed
  unfolding hear
  length-hear max_nonces max_id d f = ground (arith, length-set d.claimed f.id true)

module _ (F : Type 0) ⦃fl : FloatOps F⦄ ⦃fb : FloatBits F⦄ where
  length-drain_discovery :
      (max_nonces max_id : ℕ) (d : Discovery) (bufs : List (List ℕ))
      → length (drain_discovery F max_nonces max_id d bufs).claimed ≡ length d.claimed
  unfolding drain_discovery
  length-drain_discovery max_nonces max_id d [] = refl
  length-drain_discovery max_nonces max_id d (buf ∷ bufs) =
      length-drain_discovery max_nonces max_id (one (decode_gossip {F = F} buf)) bufs
      ∙ length-one (decode_gossip {F = F} buf)
    where
      one : Option (GossipFrame F) → Discovery
      one o = elim o [ none ↦ d | some f ↦ hear max_nonces max_id d f ]

      length-one : (o : Option (GossipFrame F)) → length (one o).claimed ≡ length d.claimed
      length-one none = refl
      length-one (some f) = length-hear max_nonces max_id d f

  cycle-IsWindow :
      (b : Build) (own : ℕ) (w : Window) (bufs : List (List ℕ))
      → IsWindow own w
      → IsWindow own (cycle F b own w bufs).0
  unfolding cycle beacon_due
  cycle-IsWindow b own w bufs ok = record {
    peers =
        subst (ArePeers own) (ap (λ p. add_peers own p heard.nonces) (sym same.0))
          (add_peers-ArePeers own w.peers heard.nonces ok.peers);
    sized =
        length-drain_discovery batch_size max_elements
          (record { nonces = []; claimed = (beacon_due w).0.claimed }) bufs
        ∙ ap length same.1
        ∙ ok.sized;
  }
    where
      heard : Discovery
      heard =
          drain_discovery F batch_size max_elements
            (record { nonces = []; claimed = (beacon_due w).0.claimed }) bufs

      same : ((beacon_due w).0.peers ≡ w.peers) × ((beacon_due w).0.claimed ≡ w.claimed)
      same = (ground arith, ground arith)

  -- Whatever the media deliver in the window, and however long it is, the peers that it collects are
  -- at most as many as there are elements, do not include the element's own nonce, and are all
  -- different; the ids in use keep one flag for each element.
  pub window-IsWindow :
      (b : Build) (own : ℕ) (w : Window) (cycles : List (List (List ℕ)))
      → IsWindow own w
      → IsWindow own (window F b own w cycles).0
  unfolding window
  window-IsWindow b own w [] ok = ok
  window-IsWindow b own w (bufs ∷ cycles) ok =
      window-IsWindow b own (cycle F b own w bufs).0 cycles (cycle-IsWindow b own w bufs ok)
