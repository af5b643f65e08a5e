-- ===== src/Transport/Negotiate.antt =====
-- transport.c, transport_negotiate_id(), in a build without CONFIG_BT: the window in which an element
-- sends beacons and listens, and the id that it takes at the end.
use Prim.Native.Nat.{bit_xor}
use tapestry.Prelude.{
  ℕ, ◌+◌, Bool, true, false, not, List, [], ◌∷◌, ◌++◌, Option, none, some, ltb, leb, ◌==◌,
  if◌then◌else◌, length, replicate, count, u8, u32,
}
use tapestry.Prelude.Floats.{FloatOps}
use tapestry.Facts.Types.{max_elements}
use tapestry.Facts.Query.{fnv}
use tapestry.WorldModel.Types.{cycle_ms}
use tapestry.Wire.Layout.{FloatBits}
use tapestry.Gossip.Types.{Build}
use tapestry.Gossip.Discovery.{send_discovery, drain_discovery}

-- AUTO_ID_BEACON_MS
abbrev pub beacon_ms : ℕ
beacon_ms = 150

-- The slots of `batch`.
abbrev pub batch_size : ℕ
batch_size = 8

-- auto_id_nonce_from_id()
unfoldable pub nonce_from_id : List ℕ → ℕ
nonce_from_id id = let h = fnv 2166136261 id in if h == 0 then 1 else h

-- hw_nonce(), with the device id if the driver gives one, and the uptime.
unfoldable pub hw_nonce : Option (List ℕ) → ℕ → ℕ
hw_nonce none uptime = bit_xor (u32 uptime) 2779096485
hw_nonce (some []) uptime = bit_xor (u32 uptime) 2779096485
hw_nonce (some (b ∷ bs)) uptime = nonce_from_id (b ∷ bs)

-- The locals of transport_negotiate_id().
pub record Window : Type 0 where
  pub peers : List ℕ
  pub claimed : List Bool
  pub beacon_accum_ms : ℕ
  pub beacons_sent : ℕ

abbrev pub window_start : Window
window_start = record {
  peers = [];
  claimed = replicate max_elements false;
  beacon_accum_ms = beacon_ms;
  beacons_sent = 0;
}

unfoldable pub is_heard : ℕ → List ℕ → Bool
is_heard nonce [] = false
is_heard nonce (p ∷ ps) = if p == nonce then true else is_heard nonce ps

-- A nonce of the batch: neither an own echo nor known.
unfoldable pub add_peer : ℕ → List ℕ → ℕ → List ℕ
add_peer own peers nonce =
    if nonce == own
    then peers
    else if is_heard nonce peers
    then peers
    else if ltb (length peers) max_elements
    then peers ++ (nonce ∷ [])
    else peers

unfoldable pub add_peers : ℕ → List ℕ → List ℕ → List ℕ
add_peers own peers [] = peers
add_peers own peers (nonce ∷ batch) = add_peers own (add_peer own peers nonce) batch

-- The beacon of a cycle, if one is due.
unfoldable pub beacon_due : Window → Window × Bool
beacon_due w =
    let accum = u32 (w.beacon_accum_ms + cycle_ms) in
    if leb beacon_ms accum
    then (record w { beacon_accum_ms = 0; beacons_sent = u32 (w.beacons_sent + 1) }, true)
    else (record w { beacon_accum_ms = accum }, false)

module _ (F : Type 0) ⦃fl : FloatOps F⦄ ⦃fb : FloatBits F⦄ where
  -- One cycle of the window: what it hears, and the buffers it sends.
  unfoldable pub cycle : Build → ℕ → Window → List (List ℕ) → Window × List (List ℕ)
  cycle b own w bufs =
      let (w1, due) = beacon_due w in
      let heard =
        drain_discovery F batch_size max_elements (record { nonces = []; claimed = w1.claimed })
          bufs in
      (
        record w1 { peers = add_peers own w1.peers heard.nonces; claimed = heard.claimed },
        if due then send_discovery F b own else [],
      )

  -- The window, over what each of its cycles receives.
  unfoldable pub window : Build → ℕ → Window → List (List (List ℕ)) → Window × List (List ℕ)
  window b own w [] = (w, [])
  window b own w (bufs ∷ cycles) =
      let (w1, sent) = cycle b own w bufs in
      let (w2, more) = window b own w1 cycles in (w2, sent ++ more)

-- The place of the free id with a rank: the next id, and the free ids seen.
unfoldable pub nth_free : ℕ → ℕ → ℕ → List Bool → Option ℕ
nth_free i seen rank [] = none
nth_free i seen rank (taken ∷ claimed) =
    if not taken
    then (if seen == rank then some i else nth_free (i + 1) (seen + 1) rank claimed)
    else nth_free (i + 1) seen rank claimed

-- `own_rank`
unfoldable pub rank_of : ℕ → List ℕ → ℕ
rank_of own peers = count (λ p. ltb p own) peers

-- The id taken.
unfoldable pub negotiated_id : ℕ → Window → ℕ
negotiated_id own w =
    let rank = rank_of own w.peers in
    elim (nth_free 0 0 rank w.claimed) [ none ↦ u8 rank | some i ↦ u8 i ]

-- `*n_total_out`
unfoldable pub negotiated_total : Window → ℕ
negotiated_total w = length w.peers + 1 + count (λ c. c) w.claimed
