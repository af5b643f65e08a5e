-- ===== src/Transport/Tests.antt =====
-- transport.c: two elements that start together.
use tapestry.Prelude.{
  ℕ, ◌<◌, ◌≡◌, refl, ◌≢◌, false, not, List, [], ◌∷◌, some, arith, count, get_elem?,
}
use tapestry.Prelude.Floats.{whole}
use tapestry.Wire.Layout.{whole_bits, encode_gossip}
use tapestry.Gossip.Types.{Build}
use tapestry.Gossip.Discovery.{discovery_frame}
use tapestry.Transport.Negotiate.{Window, window_start, is_heard, window, negotiated_id}
use tapestry.Transport.Ids.{HeardTheSame, ids_differ}
use tapestry.Transport.Peers.{IsWindow, window-IsWindow}
use mathlib.Core.Option.{none}

abbrev plain : Build
plain = record { mesh_relay = false; bluetooth = false; auth = none }

-- The elements with the nonces 70 and 30 have heard each other and a third one, with 50.
abbrev first : Window
first = record window_start { peers = 30 ∷ 50 ∷ [] }

abbrev second : Window
second = record window_start { peers = 50 ∷ 70 ∷ [] }

heard_the_same : HeardTheSame 70 first.peers 30 second.peers
unfolding count
heard_the_same p = omega arith

free_ids : 2 < count not first.claimed
unfolding count
free_ids = omega arith

ids_differ_example :
    (negotiated_id 70 first ≢ negotiated_id 30 second)
    × (get_elem? first.claimed (negotiated_id 70 first) ≡ some false)
    × (get_elem? second.claimed (negotiated_id 30 second) ≡ some false)
ids_differ_example =
    ids_differ 70 30 first second (omega arith) heard_the_same refl refl free_ids free_ids

abbrev beacon : List ℕ
beacon = encode_gossip (discovery_frame {F = ℕ} 50)

start-IsWindow : IsWindow 70 window_start
unfolding is_heard
start-IsWindow = record {
  peers = record { few = omega arith; others = refl; distinct = tt };
  sized = refl;
}

window-IsWindow_example :
    IsWindow 70
      (window ℕ plain 70 window_start ((beacon ∷ []) ∷ (beacon ∷ (1 ∷ []) ∷ []) ∷ [] ∷ [])).0
window-IsWindow_example =
    window-IsWindow ℕ plain 70 window_start ((beacon ∷ []) ∷ (beacon ∷ (1 ∷ []) ∷ []) ∷ [] ∷ [])
      start-IsWindow
