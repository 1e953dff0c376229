-- ===== src/Framer/Examples.antt =====
-- The framer on a few bytes.
use mathlib.Core.List.{flatten}
use net_node_gateway.Prelude.{ℕ, ◌+◌, ◌≤◌, ◌≡◌, refl, List, [], ◌∷◌, ◌++◌, arith}
use net_node_gateway.Prelude.Text.{codes}
use net_node_gateway.Framer.{new_framer, feed, encode, buffered_bytes, max_frame}
use net_node_gateway.Framer.Extract.{IsDone, feed-IsDone}
use net_node_gateway.Framer.Stream.{encodings, feed_all, feed_all-encodings}

abbrev messages : List (List ℕ)
messages = codes "GET HEALTH" ∷ [] ∷ codes "OK" ∷ []

-- the encodings cut inside a prefix and inside a payload
abbrev pieces : List (List ℕ)
pieces =
    (0 ∷ 0 ∷ [])
    ∷ (0 ∷ 10 ∷ codes "GET HEA")
    ∷ (codes "LTH" ++ (0 ∷ 0 ∷ 0 ∷ 0 ∷ 0 ∷ 0 ∷ []))
    ∷ (0 ∷ 2 ∷ codes "OK")
    ∷ []

feed_all-encodings_example :
    feed_all new_framer pieces ≡ record { buffer = []; ready_frames = messages }
feed_all-encodings_example =
    feed_all-encodings pieces messages (ground arith) (unfold encodings encode flatten in refl)

feed-IsDone_example :
    IsDone (feed new_framer (0 ∷ 0 ∷ 0 ∷ 2 ∷ 65 ∷ []))
    × (buffered_bytes (feed new_framer (0 ∷ 0 ∷ 0 ∷ 2 ∷ 65 ∷ [])) ≤ max_frame + 3)
feed-IsDone_example = feed-IsDone new_framer (0 ∷ 0 ∷ 0 ∷ 2 ∷ 65 ∷ [])
