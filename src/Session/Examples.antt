-- ===== src/Session/Examples.antt =====
-- Two requests over a connection that keeps what is sent.
use net_node_gateway.Prelude.{ℕ, ◌≡◌, refl, true, List, [], ◌∷◌, ◌++◌, arith}
use net_node_gateway.Prelude.Text.{codes}
use net_node_gateway.Types.{info}
use net_node_gateway.Stats.{empty_stats}
use net_node_gateway.Framer.{new_framer, encode}
use net_node_gateway.Framer.Stream.{encodings}
use net_node_gateway.Commands.{new_handler}
use net_node_gateway.Session.{Link, Input, received, timeout, client_loop}
use net_node_gateway.Session.Answers.{answered, respond_all, client_loop-requests}

-- the world is what has been sent
abbrev reliable : Link (List ℕ)
reliable = record { send = λ bytes w. (true, w ++ bytes); stats_now = λ w. empty_stats }

abbrev requests : List (List ℕ)
requests = codes "GET HEALTH" ∷ codes "SET CRC=OFF" ∷ []

abbrev inputs : List Input
inputs =
    received (0 ∷ 0 ∷ [])
    ∷ timeout
    ∷ received (0 ∷ 10 ∷ codes "GET HEALTH" ++ (0 ∷ 0 ∷ 0 ∷ []))
    ∷ received (11 ∷ codes "SET CRC=OFF")
    ∷ []

client_loop-requests_example :
    client_loop reliable (answered reliable (new_handler info, []) new_framer) inputs
    ≡ answered reliable (respond_all reliable (new_handler info, []) requests) new_framer
client_loop-requests_example =
    client_loop-requests reliable (λ bytes w. refl) inputs requests (new_handler info) []
      (ground arith) (unfold encodings encode in refl) tt
