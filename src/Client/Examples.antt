-- ===== src/Client/Examples.antt =====
-- A connection that delivers what is left of a list of pieces.
use net_node_gateway.Prelude.{
  ℕ, ◌≡◌, refl, ap, true, false, Option, none, some, List, [], ◌∷◌, length, arith,
}
use mathlib.Core.List.{flatten}
use net_node_gateway.Prelude.{◌++◌, take, drop, append-nil, take-append-drop, ◌∙◌}
use net_node_gateway.Prelude.Text.{codes, text_eq}
use net_node_gateway.Commands.Text.{
  upper, trim, trim_back, before_eq, after_eq, has_eq, take_while, drop_while, first_word,
  after_word, first_line,
}
use net_node_gateway.Commands.Config.{assign}
use net_node_gateway.Framer.Stream.{IsMessage}
use net_node_gateway.Types.{info}
use net_node_gateway.Stats.{empty_stats}
use net_node_gateway.Commands.{CommandHandler, new_handler, handle}
use net_node_gateway.Session.{Session, Input, received, timeout, client_loop}
use net_node_gateway.Session.Answers.{answered}
use net_node_gateway.Client.Exchange.{outbox, Joins, send_command-handle}
use net_node_gateway.Framer.{encode, new_framer}
use net_node_gateway.Sockets.{System, ready}
use net_node_gateway.Client.{send_command}
use net_node_gateway.Client.Response.{Delivers, send_command-encode}

abbrev next_piece : List (List ℕ) → Option (List ℕ) × List (List ℕ)
next_piece [] = (none, [])
next_piece (piece ∷ pieces) = (some piece, pieces)

abbrev delivering : System (List (List ℕ))
delivering = record {
  socket = λ kind w. (some 3, w);
  allow_reuse = λ fd w. w;
  bind_to = λ fd port w. (true, w);
  parse_address = λ host. some 0;
  connect_to = λ fd address port w. (true, w);
  poll = λ fd timeout w. (ready false true, w);
  recv = λ fd size w. next_piece w;
  send_bytes = λ fd bytes w. (some (length bytes), w);
  close_fd = λ fd w. w;
}

delivering-Delivers : Delivers delivering 3 (λ w. w)
delivering-Delivers = record {
  takes = λ bytes w. refl;
  reports = λ piece pieces w h. (w, refl, h);
  gives = λ piece pieces w h. (pieces, ap next_piece h, refl);
}

cut : flatten ((0 ∷ 0 ∷ []) ∷ (0 ∷ 2 ∷ 79 ∷ []) ∷ (75 ∷ []) ∷ []) ≡ encode (79 ∷ 75 ∷ [])
unfolding encode flatten
cut = refl

-- "GET" is answered with "OK", in three pieces.
send_command-encode_example :
    (send_command delivering 3
      (record { sockfd = some 3 })
      (71 ∷ 69 ∷ 84 ∷ [])
      ((0 ∷ 0 ∷ []) ∷ (0 ∷ 2 ∷ 79 ∷ []) ∷ (75 ∷ []) ∷ [])).0
    ≡ some (79 ∷ 75 ∷ [])
send_command-encode_example =
    send_command-encode delivering-Delivers 3 (71 ∷ 69 ∷ 84 ∷ []) (79 ∷ 75 ∷ [])
      (record { sockfd = some 3 }) ((0 ∷ 0 ∷ []) ∷ (0 ∷ 2 ∷ 79 ∷ []) ∷ (75 ∷ []) ∷ []) (omega arith)
      refl cut (omega arith)

-- A server and the pieces that are on their way from it.
record Wire : Type 0 where
  session : Session (List ℕ)
  left : List (List ℕ)

abbrev idle_handler : CommandHandler
idle_handler = new_handler info

abbrev arriving : List ℕ → List Input
arriving bytes = received (take 2 bytes) ∷ timeout ∷ received (drop 2 bytes) ∷ []

abbrev reached : List ℕ → Wire → Wire
reached bytes w =
    let s = client_loop (outbox empty_stats) (record w.session { world = [] }) (arriving bytes) in
    record { session = s; left = take 3 s.world ∷ drop 3 s.world ∷ [] }

abbrev received_piece : Wire → List (List ℕ) → Option (List ℕ) × Wire
received_piece w [] = (none, w)
received_piece w (piece ∷ pieces) = (some piece, record w { left = pieces })

abbrev wired : System Wire
wired = record {
  socket = λ kind w. (some 3, w);
  allow_reuse = λ fd w. w;
  bind_to = λ fd port w. (true, w);
  parse_address = λ host. some 0;
  connect_to = λ fd address port w. (true, w);
  poll = λ fd timeout w. (ready false true, w);
  recv = λ fd size w. received_piece w w.left;
  send_bytes = λ fd bytes w. (some (length bytes), reached bytes w);
  close_fd = λ fd w. w;
}

session-received_piece :
    (w : Wire) (pieces : List (List ℕ)) → (received_piece w pieces).1.session ≡ w.session
session-received_piece w [] = refl
session-received_piece w (piece ∷ pieces) = refl

wired-Joins : Joins wired 3 empty_stats (λ w. w.left) (λ w. w.session)
unfolding flatten
wired-Joins = record {
  delivers = record {
    takes = λ bytes w. refl;
    reports = λ piece pieces w h. (w, refl, h);
    gives = λ piece pieces w h. (record w { left = pieces }, ap (received_piece w) h, refl);
  };
  carries = λ bytes w. (
    arriving bytes,
    ap (λ (bs : List ℕ). take 2 bytes ++ bs) (append-nil (drop 2 bytes)) ∙ take-append-drop 2 bytes,
    tt,
    refl,
    ap (λ (bs : List ℕ). take 3 (reached bytes w).session.world ++ bs)
          (append-nil (drop 3 (reached bytes w).session.world))
        ∙ take-append-drop 3 (reached bytes w).session.world,
  );
  by_poll = λ timeout w. refl;
  by_recv = λ size w. session-received_piece w w.left;
}

abbrev waiting : Wire
waiting = record {
  session = answered (outbox empty_stats) (idle_handler, []) new_framer;
  left = [];
}

short_response : IsMessage (handle empty_stats idle_handler (codes "SET CRC=OFF")).0
unfolding handle text_eq take_while drop_while upper trim trim_back before_eq after_eq has_eq
    first_word first_line after_word assign
short_response = omega arith

send_command-handle_example :
    let (answer, w') =
      send_command wired 2 (record { sockfd = some 3 }) (codes "SET CRC=OFF") waiting in
    let (response, h') = handle empty_stats idle_handler (codes "SET CRC=OFF") in
    (answer ≡ some response)
    × (w'.session ≡ answered (outbox empty_stats) (h', encode response) new_framer)
send_command-handle_example =
    send_command-handle wired-Joins 2 (codes "SET CRC=OFF") [] (record { sockfd = some 3 })
      idle_handler waiting (ground arith) short_response refl refl (omega arith)
