-- ===== src/Server/Examples.antt =====
-- A server on a system that lists the open descriptors.
use net_node_gateway.Prelude.{
  ℕ, ◌+◌, ◌≡◌, ◌<◌, refl, true, false, none, some, suc, Option, List, [], ◌∷◌, arith,
}
use net_node_gateway.Sockets.{ready}
use net_node_gateway.Server.{
  Listening, Node, new_node, start, accept_round, add_client, close_client, forget_client,
  begin_stop, clear_clients, begin_joining, erase_fd, joining, serving,
}
use net_node_gateway.Server.Open.{holds, holds-erase_fd, TracksOpen, IsServing}
use net_node_gateway.Server.Reached.{
  Reaches, here, next, starts, accepts, adds, closes, forgets, tells, clears, joins, all_ended,
  Reaches-IsServing, Reaches-joining,
}

-- The state lists the descriptors that are open.
abbrev Desk : Type 0
Desk = List ℕ

abbrev sum : List ℕ → ℕ
sum [] = 0
sum (x ∷ xs) = x + sum xs

holds-above : (n : ℕ) (xs : List ℕ) → sum xs < n → holds n xs ≡ false
holds-above n [] h = refl
holds-above n (x ∷ xs) h = ground (arith, holds-above n xs)

-- A number above all that are open.
abbrev opened : Desk → Option ℕ × Desk
opened fds = (some (suc (sum fds)), suc (sum fds) ∷ fds)

abbrev desk : Listening Desk
desk = record {
  system = record {
    socket = λ kind w. opened w;
    allow_reuse = λ fd w. w;
    bind_to = λ fd port w. (true, w);
    parse_address = λ host. none;
    connect_to = λ fd address port w. (false, w);
    poll = λ fd timeout w. (ready false true, w);
    recv = λ fd size w. (none, w);
    send_bytes = λ fd bytes w. (none, w);
    close_fd = λ fd w. erase_fd fd w;
  };
  listen_on = λ fd w. (true, w);
  accept_on = λ fd w. opened w;
  shut_down = λ fd w. w;
}

desk-TracksOpen : TracksOpen desk (λ w y. holds y w)
desk-TracksOpen = record {
  by_socket = λ w. (holds-above (suc (sum w)) w (omega arith), λ y. refl);
  by_accept = λ fd w. (holds-above (suc (sum w)) w (omega arith), λ y. refl);
  by_close = λ fd w y. holds-erase_fd fd y w;
  by_reuse = λ fd w y. refl;
  by_bind = λ fd port w y. refl;
  by_listen = λ fd w y. refl;
  by_shutdown = λ fd w y. refl;
  by_poll = λ fd timeout w y. refl;
}

-- It is started and takes a client, whose thread closes its descriptor. The next client gets the same
-- number before the first thread removes it from the list, and with it the second client's.
abbrev begun : Node desk
begun = (new_node 9000, [])

abbrev taken : Node desk
taken = add_client desk 2 (accept_round desk (start desk begun).1)

abbrev given_up : Node desk
given_up = close_client desk [] 2 [] taken

abbrev again : Node desk
again = add_client desk 2 (accept_round desk given_up)

abbrev confused : Node desk
confused = forget_client desk [] 2 (record { fd = 2; phase = serving } ∷ []) again

taken-Reaches : Reaches desk begun taken
unfolding start accept_round add_client
taken-Reaches = next (next (next here (starts begun)) (accepts _ refl)) (adds _ 2 refl refl)

confused-Reaches : Reaches desk begun confused
unfolding start accept_round add_client close_client forget_client
confused-Reaches =
    next
      (next (next (next taken-Reaches (closes taken [] [] 2 refl)) (accepts given_up refl))
        (adds _ 2 refl refl))
      (forgets again [] (record { fd = 2; phase = serving } ∷ []) 2 refl refl)

-- The second client is served, but not listed.
confused_fds : (confused.0.client_fds ≡ []) × (confused.1 ≡ 2 ∷ 1 ∷ [])
unfolding start accept_round add_client close_client forget_client erase_fd
confused_fds = (refl, refl)

Reaches-IsServing_example :
    IsServing (λ y. holds y confused.1) confused.0
    × (confused.0.running ≡ false → (y : ℕ) → holds y confused.1 ≡ false)
Reaches-IsServing_example = Reaches-IsServing desk-TracksOpen 9000 [] (λ y. refl) confused-Reaches

-- `stop` has closed the only client, and waits for its thread, which then closes it as well.
abbrev waiting : Node desk
waiting = begin_joining desk (clear_clients desk (begin_stop desk taken))

abbrev later : Node desk
later = close_client desk [] 2 [] waiting

waiting-Reaches : Reaches desk begun waiting
unfolding start accept_round add_client begin_stop clear_clients begin_joining
waiting-Reaches =
    next (next (next taken-Reaches (tells taken refl refl)) (clears (begin_stop desk taken) refl))
      (joins (clear_clients desk (begin_stop desk taken)) refl refl)

later-Reaches : Reaches desk waiting later
unfolding start accept_round add_client begin_stop clear_clients begin_joining
later-Reaches = next here (closes waiting [] [] 2 refl)

waiting_state :
    (waiting.0.stage ≡ joining)
    × (waiting.0.running ≡ true)
    × (waiting.0.pending ≡ none)
    × (all_ended waiting.0.client_threads ≡ false)
unfolding start accept_round add_client begin_stop clear_clients begin_joining
waiting_state = (refl, refl, refl, refl)

Reaches-joining_example :
    (later.0.stage ≡ joining)
    × (later.0.running ≡ true)
    × (all_ended later.0.client_threads ≡ false)
Reaches-joining_example =
    Reaches-joining desk desk-TracksOpen 9000 [] (λ y. refl) waiting-Reaches waiting_state.0
      waiting_state.1 waiting_state.2 waiting_state.3 later-Reaches
