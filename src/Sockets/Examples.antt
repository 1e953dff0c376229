-- ===== src/Sockets/Examples.antt =====
-- A system that lists its open descriptors.
use net_node_gateway.Prelude.{
  ℕ, ◌+◌, ◌≤◌, ◌≡◌, refl, Bool, true, false, not, ◌&&◌, ◌||◌, none, some, List, [], ◌∷◌, arith,
  length, ◌==◌, if◌then◌else◌,
}
use net_node_gateway.Sockets.{System, ready}
use net_node_gateway.Sockets.Held.{TracksSockets}
use net_node_gateway.Sockets.Descriptors.{
  bind_source, receive_one, connect_sink, send_one, close_the_sink, Pair, perform_all, HoldsBoth,
  perform_all-HoldsBoth,
}

abbrev has : List ℕ → ℕ → Bool
has [] y = false
has (x ∷ xs) y = y == x || has xs y

abbrev without : ℕ → List ℕ → List ℕ
without fd [] = []
without fd (x ∷ xs) = let rest = without fd xs in if x == fd then rest else x ∷ rest

-- a number above all of a list
abbrev fresh : List ℕ → ℕ
fresh [] = 3
fresh (x ∷ xs) = x + 1 + fresh xs

has-without : (fd : ℕ) (xs : List ℕ) (y : ℕ) → has (without fd xs) y ≡ (not (y == fd) && has xs y)
has-without fd [] y = ground arith
has-without fd (x ∷ xs) y = ground (arith, has-without fd xs y)

has-above : (xs : List ℕ) (y : ℕ) → fresh xs ≤ y → has xs y ≡ false
has-above [] y h = refl
has-above (x ∷ xs) y h = ground (arith, has-above xs y (omega arith))

-- Port 80 is taken, and no address is one.
abbrev listing : System (List ℕ)
listing = record {
  socket = λ kind fds. (some (fresh fds), fresh fds ∷ fds);
  allow_reuse = λ fd fds. fds;
  bind_to = λ fd port fds. (if port == 80 then false else true, fds);
  parse_address = λ host. none;
  connect_to = λ fd address port fds. (true, fds);
  poll = λ fd timeout fds. (ready false true, fds);
  recv = λ fd size fds. (some (1 ∷ []), fds);
  send_bytes = λ fd bytes fds. (some (length bytes), fds);
  close_fd = λ fd fds. without fd fds;
}

listing-TracksSockets : TracksSockets listing has
listing-TracksSockets = record {
  by_socket = λ kind fds. (has-above fds (fresh fds) (omega arith), λ y. refl);
  by_reuse = λ fd fds y. refl;
  by_bind = λ fd port fds y. refl;
  by_connect = λ fd address port fds y. refl;
  by_poll = λ fd timeout fds y. refl;
  by_recv = λ fd size fds y. refl;
  by_send = λ fd bytes fds y. refl;
  by_close = λ fd fds y. has-without fd fds y;
}

-- The source holds 3, and 0 and 7 are open besides.
abbrev start : Pair (List ℕ)
start = record {
  source = record { sockfd = some 3; timeout_ms = 100 };
  sink = record { sockfd = none };
  world = 3 ∷ 0 ∷ 7 ∷ [];
}

start-HoldsBoth : HoldsBoth listing has (has (0 ∷ 7 ∷ [])) start
start-HoldsBoth = record {
  exact = λ y. ground arith;
  source_apart = λ y e. ground arith;
  sink_apart = λ y e. absurd cc;
}

perform_all-HoldsBoth_example : HoldsBoth listing has (has (0 ∷ 7 ∷ [])) (
    perform_all listing
      (bind_source 80
        ∷ bind_source 81
        ∷ receive_one
        ∷ connect_sink [] 9
        ∷ send_one (1 ∷ [])
        ∷ close_the_sink
        ∷ [])
      start)
perform_all-HoldsBoth_example =
    perform_all-HoldsBoth listing listing-TracksSockets
      (bind_source 80
        ∷ bind_source 81
        ∷ receive_one
        ∷ connect_sink [] 9
        ∷ send_one (1 ∷ [])
        ∷ close_the_sink
        ∷ [])
      (has (0 ∷ 7 ∷ [])) start start-HoldsBoth
