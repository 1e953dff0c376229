-- ===== src/Server.antt =====
-- src/control_node/control_node.cpp and control_node.h: the server that accepts clients. The threads of
-- the clients (Session), the thread that accepts and a caller of `stop` run beside each other: each does
-- its work in the steps that are functions below, of which those that hold the mutex are one.
pub mod Open
pub mod Reached
mod Examples
use net_node_gateway.Prelude.{
  ℕ, Bool, true, false, not, Option, none, some, List, [], ◌∷◌, ◌++◌, ◌==◌, if◌then◌else◌,
}
use net_node_gateway.Sockets.{System, Events, nothing, ready, stream}

-- The calls of a server besides those of `System`.
pub record Listening {ℓ} (W : Type ℓ) : Type ℓ where
  pub system : System W
  pub listen_on : ℕ → W → Bool × W
  pub accept_on : ℕ → W → Option ℕ × W
  pub shut_down : ℕ → W → W

-- A thread serves its client, has closed the descriptor, or has removed it from the list as well and
-- ended.
pub data Phase : Type 0 where
  serving closed ended : Phase

pub record ClientThread : Type 0 where
  pub fd : ℕ
  pub phase : Phase

-- How far a call of `stop` is: none runs, it has closed the listener, it has closed the clients, or it
-- holds the mutex and waits for the threads of the clients.
pub data Stage : Type 0 where
  not_called listener_closed clients_closed joining : Stage

-- `pending` is the descriptor that the accepting thread has got from `accept` and not stored yet.
pub record ControlNode : Type 0 where
  pub port : ℕ
  pub listen_fd : Option ℕ
  pub running : Bool
  pub should_stop : Bool
  pub pending : Option ℕ
  pub client_threads : List ClientThread
  pub client_fds : List ℕ
  pub stage : Stage

abbrev pub new_node : ℕ → ControlNode
new_node port = record {
  port = port;
  listen_fd = none;
  running = false;
  should_stop = false;
  pending = none;
  client_threads = [];
  client_fds = [];
  stage = not_called;
}

-- `erase` with `remove`
unfoldable pub erase_fd : ℕ → List ℕ → List ℕ
erase_fd fd [] = []
erase_fd fd (x ∷ xs) = let rest = erase_fd fd xs in if x == fd then rest else x ∷ rest

module _ {ℓ} {W : Type ℓ} (k : Listening W) where
  abbrev pub Node : Type ℓ
  Node = ControlNode × W

  -- `start` fails: the descriptor is closed, and -1.
  abbrev pub give_up : ℕ → Node → Bool × Node
  give_up fd (node, w) = (false, (record node { listen_fd = none }, k.system.close_fd fd w))

  abbrev pub begin_listening : ℕ → ControlNode → Bool × W → Bool × Node
  begin_listening fd node (false, w) = give_up fd (node, w)
  begin_listening fd node (true, w) =
      (true, (record node { listen_fd = some fd; should_stop = false; running = true }, w))

  abbrev pub listen_bound : ℕ → ControlNode → Bool × W → Bool × Node
  listen_bound fd node (false, w) = give_up fd (node, w)
  listen_bound fd node (true, w) = begin_listening fd node (k.listen_on fd w)

  abbrev pub start_socket : ControlNode → Option ℕ × W → Bool × Node
  start_socket node (none, w) = (false, (record node { listen_fd = none }, w))
  start_socket node (some fd, w) =
      listen_bound fd node (k.system.bind_to fd node.port (k.system.allow_reuse fd w))

  unfoldable pub start : Node → Bool × Node
  start (node, w) =
      if node.running then (true, (node, w)) else start_socket node (k.system.socket stream w)

  abbrev pub accepted : ControlNode → Option ℕ × W → Node
  accepted node (client_fd, w) = (record node { pending = client_fd }, w)

  abbrev pub on_listen : ℕ → ControlNode → Events × W → Node
  on_listen fd node (nothing, w) = (node, w)
  on_listen fd node (ready bad false, w) = (node, w)
  on_listen fd node (ready bad true, w) = accepted node (k.accept_on fd w)

  abbrev pub accept_from : Option ℕ → Node → Node
  accept_from none (node, w) = (node, w)
  accept_from (some fd) (node, w) = on_listen fd node (k.system.poll fd 100 w)

  -- A round of `accept_loop` up to `accept`.
  unfoldable pub accept_round : Node → Node
  accept_round (node, w) =
      if node.should_stop then (node, w) else accept_from node.listen_fd (node, w)

  -- The end of the round, which holds the mutex.
  unfoldable pub add_client : ℕ → Node → Node
  add_client client_fd (node, w) = (
    record node {
      pending = none;
      client_fds = node.client_fds ++ client_fd ∷ [];
      client_threads = node.client_threads ++ record { fd = client_fd; phase = serving } ∷ [];
    },
    w,
  )

  -- What `client_loop` does behind its loop, in the thread between the others: it closes the descriptor,
  unfoldable pub close_client : List ClientThread → ℕ → List ClientThread → Node → Node
  close_client before fd after (node, w) = (
    record node { client_threads = before ++ record { fd = fd; phase = closed } ∷ after },
    k.system.close_fd fd w,
  )

  -- and then, with the mutex, removes it from the list.
  unfoldable pub forget_client : List ClientThread → ℕ → List ClientThread → Node → Node
  unfolding erase_fd
  forget_client before fd after (node, w) = (
    record node {
      client_threads = before ++ record { fd = fd; phase = ended } ∷ after;
      client_fds = erase_fd fd node.client_fds;
    },
    w,
  )

  -- `shutdown` and `close`
  abbrev pub cut_off : ℕ → W → W
  cut_off fd w = k.system.close_fd fd (k.shut_down fd w)

  abbrev pub close_listener : Option ℕ → W → W
  close_listener none w = w
  close_listener (some fd) w = cut_off fd w

  unfoldable pub close_clients : List ℕ → W → W
  close_clients [] w = w
  close_clients (fd ∷ fds) w = close_clients fds (cut_off fd w)

  -- `stop` of a server that runs, up to the mutex.
  unfoldable pub begin_stop : Node → Node
  begin_stop (node, w) = (
    record node { should_stop = true; listen_fd = none; stage = listener_closed },
    close_listener node.listen_fd w,
  )

  -- "Close all client sockets", with the mutex.
  unfoldable pub clear_clients : Node → Node
  unfolding close_clients
  clear_clients (node, w) =
      (record node { client_fds = []; stage = clients_closed }, close_clients node.client_fds w)

  -- The accepting thread is joined, and the mutex taken.
  unfoldable pub begin_joining : Node → Node
  begin_joining (node, w) = (record node { stage = joining }, w)

  -- Every thread is joined.
  unfoldable pub finish_stop : Node → Node
  finish_stop (node, w) =
      (record node { client_threads = []; running = false; stage = not_called }, w)
