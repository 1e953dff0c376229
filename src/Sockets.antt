-- ===== src/Sockets.antt =====
-- src/gateway/udp_socket.cpp and udp_socket.h: the socket that a gateway receives from, and the one
-- that frames are sent over. The calls of the operating system are parameters on its state `W`.
pub mod Held
pub mod Descriptors
mod Examples
use net_node_gateway.Prelude.{
  is_empty, ℕ, ◌<◌, Bool, true, false, Option, none, some, List, [], ◌∷◌, length, ◌==◌, not, ◌||◌,
  if◌then◌else◌,
}
use net_node_gateway.Gateway.Source.{FrameSource}
use net_node_gateway.Simulator.Run.{Sink}

pub data Kind : Type 0 where
  datagram stream : Kind

-- What `poll` finds on one descriptor: nothing in time or a failure, or else the bits of `revents`:
-- one of POLLERR, POLLHUP and POLLNVAL, and POLLIN.
pub data Events : Type 0 where
  nothing : Events
  ready : Bool → Bool → Events

-- A call that fails gives `none` or `false`; a descriptor is a number. `parse_address` is `inet_pton`.
-- `recv` gives `none` for no bytes as well.
pub record System {ℓ} (W : Type ℓ) : Type ℓ where
  pub socket : Kind → W → Option ℕ × W
  pub allow_reuse : ℕ → W → W
  pub bind_to : ℕ → ℕ → W → Bool × W
  pub parse_address : List ℕ → Option ℕ
  pub connect_to : ℕ → ℕ → ℕ → W → Bool × W
  pub poll : ℕ → ℕ → W → Events × W
  pub recv : ℕ → ℕ → W → Option (List ℕ) × W
  pub send_bytes : ℕ → List ℕ → W → Option ℕ × W
  pub close_fd : ℕ → W → W

pub record UdpFrameSource : Type 0 where
  pub sockfd : Option ℕ
  pub timeout_ms : ℕ

pub record UdpFrameSink : Type 0 where
  pub sockfd : Option ℕ

module _ {ℓ} {W : Type ℓ} (k : System W) where
  -- `close` of each class: the world it leaves. The descriptor is then -1.
  unfoldable pub release : Option ℕ → W → W
  release none w = w
  release (some fd) w = k.close_fd fd w

  -- A descriptor is kept if the last call on it went well, and closed otherwise.
  abbrev pub keep_or_close : ℕ → Bool × W → Option ℕ × W
  keep_or_close fd (true, w) = (some fd, w)
  keep_or_close fd (false, w) = (none, k.close_fd fd w)

  abbrev pub bind_fd : ℕ → Option ℕ × W → Option ℕ × W
  bind_fd port (none, w) = (none, w)
  bind_fd port (some fd, w) = keep_or_close fd (k.bind_to fd port (k.allow_reuse fd w))

  -- `socket`, `setsockopt` and `bind`: the descriptor, if all went well.
  unfoldable pub open_bound : ℕ → W → Option ℕ × W
  open_bound port w = bind_fd port (k.socket datagram w)

  abbrev pub connect_fd : Option ℕ → ℕ → Option ℕ × W → Option ℕ × W
  connect_fd address port (none, w) = (none, w)
  connect_fd none port (some fd, w) = (none, k.close_fd fd w)
  connect_fd (some address) port (some fd, w) = keep_or_close fd (k.connect_to fd address port w)

  -- `socket`, `inet_pton` and `connect`
  unfoldable pub open_connected : Kind → List ℕ → ℕ → W → Option ℕ × W
  open_connected kind host port w = connect_fd (k.parse_address host) port (k.socket kind w)

  abbrev pub is_open : Option ℕ → Bool
  is_open none = false
  is_open (some fd) = true

  unfoldable pub bind : UdpFrameSource → ℕ → W → Bool × (UdpFrameSource × W)
  unfolding release open_bound
  bind s port w =
      let (sockfd, w') = open_bound port (release s.sockfd w) in
      (is_open sockfd, (record s { sockfd = sockfd }, w'))

  abbrev pub receive_on : ℕ → Events × W → Option (List ℕ) × W
  receive_on fd (nothing, w) = (none, w)
  receive_on fd (ready bad false, w) = (none, w)
  receive_on fd (ready bad true, w) = k.recv fd 65536 w

  abbrev pub receive_from : Option ℕ → ℕ → W → Option (List ℕ) × W
  receive_from none timeout w = (none, w)
  receive_from (some fd) timeout w = receive_on fd (k.poll fd timeout w)

  -- A failure gives `none`.
  unfoldable pub receive : UdpFrameSource → W → Option (List ℕ) × W
  receive s w = receive_from s.sockfd s.timeout_ms w

  unfoldable pub close_source : UdpFrameSource → W → UdpFrameSource × W
  unfolding release
  close_source s w = (record s { sockfd = none }, release s.sockfd w)

  unfoldable pub connect : UdpFrameSink → List ℕ → ℕ → W → Bool × (UdpFrameSink × W)
  unfolding release open_connected
  connect s host port w =
      let (sockfd, w') = open_connected datagram host port (release s.sockfd w) in
      (is_open sockfd, (record s { sockfd = sockfd }, w'))

  -- `n == buf.size()`
  abbrev pub all_sent : Option ℕ → List ℕ → Bool
  all_sent none buf = false
  all_sent (some n) buf = n == length buf

  abbrev pub send_over : Option ℕ → List ℕ → W → Bool × W
  send_over none buf w = (false, w)
  send_over (some fd) buf w =
      let (sent, w') = k.send_bytes fd buf w in
      if is_empty buf then (false, w) else (all_sent sent buf, w')

  unfoldable pub send : UdpFrameSink → List ℕ → W → Bool × W
  send s buf w = send_over s.sockfd buf w

  unfoldable pub close_sink : UdpFrameSink → W → UdpFrameSink × W
  unfolding release
  close_sink s w = (record s { sockfd = none }, release s.sockfd w)

  -- The source of `Gateway::run` over a socket: its state is the system's.
  abbrev pub udp_source : UdpFrameSource → FrameSource W
  udp_source s = record { receive = receive s; is_done = λ w. false }

  -- The sink of the simulator over a socket, with the clock and the flag of its own.
  abbrev pub udp_sink : UdpFrameSink → (W → Bool) → (W → W) → Sink W
  udp_sink s shutdown pause = record { send = send s; shutdown = shutdown; pause = pause }

abbrev pub set_timeout_ms : UdpFrameSource → ℕ → UdpFrameSource
set_timeout_ms s ms = record s { timeout_ms = ms }
