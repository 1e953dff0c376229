-- ===== src/Session.antt =====
-- src/control_node/control_node.cpp: the loop that serves one client. The socket and the statistics,
-- which other threads change, belong to the world `W`; the calls of the system are parameters.
pub mod Answers
mod Examples
use net_node_gateway.Prelude.{ℕ, zero, suc, Bool, true, false, List, [], ◌∷◌, length, if◌then◌else◌}
use net_node_gateway.Stats.{StatsManager}
use net_node_gateway.Framer.{TcpFramer, encode, feed, has_frame, pop_frame}
use net_node_gateway.Commands.{CommandHandler, handle}

-- `send`, with whether it succeeds, and the statistics as they are now.
pub record Link {ℓ} (W : Type ℓ) : Type ℓ where
  pub send : List ℕ → W → Bool × W
  pub stats_now : W → StatsManager

pub record Session {ℓ} (W : Type ℓ) : Type ℓ where
  pub framer : TcpFramer
  pub handler : CommandHandler
  pub world : W

-- What one round finds: bytes, nothing within the time of `poll`, or a failure or the end of the
-- connection.
pub data Input : Type 0 where
  received : List ℕ → Input
  timeout hang_up : Input

module _ {ℓ} {W : Type ℓ} (k : Link W) where
  -- One command answered; the flag says whether the response was sent.
  unfoldable pub answer : Session W → Bool × Session W
  answer s =
      let (command, framer) = pop_frame s.framer in
      let (response, handler) = handle (k.stats_now s.world) s.handler command in
      let (sent, w) = k.send (encode response) s.world in
      (sent, record { framer = framer; handler = handler; world = w })

  -- The inner loop. A round takes one frame, so as many rounds as there are frames are enough.
  unfoldable pub answer_loop : ℕ → Session W → Session W
  answer_loop zero s = s
  answer_loop (suc fuel) s =
      let (sent, s') = answer s in
      let rest = answer_loop fuel s' in
      if has_frame s.framer then (if sent then rest else s') else s

  unfoldable pub serve : Session W → List ℕ → Session W
  unfolding answer_loop
  serve s bytes =
      let framer = feed s.framer bytes in
      answer_loop (length framer.ready_frames) (record s { framer = framer })

  -- The outer loop, until `should_stop_` is set behind the last input.
  unfoldable pub client_loop : Session W → List Input → Session W
  client_loop s [] = s
  client_loop s (received bytes ∷ inputs) = client_loop (serve s bytes) inputs
  client_loop s (timeout ∷ inputs) = client_loop s inputs
  client_loop s (hang_up ∷ inputs) = s
