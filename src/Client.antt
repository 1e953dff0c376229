-- ===== src/Client.antt =====
-- src/cli/cli_client.cpp and cli_client.h: the client of the control node, over the calls of the
-- operating system that Sockets names.
pub mod Response
pub mod Exchange
mod Examples
use net_node_gateway.Prelude.{
  ℕ, zero, suc, Bool, true, false, Option, none, some, List, [], ◌∷◌, length, ◌==◌, if◌then◌else◌,
}
use net_node_gateway.Framer.{TcpFramer, new_framer, encode, feed, has_frame, pop_frame}
use net_node_gateway.Sockets.{
  System, stream, Events, nothing, ready, release, open_connected, is_open, all_sent,
}

pub record CliClient : Type 0 where
  pub sockfd : Option ℕ

-- What a round of the loop that waits comes to.
pub data Round : Type 0 where
  gives_up again : Round
  fed : TcpFramer → Round

module _ {ℓ} {W : Type ℓ} (k : System W) where
  unfoldable pub connect : CliClient → List ℕ → ℕ → W → Bool × (CliClient × W)
  unfolding release open_connected
  connect c host port w =
      let (sockfd, w') = open_connected k stream host port (release k c.sockfd w) in
      (is_open k sockfd, (record c { sockfd = sockfd }, w'))

  abbrev pub taken_in : TcpFramer → Option (List ℕ) × W → Round × W
  taken_in framer (none, w) = (gives_up, w)
  taken_in framer (some bytes, w) = (fed (feed framer bytes), w)

  abbrev pub on_events : ℕ → TcpFramer → Events × W → Round × W
  on_events fd framer (nothing, w) = (gives_up, w)
  on_events fd framer (ready true input, w) = (gives_up, w)
  on_events fd framer (ready false false, w) = (again, w)
  on_events fd framer (ready false true, w) = taken_in framer (k.recv fd 4096 w)

  abbrev pub after_round :
      (TcpFramer → W → Option (List ℕ) × W) → TcpFramer → Round × W → Option (List ℕ) × W
  after_round go framer (gives_up, w) = (some [], w)
  after_round go framer (again, w) = go framer w
  after_round go framer (fed framer', w) = go framer' w

  -- The loop that waits for a frame; `none` is a loop that still waits when the fuel is used up.
  unfoldable pub await : ℕ → ℕ → TcpFramer → W → Option (List ℕ) × W
  await zero fd framer w = if has_frame framer then (some (pop_frame framer).0, w) else (none, w)
  await (suc fuel) fd framer w =
      if has_frame framer
      then (some (pop_frame framer).0, w)
      else after_round (await fuel fd) framer (on_events fd framer (k.poll fd 5000 w))

  abbrev pub command_over : ℕ → Option ℕ → List ℕ → W → Option (List ℕ) × W
  command_over fuel none cmd w = (some [], w)
  command_over fuel (some fd) cmd w =
      let (sent, w') = k.send_bytes fd (encode cmd) w in
      if all_sent k sent (encode cmd) then await fuel fd new_framer w' else (some [], w')

  -- The empty text is the answer whenever something fails.
  unfoldable pub send_command : ℕ → CliClient → List ℕ → W → Option (List ℕ) × W
  unfolding await
  send_command fuel c cmd w = command_over fuel c.sockfd cmd w

  unfoldable pub close : CliClient → W → CliClient × W
  unfolding release
  close c w = (record c { sockfd = none }, release k c.sockfd w)
