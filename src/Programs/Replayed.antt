-- ===== src/Programs/Replayed.antt =====
-- src/replay/replay_main.cpp: the program that sends a recording to a gateway.
use net_node_gateway.Prelude.{
  is_empty, ℕ, zero, suc, Bool, true, false, not, Option, none, List, [], ◌∷◌, if◌then◌else◌,
}
use net_node_gateway.Replay.{ReplayFrameSource, Speed, Received, receive, open_file, set_speed}
use net_node_gateway.Replay
use net_node_gateway.Sockets.{System, UdpFrameSink, send, connect, close_sink}
use net_node_gateway.Programs.{ReplaySettings}

abbrev pub new_source : Speed → ReplayFrameSource
new_source speed = record {
  file = record { is_open = false; good = true; rest = [] };
  speed_multiplier = speed;
  frames_replayed = 0;
  done = false;
  first_frame = true;
  first_frame_ts_ns = 0;
  replay_start_time = 0;
}

abbrev pub no_sink : UdpFrameSink
no_sink = record { sockfd = none }

module _ {ℓ} {W : Type ℓ} (k : System W) where
  -- `sink.send(buf)`, unless the run is a dry one; what that prints is left out.
  abbrev pub pass_on : Bool → UdpFrameSink → List ℕ → W → W
  pass_on dry_run sink buf w = if dry_run then w else (send k sink buf w).1

  -- The loop, with the clock that each call of `receive` reads.
  unfoldable pub replay_loop :
      ℕ → (ℕ → ℕ) → Bool → UdpFrameSink → ReplayFrameSource → W → ReplayFrameSource × W
  unfolding send
  replay_loop zero clock dry_run sink s w = (s, w)
  replay_loop (suc fuel) clock dry_run sink s w =
      let (r, s') = receive s (clock fuel) in
      let rest = replay_loop fuel clock dry_run sink s' (pass_on dry_run sink r.buf w) in
      if s.done then (s, w) else if not r.found then (s', w) else rest

  -- The loop and what follows it, with status 0.
  unfoldable pub play :
      Bool → UdpFrameSink → ReplayFrameSource → ℕ → (ℕ → ℕ) → W → ℕ × (ReplayFrameSource × W)
  unfolding replay_loop close_sink
  play dry_run sink source fuel clock w =
      let (source', w') = replay_loop fuel clock dry_run sink source w in
      (0, (Replay.close source', if dry_run then w' else (close_sink k sink w').1))

  -- `main` on its settings; the second flag is that of an empty path.
  unfoldable pub replay_with :
      Speed
      → Bool
      → Bool
      → List ℕ
      → ℕ
      → Option (List ℕ)
      → ℕ
      → (ℕ → ℕ)
      → W
      → ℕ × (ReplayFrameSource × W)
  unfolding play open_file set_speed connect
  replay_with speed dry_run no_path host port file fuel clock w =
      let (opened, ok) = open_file (new_source speed) file in
      let source = set_speed opened speed in
      let (connected, (sink, w')) =
        if dry_run then (true, (no_sink, w)) else connect k no_sink host port w in
      if no_path
      then (1, (new_source speed, w))
      else if not ok
      then (1, (opened, w))
      else if not connected
      then (1, (source, w'))
      else play dry_run sink source fuel clock w'

  -- `file` is what the system finds under the path, and `speed` gives the multiplier.
  unfoldable pub replay_main :
      {D : Type 0}
      → (D → Speed)
      → ReplaySettings D
      → Option (List ℕ)
      → ℕ
      → (ℕ → ℕ)
      → W
      → ℕ × (ReplayFrameSource × W)
  unfolding replay_with
  replay_main speed s file fuel clock w =
      replay_with (speed s.speed) s.dry_run (is_empty s.file_path) s.host s.port file fuel clock w

  -- The frames of a list, sent one after the other.
  abbrev pub send_each : Bool → UdpFrameSink → List (List ℕ) → W → W
  send_each dry_run sink [] w = w
  send_each dry_run sink (frame ∷ frames) w =
      send_each dry_run sink frames (pass_on dry_run sink frame w)
