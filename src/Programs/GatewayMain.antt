-- ===== src/Programs/GatewayMain.antt =====
-- src/gateway/gateway_main.cpp: the program around the gateway, from its arguments to its status and
-- what it prints. A signal calls `stop`: it is the end of the number of rounds that the loop is given.
pub mod Recording
use mathlib.Core.Option
use net_node_gateway.Prelude.{
  is_empty, ℕ, Bool, true, false, ◌&&◌, Option, none, some, List, [], ◌∷◌, ◌++◌, if◌then◌else◌,
}
use net_node_gateway.Prelude.Text.{codes, decimal}
use net_node_gateway.Stats.{GlobalStats, get_global_stats}
use net_node_gateway.Logger.{Logger, new_logger, set_output}
use net_node_gateway.Replay.{ReplayFrameSource, Speed, open_file, set_speed}
use net_node_gateway.Gateway.{Outside, Gateway, new_gateway}
use net_node_gateway.Gateway.Config.{GatewayConfig, default_config}
use net_node_gateway.Gateway.Source.{FrameSource, replay_source, run}
use net_node_gateway.Sockets.{System, UdpFrameSource, bind, receive, set_timeout_ms}
use net_node_gateway.Programs.{Parsed, parsed, exits, throws, gateway_options}
use net_node_gateway.Programs.Replayed.{new_source}

abbrev line : List ℕ → List ℕ
line text = text ++ 10 ∷ []

abbrev number_line : List ℕ → ℕ → List ℕ
number_line name n = line (name ++ decimal n)

-- What is printed before `run`.
unfoldable pub banner : GatewayConfig → List ℕ
banner config =
    number_line (codes "Starting gateway on UDP port ") config.udp_port
    ++ ((if config.record_enabled then line (codes "Recording to: " ++ config.record_path) else [])
        ++ ((if is_empty config.replay_path
              then []
              else line (codes "Replaying from: " ++ config.replay_path))
            ++ (line (
                  codes "CRC validation: "
                  ++ (if config.crc_enabled then codes "enabled" else codes "disabled"))
                ++ line (line (codes "Press Ctrl+C to stop.")))))

unfoldable pub final_statistics : GlobalStats → List ℕ
final_statistics stats =
    line (10 ∷ codes "=== Final Statistics ===")
    ++ (number_line (codes "Frames received: ") stats.rx_total
        ++ (number_line (codes "Malformed:       ") stats.malformed_total
            ++ (number_line (codes "CRC failures:    ") stats.crc_fail_total
                ++ (number_line (codes "Sequence gaps:   ") stats.gap_total
                    ++ (number_line (codes "Reorders:        ") stats.reorder_total
                        ++ number_line (codes "Duplicates:      ") stats.duplicate_total)))))

-- The source that `run` makes: a recording, or a socket over the system's state `V`.
pub data Source {ℓ} (V : Type ℓ) : Type ℓ where
  recording : ReplayFrameSource → Source V
  socket : UdpFrameSource → V → Source V

-- `set_speed(0.0)`
abbrev pub at_once : Speed
at_once = record { positive = false; divide = λ d. d }

abbrev new_socket : UdpFrameSource
new_socket = record { sockfd = none; timeout_ms = 100 }

-- How the program ends: with an exception that nothing catches, with the status of an early `return`
-- (and its usage on the error stream), or with status 0 behind the run of a gateway, and what has been
-- printed.
pub data Ended {ℓ} (W : Type ℓ) : Type ℓ where
  uncaught : Ended W
  returned : ℕ → Ended W
  finished : Gateway W → List ℕ → Ended W

-- What has been written to the stream of a logger.
abbrev pub written : Logger → List ℕ
written l = written_to l.out
  where
    written_to : Option (List ℕ) → List ℕ
    written_to none = []
    written_to (some text) = text

-- The text that is logged where the source does not open.
abbrev pub failure : GatewayConfig → List ℕ
failure config =
    if is_empty config.replay_path
    then codes "Failed to bind UDP port " ++ decimal config.udp_port
    else codes "Failed to open replay file: " ++ config.replay_path

module _ {ℓ κ} {W : Type ℓ} {V : Type κ} (o : Outside W) (k : System V) where
  abbrev pub receive_either : Source V → Option (List ℕ) × Source V
  receive_either (recording s) = let (frame, s') = replay_source.receive s in (frame, recording s')
  receive_either (socket s v) = let (frame, v') = receive k s v in (frame, socket s v')

  -- The `dynamic_cast` finds a recording only.
  abbrev pub is_done : Source V → Bool
  is_done (recording s) = s.done
  is_done (socket s v) = false

  abbrev pub either_source : FrameSource (Source V)
  either_source = record { receive = receive_either; is_done = is_done }

  abbrev pub opened : ReplayFrameSource × Bool → Option (Source V)
  opened (s, true) = some (recording (set_speed s at_once))
  opened (s, false) = none

  abbrev pub bound : Bool × (UdpFrameSource × V) → Option (Source V)
  bound (true, (s, v)) = some (socket (set_timeout_ms s 100) v)
  bound (false, (s, v)) = none

  -- `file` is what the system finds under the path of the recording. The speed of a new source is
  -- replaced before anything reads it.
  unfoldable pub make_source : GatewayConfig → Option (List ℕ) → V → Option (Source V)
  unfolding open_file bind
  make_source config file v =
      if is_empty config.replay_path
      then bound (bind k new_socket config.udp_port v)
      else opened (open_file (new_source at_once) file)

  -- The source once the recorder has opened its file: a file that is opened for writing is emptied, and if
  -- it is the one that is replayed, of which nothing has been read yet, nothing is left to read.
  abbrev pub truncated : Bool → Source V → Source V
  truncated false s = s
  truncated true (recording s) = recording (record s { file = record s.file { rest = [] } })
  truncated true (socket s v) = socket s v

  -- `can_open` and `room` are what the system gives to the recorder, `same_file` is whether it finds one
  -- file under both paths, and `rounds` is how often the loop finds that nobody has called `stop`.
  unfoldable pub run_gateway :
      ℕ → Bool → Bool → ℕ → Option (List ℕ) → GatewayConfig → Logger → W → V → Gateway W
  unfolding make_source run
  run_gateway rounds can_open same_file room file config logger w v =
      run o either_source rounds (failure config) can_open room (new_gateway config logger w) (
        Option.map (truncated (config.record_enabled && can_open && same_file))
          (make_source config file v))

  -- `main`, behind its options. The stream of the logger is the standard output: the lines of the log
  -- stand behind the banner, and the final statistics behind them.
  abbrev pub started :
      ℕ → Bool → Bool → ℕ → Option (List ℕ) → W → V → Parsed GatewayConfig → Ended W
  started rounds can_open same_file room file w v throws = uncaught
  started rounds can_open same_file room file w v (exits status) = returned status
  started rounds can_open same_file room file w v (parsed config) =
      let logger = set_output new_logger (banner config) in
      let g = run_gateway rounds can_open same_file room file config logger w v in
      finished g (written g.logger ++ final_statistics (get_global_stats g.stats))

  unfoldable pub gateway_main :
      (List ℕ → Option ℕ) → ℕ → Bool → Bool → ℕ → Option (List ℕ) → W → V → List (List ℕ) → Ended W
  unfolding run_gateway gateway_options set_output
  gateway_main stoi rounds can_open same_file room file w v args =
      started rounds can_open same_file room file w v (gateway_options stoi args default_config)
