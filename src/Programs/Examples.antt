-- ===== src/Programs/Examples.antt =====
-- The options of a gateway, and a recording of two frames that is sent.
use net_node_gateway.Prelude.{
  ℕ, ◌≡◌, refl, true, false, Option, none, some, List, [], ◌∷◌, ◌++◌, map, length, arith,
}
use net_node_gateway.Prelude.{◌+◌, ◌≤◌}
use net_node_gateway.Prelude.Text.{codes}
use net_node_gateway.Tracker.{empty_tracker}
use net_node_gateway.Stats.{empty_stats, get_global_stats}
use net_node_gateway.Gateway.{Outside, Gateway}
use net_node_gateway.Programs.GatewayMain.{finished, written, final_statistics, gateway_main}
use net_node_gateway.Programs.GatewayMain.Recording.{gateway_main-recording}
use net_node_gateway.Programs.GatewayMain.Recording.Steps.{stats_after, timed}
use net_node_gateway.Types.{debug}
use net_node_gateway.Gateway.Config.{GatewayConfig, default_config}
use net_node_gateway.Recorder.Behaviour.{entries}
use net_node_gateway.Replay.{Speed}
use net_node_gateway.Replay.Drain.{IsCut}
use net_node_gateway.Prelude.Pack.{pack_word}
use net_node_gateway.Sockets.{System, ready}
use net_node_gateway.Programs.{exits, gateway_options, ReplaySettings}
use net_node_gateway.Programs.Options.{arguments}

stoi : List ℕ → Option ℕ
stoi [] = none
stoi (c ∷ cs) = some 6000

abbrev config : GatewayConfig
config = record {
  udp_port = 6000;
  crc_enabled = false;
  record_enabled = true;
  record_path = codes "session.bin";
  replay_path = codes "--crc";
  log_level = debug;
}

read : stoi (codes "6000") ≡ some 6000
unfolding stoi
read = refl

-- An option without its value is an unknown one.
no_value : gateway_options stoi (codes "--crc" ∷ codes "--port" ∷ []) default_config ≡ exits 1
unfolding gateway_options
no_value = refl

-- A system that keeps what is sent.
abbrev keeping : System (List (List ℕ))
keeping = record {
  socket = λ kind w. (some 3, w);
  allow_reuse = λ fd w. w;
  bind_to = λ fd port w. (true, w);
  parse_address = λ host. some 0;
  connect_to = λ fd address port w. (true, w);
  poll = λ fd timeout w. (ready false true, w);
  recv = λ fd size w. (none, w);
  send_bytes = λ fd bytes w. (some (length bytes), w ++ bytes ∷ []);
  close_fd = λ fd w. w;
}

abbrev settings : ReplaySettings ℕ
settings = record { file_path = codes "a"; speed = 0; host = []; port = 5000; dry_run = false }

abbrev at_once : ℕ → Speed
at_once n = record { positive = false; divide = λ d. d }

abbrev recorded : List (ℕ × List ℕ)
recorded = (1000, 1 ∷ 2 ∷ 3 ∷ []) ∷ (2000, 4 ∷ []) ∷ []

nothing-IsCut : IsCut []
unfolding pack_word
nothing-IsCut =
    (0, [], 0, 0 ∷ 0 ∷ 0 ∷ 0 ∷ 0 ∷ 0 ∷ 0 ∷ 0 ∷ 0 ∷ 0 ∷ 0 ∷ [], (omega arith, omega arith), refl)

-- A world that counts the readings of its clocks, with callbacks that do nothing.
abbrev counting : Outside ℕ
counting = record {
  wall_now = λ n. (record { date = codes "2025-07-15T12:00:00"; ms = 0 }, n + 1);
  steady_now = λ n. (n, n + 1);
  invoke = λ cb event st. st;
}

gateway_main-recording_example :
    (g : Gateway ℕ) × (arrived : List (List ℕ × ℕ)) × (map (λ a. a.0) arrived
      ≡ map (λ f. f.1) recorded)
    × (gateway_main counting keeping stoi 3 true false 100
          (some (entries recorded ++ []))
          0
          []
          (arguments (codes "6000") config)
        ≡ finished g (written g.logger ++ final_statistics (get_global_stats g.stats)))
    × (g.stats ≡ stats_after false empty_tracker empty_stats arrived)
    × (config.record_enabled ≡ true
        → true ≡ true
        → length (entries (timed arrived)) ≤ 100
        → g.recorder.file.bytes ≡ entries (timed arrived))
gateway_main-recording_example =
    gateway_main-recording counting keeping stoi (codes "6000") config recorded [] 3 true false 100
      0 [] read (omega arith) (λ e. absurd (cc e)) refl (λ e. refl) (ground arith) nothing-IsCut
      (omega arith)
