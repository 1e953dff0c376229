-- ===== src/Gateway/Examples.antt =====
-- A gateway on a few frames.
use net_node_gateway.Prelude.{
  ℕ, ◌+◌, ◌≤◌, ◌≡◌, refl, true, false, some, List, [], ◌∷◌, ◌++◌, map, arith,
}
use net_node_gateway.Prelude.Text.{codes}
use net_node_gateway.Prelude.Pack.{pack_word}
use net_node_gateway.Types.{debug}
use net_node_gateway.Stats.{get_global_stats}
use net_node_gateway.Recorder.Behaviour.{entries}
use net_node_gateway.Replay.{ReplayFrameSource, open_file}
use net_node_gateway.Replay.Drain.{IsCut}
use net_node_gateway.Gateway.{new_gateway, Outside, Gateway, process_frame, process_all}
use net_node_gateway.Logger.{new_logger}
use net_node_gateway.Gateway.Config.{default_config}
use net_node_gateway.Gateway.Core.{core}
use net_node_gateway.Gateway.Accounting.{process_all-accounting}
use net_node_gateway.Gateway.Damage.{process_frame-damaged}
use net_node_gateway.Protocol.{deserialize_header}
use net_node_gateway.Protocol.Layout.{load}
use net_node_gateway.Prelude.Pack.{unpack, unpack_word}
use net_node_gateway.Crc32.{crc32, crc_byte, table, fill_table}
use net_node_gateway.Parser.{parse_frame}
use net_node_gateway.Stats.{add_u64}
use net_node_gateway.Gateway.Source.{replay_source, run_loop}
use net_node_gateway.Gateway.Drained.{core_steps, run_loop-recording}

-- A world that counts the readings of its clocks, with callbacks that do nothing.
abbrev counting : Outside ℕ
counting = record {
  wall_now = λ n. (record { date = codes "2025-07-15T12:00:00"; ms = 0 }, n + 1);
  steady_now = λ n. (n, n + 1);
  invoke = λ cb event st. st;
}

abbrev gateway : Gateway ℕ
gateway =
    new_gateway (record default_config { crc_enabled = false; log_level = debug }) new_logger 0

-- a heartbeat header with no payload, source 7 and number 300
abbrev small_frame : List ℕ
small_frame = 1 ∷ 3 ∷ 7 ∷ 0 ∷ 44 ∷ 1 ∷ 0 ∷ 0 ∷ 5 ∷ 0 ∷ 0 ∷ 0 ∷ 0 ∷ 0 ∷ 0 ∷ 0 ∷ 0 ∷ 0 ∷ []

abbrev arrivals : List (List ℕ × ℕ)
arrivals = (small_frame, 10) ∷ (1 ∷ 2 ∷ [], 11) ∷ (small_frame, 12) ∷ []

process_all-accounting_example :
    let s = get_global_stats (process_all counting gateway arrivals).stats in
    (s.rx_total + s.malformed_total ≡ 3)
    × (s.crc_fail_total ≤ s.malformed_total)
    × (s.reorder_total + s.duplicate_total ≤ s.rx_total)
process_all-accounting_example = process_all-accounting counting gateway arrivals refl (omega arith)

abbrev recorded : List (ℕ × List ℕ)
recorded = (1000, small_frame) ∷ (2000, []) ∷ []

abbrev closed_source : ReplayFrameSource
closed_source = record {
  file = record { is_open = false; good = true; rest = [] };
  speed_multiplier = record { positive = false; divide = λ n. n };
  frames_replayed = 0;
  done = false;
  first_frame = true;
  first_frame_ts_ns = 0;
  replay_start_time = 0;
}

nothing-IsCut : IsCut []
unfolding pack_word
nothing-IsCut =
    (0, [], 0, 0 ∷ 0 ∷ 0 ∷ 0 ∷ 0 ∷ 0 ∷ 0 ∷ 0 ∷ 0 ∷ 0 ∷ 0 ∷ [], (omega arith, omega arith), refl)

run_loop-recording_example :
    (arrived : List (List ℕ × ℕ)) × (map (λ a. a.0) arrived ≡ map (λ f. f.1) recorded)
    × (core
          (run_loop counting replay_source 8 gateway
            (open_file closed_source (some (entries recorded ++ []))).0).0
        ≡ core_steps (core gateway) arrived)
run_loop-recording_example =
    run_loop-recording counting recorded [] 8 gateway closed_source (ground arith) nothing-IsCut
      (omega arith)

-- a frame with two payload bytes, cut before the second, and its checksum
abbrev head_bytes : List ℕ
head_bytes = 1 ∷ 3 ∷ 7 ∷ 0 ∷ 44 ∷ 1 ∷ 0 ∷ 0 ∷ 5 ∷ 0 ∷ 0 ∷ 0 ∷ 0 ∷ 0 ∷ 0 ∷ 0 ∷ 2 ∷ 0 ∷ 10 ∷ []

abbrev crc_bytes : List ℕ
crc_bytes = 55 ∷ 220 ∷ 179 ∷ 243 ∷ []

abbrev checking : Gateway ℕ
checking = record gateway { config = default_config }

process_frame-damaged_example :
    let g' = process_frame counting checking (head_bytes ++ (21 ∷ []) ++ crc_bytes) 10 in
    (g'.tracker ≡ checking.tracker)
    × ((get_global_stats g'.stats).rx_total ≡ (get_global_stats checking.stats).rx_total)
    × ((get_global_stats g'.stats).malformed_total
        ≡ add_u64 (get_global_stats checking.stats).malformed_total 1)
process_frame-damaged_example =
    process_frame-damaged counting checking 10 head_bytes (20 ∷ []) (21 ∷ []) crc_bytes refl
      (ground arith) (ground arith) (ground arith) (ground arith) refl (omega arith)
      (λ e. ground arith) (unfold deserialize_header load unpack unpack_word in refl)
      (unfold deserialize_header load unpack unpack_word in omega arith)
      (unfold parse_frame deserialize_header load unpack unpack_word crc32 crc_byte table
          fill_table in
        refl)
