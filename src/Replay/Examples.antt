-- ===== src/Replay/Examples.antt =====
-- A replay of a recording with two frames, broken off inside a third.
use net_node_gateway.Prelude.{
  ℕ, ◌%◌, ◌^◌, ◌≡◌, refl, true, false, some, List, [], ◌∷◌, ◌++◌, map, length, arith,
}
use net_node_gateway.Prelude.Pack.{pack_word}
use net_node_gateway.Recorder.Behaviour.{entries}
use net_node_gateway.Replay.{ReplayFrameSource, open_file}
use net_node_gateway.Replay.Drain.{drain, IsCut, drain-open_file}

abbrev closed_source : ReplayFrameSource
closed_source = record {
  file = record { is_open = false; good = true; rest = [] };
  speed_multiplier = record { positive = true; divide = λ n. n };
  frames_replayed = 0;
  done = false;
  first_frame = true;
  first_frame_ts_ns = 0;
  replay_start_time = 0;
}

abbrev recorded : List (ℕ × List ℕ)
recorded = (1000, 1 ∷ 2 ∷ 3 ∷ []) ∷ (2000, []) ∷ []

abbrev piece : List ℕ
piece = 0 ∷ 0 ∷ []

piece-IsCut : IsCut piece
unfolding pack_word
piece-IsCut = (0, [], 0, 0 ∷ 0 ∷ 0 ∷ 0 ∷ 0 ∷ 0 ∷ 0 ∷ 0 ∷ 0 ∷ [], (omega arith, omega arith), refl)

drain-open_file_example :
    let (frames, s') =
      drain 3 (λ n. n) (open_file closed_source (some (entries recorded ++ piece))).0 in
    (frames ≡ map (λ f. f.1) recorded)
    × (s'.done ≡ true)
    × (s'.frames_replayed % 2 ^ 64 ≡ length recorded % 2 ^ 64)
drain-open_file_example =
    drain-open_file recorded piece (λ n. n) closed_source (ground arith) piece-IsCut
