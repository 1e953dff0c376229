-- ===== src/Recorder/Examples.antt =====
-- A recorder at concrete values.
use net_node_gateway.Prelude.{ℕ, true, List, [], ◌∷◌}
use net_node_gateway.Recorder.{FrameRecorder}

abbrev recorder_100 : FrameRecorder
recorder_100 = record {
  file = record { is_open = true; good = true; room = 100; bytes = [] };
  frame_count = 0;
}

abbrev three_bytes : List ℕ
three_bytes = 1 ∷ 2 ∷ 3 ∷ []

abbrev two_frames : List (ℕ × List ℕ)
two_frames = (1000, 1 ∷ 2 ∷ 3 ∷ []) ∷ (2000, []) ∷ []
