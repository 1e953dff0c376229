-- ===== src/Simulator/Run/Counts.antt =====
-- src/sensor_sim/sensor_sim_main.cpp: the counters of a run, faults included.
use net_node_gateway.Prelude.{ℕ, ◌+◌, ◌%◌, ◌^◌, ◌<◌, ◌≡◌, Option, List, length}
use net_node_gateway.Simulator.Machine.{Arithmetic, Random}
use net_node_gateway.Simulator.Measurements.{Frame}
use net_node_gateway.Simulator.Measurements.Numbered.{IsReady}
use net_node_gateway.Simulator.Run.{Sink, Simulation}
use net_node_gateway.Simulator.Run.Stream.{IsReliable}

module _ {ℓ} {W : Type ℓ} {D R N : Type 0} (a : Arithmetic D) (r : Random D R N) {k : Sink W}
    {taken : W → List Frame} (good : IsReliable k taken) where
  -- Frames sent and dropped are frames generated and duplicated, up to the wrap of the number.
  pub record IsBalanced (s : Simulation D R W) : Type ℓ where
    pub ready : IsReady s.measurer
    pub range : s.frames_sent < 2 ^ 64
    pub sum :
        (s.frames_sent + s.frames_dropped) % 2 ^ 32
        ≡ (s.measurer.seq + s.frames_duplicated) % 2 ^ 32

  -- A balanced state whose world is small enough for the rounds that are left.
  record IsSmall (left : ℕ) (s : Simulation D R W) : Type ℓ where
    balanced : IsBalanced s
    crowd : length s.world.objects + left < 2 ^ 29
