-- ===== src/Simulator/Run.antt =====
-- src/sensor_sim/sensor_sim_main.cpp: the loop of the simulator. The socket, the clocks, the sleep and
-- the flag of the signal handler belong to the world `W`; what is printed is left out.
pub mod Ending
pub mod Counts
pub mod Stream
pub mod Crowd
pub mod Delivered
use net_node_gateway.Prelude.{
  ℕ, zero, suc, ◌+◌, ◌-◌, ◌%◌, ◌^◌, Bool, true, false, Option, none, some, List, [], ◌∷◌, ◌++◌, leb,
  ◌==◌, if◌then◌else◌,
}
use net_node_gateway.Simulator.{WorldObject}
use net_node_gateway.Simulator.Machine.{Arithmetic, Random}
use net_node_gateway.Simulator.Measurements.{
  MeasurementGenerator, Frame, new_generator, generate_tracks, generate_plots, generate_heartbeat,
}
use net_node_gateway.Simulator.Faults.{FaultConfig, FaultInjector, new_injector, apply}
use net_node_gateway.Simulator.Objects.{
  ScenarioProfile, ObjectGenerator, new_object_generator, generate_initial, maybe_spawn,
}
use net_node_gateway.Simulator.World.{WorldModel, new_world, add_object, tick}
use net_node_gateway.Simulator.World.Population.{add_spawned}

-- `sink.send`, with whether it succeeds; `g_shutdown.load`; the pause to the next tick.
pub record Sink {ℓ} (W : Type ℓ) : Type ℓ where
  pub send : Frame → W → Bool × W
  pub shutdown : W → Bool
  pub pause : W → W

pub record Simulation {ℓ} (D R : Type 0) (W : Type ℓ) : Type ℓ where
  pub generator : ObjectGenerator D R
  pub world : WorldModel D
  pub measurer : MeasurementGenerator R
  pub injector : FaultInjector D R
  pub frames_sent : ℕ
  pub frames_dropped : ℕ
  pub frames_reordered : ℕ
  pub frames_duplicated : ℕ
  pub frames_corrupted : ℕ
  pub outside : W

-- `+=` on a `uint64_t`
abbrev pub add_count : ℕ → ℕ → ℕ
add_count n m = (n + m) % 2 ^ 64

abbrev pub add_all : {D : Type 0} → WorldModel D → List (WorldObject D) → WorldModel D
add_all w [] = w
add_all w (obj ∷ objects) = add_all (add_object w obj) objects

module _ {ℓ} {W : Type ℓ} (k : Sink W) where
  -- The loop over the frames, with the count of those that were sent.
  unfoldable pub send_frames : List Frame → ℕ → W → ℕ × W
  send_frames [] sent w = (sent, w)
  send_frames (frame ∷ frames) sent w =
      let (done, w') = k.send frame w in
      send_frames frames (if done then add_count sent 1 else sent) w'

module _ {D R N : Type 0} (a : Arithmetic D) (r : Random D R N) where
  -- The frames of one tick, before the faults.
  unfoldable pub measure :
      MeasurementGenerator R → List (WorldObject D) → ℕ → ℕ → List Frame × MeasurementGenerator R
  measure m objects number timestamp_ns =
      let (tracks, m1) = generate_tracks a r m objects timestamp_ns in
      let (plots, m2) = generate_plots a r m1 objects timestamp_ns in
      let (beat, m3) = generate_heartbeat a r m2 timestamp_ns in
      if number % 50 == 0 then (tracks ++ plots ++ beat ∷ [], m3) else (tracks ++ plots, m2)

module _ {D : Type 0} (a : Arithmetic D) where
  -- `int total_ticks`: no tick when it is negative.
  abbrev pub total_ticks : D → D → ℕ
  total_ticks duration_s rate_hz =
      let n = a.bits 4 (a.mul duration_s rate_hz) in if leb (2 ^ 31) n then 0 else n

module _ {ℓ} {W : Type ℓ} {D R N : Type 0} (a : Arithmetic D) (r : Random D R N) where
  -- What a round does behind `world.tick`.
  unfoldable pub after_tick :
      Sink W → ℕ → D → Simulation D R W → ObjectGenerator D R → WorldModel D → Simulation D R W
  unfolding measure send_frames
  after_tick k number current_time_s s generator world =
      let timestamp_ns = a.bits 8 (a.mul current_time_s (a.literal 1000000000 0)) in
      let (frames, measurer) = measure a r s.measurer world.objects number timestamp_ns in
      let (damaged, injector) = apply a r s.injector frames in
      let stats = injector.last_stats in
      let (sent, w) = send_frames k damaged s.frames_sent s.outside in
      record {
        generator = generator;
        world = world;
        measurer = measurer;
        injector = injector;
        frames_sent = sent;
        frames_dropped = add_count s.frames_dropped stats.dropped;
        frames_reordered = add_count s.frames_reordered stats.reordered;
        frames_duplicated = add_count s.frames_duplicated stats.duplicated;
        frames_corrupted = add_count s.frames_corrupted stats.corrupted;
        outside = k.pause w;
      }

  abbrev pub continue_round :
      Sink W
      → ℕ
      → D
      → Simulation D R W
      → ObjectGenerator D R
      → Option (WorldModel D)
      → Option (Simulation D R W)
  continue_round k number now s generator none = none
  continue_round k number now s generator (some world) =
      some (after_tick k number now s generator world)

  -- One round of the loop; the fuel is that of the loops on the azimuth, and `none` is one of them that
  -- does not end within it.
  unfoldable pub step : Sink W → ℕ → D → ℕ → Simulation D R W → Option (Simulation D R W)
  unfolding after_tick
  step k fuel dt number s =
      let current_time_s = a.mul (a.of_unsigned number) dt in
      let (spawned, generator) = maybe_spawn a r s.generator current_time_s in
      continue_round k number current_time_s s generator
        (tick a fuel dt current_time_s (add_spawned s.world spawned))

  -- The loop, for the ticks that are left. `none` is the division by zero of `tick % int(rate_hz)`
  -- for a rate below 1, or a round that does not end; the rate is given as its image as an `int`.
  unfoldable pub ticks : Sink W → ℕ → D → ℕ → ℕ → ℕ → Simulation D R W → Option (Simulation D R W)
  unfolding step
  ticks k fuel dt rate zero number s = some s
  ticks k fuel dt rate (suc left) number s =
      if k.shutdown s.outside
      then some s
      else if rate == 0
      then none
      else elim (step k fuel dt number s) [
        | none ↦ none
        | some s' ↦ ticks k fuel dt rate left (number + 1) s'
      ]

  abbrev pub new_simulation : FaultConfig D → ScenarioProfile D → R → R → R → W → Simulation D R W
  new_simulation config profile seed1 seed2 seed3 w = record {
    generator = new_object_generator a profile seed1;
    world = new_world;
    measurer = new_generator 1 seed2;
    injector = new_injector config seed3;
    frames_sent = 0;
    frames_dropped = 0;
    frames_reordered = 0;
    frames_duplicated = 0;
    frames_corrupted = 0;
    outside = w;
  }

  -- "Initialize world"; `none` is the exception of `generate_initial`.
  unfoldable pub populate : Simulation D R W → Option (Simulation D R W)
  populate s = elim (generate_initial a r s.generator) [
    | none ↦ none
    | some (objects, generator) ↦
        some (record s { generator = generator; world = add_all s.world objects })
  ]

  unfoldable pub simulate : Sink W → ℕ → D → D → Simulation D R W → Option (Simulation D R W)
  unfolding ticks populate
  simulate k fuel rate_hz duration_s s = elim (populate s) [
    | none ↦ none
    | some s' ↦
        ticks k fuel (a.div (a.literal 1 0) rate_hz) (a.bits 4 rate_hz)
          (total_ticks a duration_s rate_hz) 0 s'
  ]
