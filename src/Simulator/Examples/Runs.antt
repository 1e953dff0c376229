-- ===== src/Simulator/Examples/Runs.antt =====
-- A run of one tick, the faults of a batch, and a tick of the world.
use net_node_gateway.Prelude.{
  ℕ, ◌+◌, ◌≤◌, ◌≡◌, refl, Bool, true, false, Option, none, some, List, [], ◌∷◌, ◌++◌, length, map,
  All, arith,
}
use net_node_gateway.Types.{missile, bird}
use net_node_gateway.Gateway.{Gateway, Outside, new_gateway}
use net_node_gateway.Gateway.Config.{default_config}
use net_node_gateway.Logger.{new_logger}
use net_node_gateway.Simulator.{WorldObject}
use net_node_gateway.Simulator.Measurements.{
  Frame, generate_tracks, generate_plots, generate_heartbeat, tracks_loop, plot_object,
  detection_probability, track_object, build_frame,
}
use net_node_gateway.Simulator.Faults.{FaultConfig, apply}
use net_node_gateway.Simulator.Objects.{
  ScenarioProfile, ObjectGenerator, new_object_generator, generate_initial, maybe_spawn,
  make_object, base_rcs,
}
use net_node_gateway.Simulator.Objects.Spawned.{
  IsSound, IsBatch, IsAllowed, generate_initial-IsBatch,
}
use net_node_gateway.Simulator.World.{tick}
use net_node_gateway.Simulator.World.Population.{Ascends}
use net_node_gateway.Simulator.Run.{Sink, Simulation, new_simulation, simulate}
use net_node_gateway.Simulator.Run.Ending.{run_ends}
use net_node_gateway.Simulator.Run.Crowd.{simulate-IsPopulated}
use net_node_gateway.Simulator.Examples.{whole, drawn}

-- one missile, and one bird
abbrev profile : ScenarioProfile ℕ
profile = record {
  name = [];
  min_objects = 1;
  max_objects = 2;
  allowed_types = missile ∷ bird ∷ [];
  spawn_rate_hz = 1001;
  min_range_m = 1100;
  max_range_m = 1900;
  min_speed_mps = 1001;
  max_speed_mps = 1003;
  hostile_probability = 1001;
}

abbrev quiet : FaultConfig ℕ
quiet = record { loss_pct = 1000; reorder_pct = 1000; duplicate_pct = 1000; corrupt_pct = 1000 }

abbrev faulty : FaultConfig ℕ
faulty = record { loss_pct = 1003; reorder_pct = 1005; duplicate_pct = 1004; corrupt_pct = 1002 }

-- It takes every frame, and is never shut down.
abbrev sink : Sink (List Frame)
sink = record { send = λ frame w. (true, w ++ frame ∷ []); shutdown = λ w. false; pause = λ w. w }

profile-IsSound : IsSound profile
profile-IsSound = record { types = omega arith; order = omega arith; small = omega arith }

abbrev draws : List ℕ
draws = 0 ∷ 1 ∷ 3 ∷ 7 ∷ 0 ∷ 2 ∷ []

abbrev start : FaultConfig ℕ → Simulation ℕ (List ℕ) (List Frame)
start config = new_simulation whole drawn config profile draws draws draws []

generate_initial-IsBatch_example :
    let g = new_object_generator whole profile draws in
    (objects : List (WorldObject ℕ)) × (g' : ObjectGenerator ℕ (List ℕ)) × (generate_initial whole
        drawn g
      ≡ some (objects, g'))
    × (1 ≤ length objects)
    × (length objects ≤ 2)
    × IsBatch g objects g'
generate_initial-IsBatch_example =
    generate_initial-IsBatch whole drawn (new_object_generator whole profile draws) (omega arith)
      (omega arith) (omega arith) (omega arith)

rounds_faulty : run_ends whole drawn sink 3 1002 1002 (start faulty) ≡ true
unfolding run_ends simulate generate_initial apply generate_tracks tracks_loop tick maybe_spawn
    make_object generate_plots plot_object detection_probability base_rcs track_object build_frame
    generate_heartbeat
rounds_faulty = refl

simulate-IsPopulated_example :
    (s' : Simulation ℕ (List ℕ) (List Frame)) × (simulate whole drawn sink 3 1002 1002
        (start faulty)
      ≡ some s')
    × Ascends 0 s'.world.objects s'.generator.next_id
    × All (IsAllowed (missile ∷ bird ∷ [])) s'.world.objects
simulate-IsPopulated_example =
    simulate-IsPopulated whole drawn sink 3 1002 1002 faulty profile draws draws draws [] refl
      profile-IsSound (omega arith) rounds_faulty

-- What a run come to.
abbrev ended : Option (Simulation ℕ (List ℕ) (List Frame)) → Simulation ℕ (List ℕ) (List Frame)
ended none = start quiet
ended (some s) = s

abbrev final : Simulation ℕ (List ℕ) (List Frame)
final = ended (simulate whole drawn sink 3 1002 1002 (start quiet))

run_frames : (final.frames_sent ≡ 8) × (length final.outside ≡ 8)
unfolding simulate generate_initial apply generate_tracks tracks_loop tick maybe_spawn make_object
    generate_plots plot_object detection_probability base_rcs track_object build_frame
    generate_heartbeat
run_frames = (refl, refl)

abbrev counting : Outside ℕ
counting = record {
  wall_now = λ n. (record { date = []; ms = 0 }, n + 1);
  steady_now = λ n. (n, n + 1);
  invoke = λ cb event st. st;
}

abbrev gateway : Bool → Gateway ℕ
gateway crc = new_gateway (record default_config { crc_enabled = crc }) new_logger 0

abbrev arrivals : List (Frame × ℕ)
arrivals = map (λ frame. (frame, 0)) final.outside
