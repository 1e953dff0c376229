-- ===== src/Programs/Simulated.antt =====
-- src/sensor_sim/sensor_sim_main.cpp: the program behind its options.
use net_node_gateway.Prelude.{
  is_empty, ℕ, ◌+◌, ◌%◌, ◌^◌, Bool, true, false, not, Option, none, some, List, if◌then◌else◌,
}
use net_node_gateway.Prelude.Text.{codes, text_eq}
use net_node_gateway.Sockets.{System, UdpFrameSink, connect, close_sink, udp_sink}
use net_node_gateway.Simulator.Machine.{Arithmetic, Random}
use net_node_gateway.Simulator.Faults.{FaultConfig}
use net_node_gateway.Simulator.Objects.{
  ScenarioProfile, profile_idle, profile_patrol, profile_raid, profile_stress,
}
use net_node_gateway.Simulator.Scenario.{Result, loaded, failed, load_scenario}
use net_node_gateway.Simulator.Run.{Simulation, new_simulation, simulate}
use net_node_gateway.Programs.{Parsed, parsed, exits, throws, SimSettings, Numbers}

abbrev pub loaded_profile : {D : Type 0} → Result (ScenarioProfile D) → Parsed (ScenarioProfile D)
loaded_profile (loaded p) = parsed p
loaded_profile (failed e) = exits 1

module _ {D : Type 0} (a : Arithmetic D) (k : Numbers D) where
  -- "Load profile". `find` gives what the system finds under a path.
  unfoldable pub choose_profile :
      (List ℕ → Option (List ℕ)) → SimSettings D → Parsed (ScenarioProfile D)
  unfolding load_scenario text_eq
  choose_profile find s =
      if not (is_empty s.profile_file)
      then loaded_profile (load_scenario a k.stod s.profile_file (find s.profile_file))
      else if text_eq s.profile_name (codes "idle")
      then parsed (profile_idle a)
      else if text_eq s.profile_name (codes "patrol")
      then parsed (profile_patrol a)
      else if text_eq s.profile_name (codes "raid")
      then parsed (profile_raid a)
      else if text_eq s.profile_name (codes "stress")
      then parsed (profile_stress a)
      else exits 1

abbrev pub fault_config : {D : Type 0} → SimSettings D → FaultConfig D
fault_config s = record {
  loss_pct = s.loss_pct;
  reorder_pct = s.reorder_pct;
  duplicate_pct = s.duplicate_pct;
  corrupt_pct = s.corrupt_pct;
}

-- The sink of the program, with its flag of the signal handler and its pause between ticks.
pub record Surroundings {ℓ} (W : Type ℓ) (R : Type 0) : Type ℓ where
  pub system : System W
  pub shutdown : W → Bool
  pub pause : W → W
  pub seeded : ℕ → R
  pub find : List ℕ → Option (List ℕ)

module _ {ℓ} {W : Type ℓ} {D R N : Type 0} (a : Arithmetic D) (r : Random D R N)
    (o : Surroundings W R) where
  abbrev pub begin : SimSettings D → ScenarioProfile D → W → Simulation D R W
  begin s profile w =
      new_simulation a r (fault_config s) profile (o.seeded s.seed)
        (o.seeded ((s.seed + 100) % 2 ^ 32)) (o.seeded ((s.seed + 200) % 2 ^ 32)) w

  -- An end without a status: the exception, the division by zero, or a loop on an azimuth that has not
  -- ended within its fuel, is `throws`.
  abbrev pub closed : UdpFrameSink → Option (Simulation D R W) → Parsed (Simulation D R W)
  closed sink none = throws
  closed sink (some s) = parsed (record s { outside = (close_sink o.system sink s.outside).1 })

  abbrev pub connected :
      ℕ → SimSettings D → ScenarioProfile D → Bool × (UdpFrameSink × W) → Parsed (Simulation D R W)
  connected fuel s profile (false, (sink, w)) = exits 1
  connected fuel s profile (true, (sink, w)) = closed sink (
      simulate a r (udp_sink o.system sink o.shutdown o.pause) fuel s.rate_hz s.duration_s
        (begin s profile w))

  abbrev pub with_profile :
      ℕ → SimSettings D → W → Parsed (ScenarioProfile D) → Parsed (Simulation D R W)
  with_profile fuel s w (exits n) = exits n
  with_profile fuel s w throws = throws
  with_profile fuel s w (parsed profile) =
      connected fuel s profile (connect o.system (record { sockfd = none }) s.host s.port w)

  -- `main` on its settings: the simulation at its end, or how the program ends before. The fuel is that of
  -- the loops on the azimuth.
  unfoldable pub simulator_main : Numbers D → ℕ → SimSettings D → W → Parsed (Simulation D R W)
  unfolding choose_profile simulate connect close_sink
  simulator_main k fuel s w = with_profile fuel s w (choose_profile a k o.find s)
