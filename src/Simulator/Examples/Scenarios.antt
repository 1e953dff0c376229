-- ===== src/Simulator/Examples/Scenarios.antt =====
-- The scenario files of the repository give the profiles of src/sensor_sim/object_generator.cpp.
use net_node_gateway.Prelude.{
  arith, ℕ, ◌+◌, ◌-◌, ◌*◌, ◌≡◌, refl, Option, none, some, List, [], ◌∷◌, ◌++◌, leb, ◌&&◌,
  if◌then◌else◌,
}
use net_node_gateway.Prelude.Text.{codes, decimal}
use net_node_gateway.Simulator.Objects.{profile_idle, profile_stress}
use net_node_gateway.Simulator.Scenario.{Result, loaded, load_scenario_from_string, extract_string}
use net_node_gateway.Simulator.Scenario.Text.{trim, after, before_last, pieces, open_end}
use net_node_gateway.Simulator.Objects.{ScenarioProfile}
use net_node_gateway.Simulator.Scenario.{empty_profile, checked, and_then}
use net_node_gateway.Simulator.Scenario.Text.{line_feed}
use net_node_gateway.Simulator.Scenario.Sound.{
  Loads, Returns, IsNamed, load_scenario_from_string-Loads,
}
use net_node_gateway.Simulator.Examples.{whole}
use net_node_gateway.Simulator.Scenario.RoundTrip.{load_scenario_from_string-file_lines}
use net_node_gateway.Simulator.Scenario.FileLines.{file_lines}
use net_node_gateway.Simulator.Scenario.Text.Laws.{unlines}
use net_node_gateway.Simulator.Scenario.Text.{has}

digits : ℕ → List ℕ → Option ℕ
digits n [] = some (1000 + n)
digits n (c ∷ cs) = if leb 48 c && leb c 57 then digits (10 * n + (c - 48)) cs else some (1000 + n)

-- The whole part of a number without a sign, in the numbers of `whole`.
stod : List ℕ → Option ℕ
stod [] = none
stod (c ∷ cs) = if leb 48 c && leb c 57 then digits 0 (c ∷ cs) else none

abbrev idle_json : List ℕ
idle_json =
    codes "{\n"
    ++ codes "    \"name\": \"idle\",\n"
    ++ codes "    \"min_objects\": 0,\n"
    ++ codes "    \"max_objects\": 2,\n"
    ++ codes "    \"allowed_types\": [\"BIRD\", \"UNKNOWN\"],\n"
    ++ codes "    \"spawn_rate_hz\": 0.01,\n"
    ++ codes "    \"min_range_m\": 1000,\n"
    ++ codes "    \"max_range_m\": 15000,\n"
    ++ codes "    \"min_speed_mps\": 5,\n"
    ++ codes "    \"max_speed_mps\": 30,\n"
    ++ codes "    \"hostile_probability\": 0.0\n"
    ++ codes "}\n"

idle_file : load_scenario_from_string whole stod idle_json ≡ loaded (profile_idle whole)
unfolding load_scenario_from_string extract_string trim open_end before_last stod digits after
idle_file = refl

abbrev stress_json : List ℕ
stress_json =
    codes "{\n"
    ++ codes "    \"name\": \"stress\",\n"
    ++ codes "    \"min_objects\": 50,\n"
    ++ codes "    \"max_objects\": 100,\n"
    ++ codes
        "    \"allowed_types\": [\"FIXED_WING\", \"ROTARY_WING\", \"UAV_SMALL\", \"UAV_LARGE\",\n"
    ++ codes
        "                      \"MISSILE\", \"ROCKET_ARTILLERY\", \"BIRD\", \"DECOY\", \"UNKNOWN\"],\n"
    ++ codes "    \"spawn_rate_hz\": 10.0,\n"
    ++ codes "    \"min_range_m\": 1000,\n"
    ++ codes "    \"max_range_m\": 40000,\n"
    ++ codes "    \"min_speed_mps\": 10,\n"
    ++ codes "    \"max_speed_mps\": 800,\n"
    ++ codes "    \"hostile_probability\": 0.5\n"
    ++ codes "}\n"

stress_file : load_scenario_from_string whole stod stress_json ≡ loaded (profile_stress whole)
unfolding load_scenario_from_string extract_string trim open_end before_last stod digits after
stress_file = refl

load_scenario_from_string-Loads_example :
    (r : Result (ScenarioProfile ℕ)) × Loads whole stod
      (pieces line_feed idle_json)
      (empty_profile whole stod)
      r
    × (load_scenario_from_string whole stod idle_json ≡ and_then r (checked whole stod))
    × Returns (IsNamed whole stod) (load_scenario_from_string whole stod idle_json)
load_scenario_from_string-Loads_example = load_scenario_from_string-Loads whole stod idle_json

-- The text of a number of `whole` that is not negative.
written : ℕ → List ℕ
written n = decimal (n - 1000)

abbrev idle : ScenarioProfile ℕ
idle = profile_idle whole

load_scenario_from_string-file_lines_example :
    load_scenario_from_string whole stod (unlines (file_lines stod written idle 1000 1002))
    ≡ loaded idle
unfolding written decimal stod digits has
load_scenario_from_string-file_lines_example =
    load_scenario_from_string-file_lines whole stod written idle 1000 1002 (λ h. cc h) refl
      (λ h. cc h) refl refl (ground arith)
