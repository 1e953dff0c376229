-- ===== src/Simulator.antt =====
-- src/sensor_sim: the sensor simulator. What its parts share: the objects of the world and the
-- profile of a scenario.
pub mod Machine
pub mod Measurements
pub mod Reception
pub mod Faults
pub mod Objects
pub mod World
pub mod Scenario
pub mod Run
mod Examples
use net_node_gateway.Prelude.{ℕ, Bool, List}
use net_node_gateway.Types.{TrackClass}

-- `D` stands for `double`.
pub record WorldObject (D : Type 0) : Type 0 where
  pub id : ℕ
  pub classification : TrackClass
  pub spawn_time_s : D
  pub lifetime_s : D
  pub azimuth_deg : D
  pub elevation_deg : D
  pub range_m : D
  pub speed_mps : D
  pub heading_deg : D
  pub rcs_dbsm : D
  pub is_hostile : Bool
  pub noise_stddev : D
