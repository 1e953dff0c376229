-- ===== src/Simulator/Examples/Parts.antt =====
-- The generator of frames, the injector of faults and the world by themselves.
use net_node_gateway.Prelude.{
  ℕ, ◌+◌, ◌-◌, ◌/◌, ◌≤◌, ◌<◌, ◌≡◌, refl, sym, ap, subst, Bool, true, false, some, List, [], ◌∷◌,
  length, map, arith, ltb, if◌then◌else◌,
}
use mathlib.Core.List.{Memᴰ}
use net_node_gateway.Types.{missile, bird}
use net_node_gateway.Gateway.{Gateway, process_all, Outside, new_gateway}
use net_node_gateway.Gateway.Config.{default_config}
use net_node_gateway.Logger.{new_logger}
use net_node_gateway.Stats.{get_global_stats}
use net_node_gateway.Simulator.{WorldObject}
use net_node_gateway.Simulator.Measurements.{
  MeasurementGenerator, Frame, new_generator, generate_tracks, tracks_loop,
}
use net_node_gateway.Simulator.Measurements.Numbered.{IsNumbered}
use net_node_gateway.Simulator.Run.Stream.{generate_tracks-Emits}
use net_node_gateway.Simulator.Reception.{process_all-refuses}
use net_node_gateway.Simulator.Faults.{
  FaultInjector, new_injector, apply, insert_all, collect, corrupt_frame,
}
use net_node_gateway.Simulator.Faults.Conserved.{apply-Balances}
use net_node_gateway.Simulator.Faults.Origin.{IsFrom, apply-IsFrom}
use net_node_gateway.Simulator.World.{WorldModel, tick}
use net_node_gateway.Simulator.World.Azimuth.{IsWinding, IsMoved, Remains, tick-InTurn}
use net_node_gateway.Simulator.Examples.{whole, drawn}

abbrev objects : List (WorldObject ℕ)
objects =
    record {
      id = 1;
      classification = missile;
      spawn_time_s = 1000;
      lifetime_s = 1005;
      azimuth_deg = 1001;
      elevation_deg = 1002;
      range_m = 1060;
      speed_mps = 1300;
      heading_deg = 1090;
      rcs_dbsm = 1010;
      is_hostile = true;
      noise_stddev = 1001;
    }
    ∷ record {
      id = 2;
      classification = bird;
      spawn_time_s = 1000;
      lifetime_s = 1001;
      azimuth_deg = 1300;
      elevation_deg = 1002;
      range_m = 1020;
      speed_mps = 1002;
      heading_deg = 1000;
      rcs_dbsm = 1000;
      is_hostile = false;
      noise_stddev = 1001;
    }
    ∷ []

abbrev counting : Outside ℕ
counting = record {
  wall_now = λ n. (record { date = []; ms = 0 }, n + 1);
  steady_now = λ n. (n, n + 1);
  invoke = λ cb event st. st;
}

abbrev gateway : Bool → Gateway ℕ
gateway crc = new_gateway (record default_config { crc_enabled = crc }) new_logger 0

abbrev first : MeasurementGenerator (List ℕ)
first = new_generator 7 (0 ∷ 1 ∷ 2 ∷ [])

-- the tracks of both objects, with the times of their arrival
abbrev arrivals : List (Frame × ℕ)
arrivals = map (λ frame. (frame, 9)) (generate_tracks whole drawn first objects 5).0

map-pair : (fs : List Frame) → map (λ (f : Frame × ℕ). f.0) (map (λ frame. (frame, 9)) fs) ≡ fs
map-pair [] = refl
map-pair (frame ∷ fs) = ap (◌∷◌ frame) (map-pair fs)

length-arrivals : length arrivals ≡ 2
unfolding generate_tracks tracks_loop
length-arrivals = refl

process_all-refuses_example :
    let s = get_global_stats (process_all counting (gateway true) arrivals).stats in
    (s.rx_total ≡ 0) × (s.malformed_total ≡ length arrivals) × (s.crc_fail_total ≡ 0)
process_all-refuses_example =
    process_all-refuses counting (gateway true) arrivals 7 0 refl refl
      (omega (arith, length-arrivals))
      (subst (IsNumbered 7 0) (sym (map-pair (generate_tracks whole drawn first objects 5).0))
        (generate_tracks-Emits whole drawn first objects 5 (omega arith, omega arith)
          (omega arith)).numbered)

abbrev frames : List Frame
frames = (1 ∷ 2 ∷ 3 ∷ []) ∷ (4 ∷ 5 ∷ []) ∷ (6 ∷ []) ∷ []

abbrev injector : FaultInjector ℕ (List ℕ)
injector =
    new_injector
      (record { loss_pct = 1003; reorder_pct = 1005; duplicate_pct = 1004; corrupt_pct = 1002 })
      (0 ∷ 1 ∷ 9 ∷ 9 ∷ 1 ∷ 7 ∷ 7 ∷ 2 ∷ 8 ∷ 0 ∷ 8 ∷ 8 ∷ 8 ∷ 1 ∷ [])

apply-Balances_example :
    let (out, i') = apply whole drawn injector frames in
    (length out + i'.last_stats.dropped ≡ 3 + i'.last_stats.duplicated)
    × (i'.last_stats.duplicated ≤ 3)
apply-Balances_example = apply-Balances whole drawn injector frames (omega arith)

-- a copy of the first frame, which stands damaged in the batch
damaged-Memᴰ : Memᴰ (1 ∷ 253 ∷ 3 ∷ []) (apply whole drawn injector frames).0
unfolding apply insert_all collect corrupt_frame
damaged-Memᴰ = Memᴰ.head refl

apply-IsFrom_example : IsFrom frames (1 ∷ 253 ∷ 3 ∷ [])
apply-IsFrom_example = apply-IsFrom whole drawn injector frames (1 ∷ 253 ∷ 3 ∷ []) damaged-Memᴰ

-- turns away from the first one
abbrev turns : ℕ → ℕ
turns x = if ltb x 1000 then 2 + (1000 - x) / 360 else (x - 1000) / 360

-- below 10000
abbrev Near : ℕ → Type 0
Near x = x < 10000

whole-IsWinding : IsWinding whole Near turns
whole-IsWinding = record {
  climbs = λ x n h. ground arith;
  falls = λ x n h. ground arith;
  stays = λ x n h. ground arith;
}

abbrev world : WorldModel ℕ
world = record { objects = objects }

abbrev kept : WorldObject ℕ
kept = record {
  id = 1;
  classification = missile;
  spawn_time_s = 1000;
  lifetime_s = 1005;
  azimuth_deg = 1061;
  elevation_deg = 1002;
  range_m = 1060;
  speed_mps = 1300;
  heading_deg = 1090;
  rcs_dbsm = 1010;
  is_hostile = true;
  noise_stddev = 1001;
}

-- The second object is too close.
tick_objects : tick whole 3 1001 1002 world ≡ some (record { objects = kept ∷ [] })
unfolding tick
tick_objects = refl

tick-InTurn_example :
    (v' : WorldModel ℕ) × (tick whole 3 1001 1002 world ≡ some v')
    × ((x : WorldObject ℕ)
        → Memᴰ x v'.objects
        → Remains whole 1002 x
          × ((obj : WorldObject ℕ) × Memᴰ obj objects × IsMoved whole 1001 obj x))
tick-InTurn_example =
    tick-InTurn whole whole-IsWinding 3 1001 1002 world
      (λ far. (omega arith, omega arith), (λ far. absurd cc, tt))
