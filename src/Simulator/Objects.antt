-- ===== src/Simulator/Objects.antt =====
-- src/sensor_sim/object_generator.cpp and object_generator.h: the profiles of the scenarios, and the
-- objects that a generator makes for one.
pub mod Spawned
use net_node_gateway.Prelude.{
  ℕ, zero, suc, ◌+◌, ◌-◌, ◌%◌, ◌^◌, Bool, true, false, Option, none, some, List, [], ◌∷◌, length,
  get_or, leb, ◌==◌, if◌then◌else◌,
}
use net_node_gateway.Prelude.Text.{codes}
use net_node_gateway.Types.{
  TrackClass, unknown, fixed_wing, rotary_wing, uav_small, uav_large, missile, rocket_artillery,
  bird, decoy,
}
use net_node_gateway.Simulator.{WorldObject}
use net_node_gateway.Simulator.Machine.{Arithmetic, Random, max_real}

-- An `int` is given as its image in 32 bits.
pub record ScenarioProfile (D : Type 0) : Type 0 where
  pub name : List ℕ
  pub min_objects : ℕ
  pub max_objects : ℕ
  pub allowed_types : List TrackClass
  pub spawn_rate_hz : D
  pub min_range_m : D
  pub max_range_m : D
  pub min_speed_mps : D
  pub max_speed_mps : D
  pub hostile_probability : D

pub record ObjectGenerator (D R : Type 0) : Type 0 where
  pub profile : ScenarioProfile D
  pub rng : R
  pub next_id : ℕ
  pub last_spawn_time : D

-- `n - 1` on a `size_t`
abbrev pub size_pred : ℕ → ℕ
size_pred n = if n == 0 then 2 ^ 64 - 1 else n - 1

module _ {D : Type 0} (a : Arithmetic D) where
  abbrev pub profile_idle : ScenarioProfile D
  profile_idle = record {
    name = codes "idle";
    min_objects = 0;
    max_objects = 2;
    allowed_types = bird ∷ unknown ∷ [];
    spawn_rate_hz = a.literal 1 2;
    min_range_m = a.literal 1000 0;
    max_range_m = a.literal 15000 0;
    min_speed_mps = a.literal 5 0;
    max_speed_mps = a.literal 30 0;
    hostile_probability = a.literal 0 0;
  }

  abbrev pub profile_patrol : ScenarioProfile D
  profile_patrol = record {
    name = codes "patrol";
    min_objects = 3;
    max_objects = 8;
    allowed_types = fixed_wing ∷ rotary_wing ∷ uav_small ∷ [];
    spawn_rate_hz = a.literal 1 1;
    min_range_m = a.literal 5000 0;
    max_range_m = a.literal 30000 0;
    min_speed_mps = a.literal 50 0;
    max_speed_mps = a.literal 300 0;
    hostile_probability = a.literal 3 1;
  }

  abbrev pub profile_raid : ScenarioProfile D
  profile_raid = record {
    name = codes "raid";
    min_objects = 10;
    max_objects = 30;
    allowed_types = uav_small ∷ missile ∷ rocket_artillery ∷ [];
    spawn_rate_hz = a.literal 1 0;
    min_range_m = a.literal 3000 0;
    max_range_m = a.literal 25000 0;
    min_speed_mps = a.literal 100 0;
    max_speed_mps = a.literal 600 0;
    hostile_probability = a.literal 8 1;
  }

  abbrev pub profile_stress : ScenarioProfile D
  profile_stress = record {
    name = codes "stress";
    min_objects = 50;
    max_objects = 100;
    allowed_types =
        fixed_wing ∷ rotary_wing ∷ uav_small ∷ uav_large ∷ missile ∷ rocket_artillery ∷ bird ∷ decoy
        ∷ unknown ∷ [];
    spawn_rate_hz = a.literal 10 0;
    min_range_m = a.literal 1000 0;
    max_range_m = a.literal 40000 0;
    min_speed_mps = a.literal 10 0;
    max_speed_mps = a.literal 800 0;
    hostile_probability = a.literal 5 1;
  }

  -- The constructor; `rng` is the engine seeded with its argument.
  abbrev pub new_object_generator : {R : Type 0} → ScenarioProfile D → R → ObjectGenerator D R
  new_object_generator profile rng = record {
    profile = profile;
    rng = rng;
    next_id = 1;
    last_spawn_time = a.literal 0 0;
  }

  unfoldable pub base_rcs : TrackClass → D
  base_rcs fixed_wing = a.literal 10 0
  base_rcs rotary_wing = a.literal 5 0
  base_rcs uav_small = a.neg (a.literal 5 0)
  base_rcs uav_large = a.literal 3 0
  base_rcs missile = a.neg (a.literal 10 0)
  base_rcs rocket_artillery = a.neg (a.literal 8 0)
  base_rcs bird = a.neg (a.literal 20 0)
  base_rcs decoy = a.literal 15 0
  base_rcs unknown = a.literal 0 0

module _ {D R N : Type 0} (a : Arithmetic D) (r : Random D R N) where
  -- An empty list of types is undefined behaviour in the source; the loader refuses it.
  unfoldable pub make_object : ObjectGenerator D R → D → WorldObject D × ObjectGenerator D R
  make_object g spawn_time_s =
      let types = g.profile.allowed_types in
      let (i, rng) = r.uniform_int 0 (size_pred (length types)) g.rng in
      let classification = get_or types i unknown in
      let (lifetime, rng1) = r.uniform_real (a.literal 10 0) (a.literal 120 0) rng in
      let (azimuth, rng2) = r.uniform_real (a.literal 0 0) (a.literal 360 0) rng1 in
      let (elevation, rng3) = r.uniform_real (a.literal 5 1) (a.literal 45 0) rng2 in
      let (range, rng4) = r.uniform_real g.profile.min_range_m g.profile.max_range_m rng3 in
      let (speed, rng5) = r.uniform_real g.profile.min_speed_mps g.profile.max_speed_mps rng4 in
      let (heading, rng6) = r.uniform_real (a.literal 0 0) (a.literal 360 0) rng5 in
      let (noise, (dist, rng7)) = r.draw (r.normal (a.literal 0 0) (a.literal 2 0)) rng6 in
      let rcs = a.add (base_rcs a classification) noise in
      let (hostile, rng8) = r.uniform_real (a.literal 0 0) (a.literal 1 0) rng7 in
      let rcs_linear = a.pow (a.literal 10 0) (a.div rcs (a.literal 10 0)) in
      (
        record {
          id = g.next_id;
          classification = classification;
          spawn_time_s = spawn_time_s;
          lifetime_s = lifetime;
          azimuth_deg = azimuth;
          elevation_deg = elevation;
          range_m = range;
          speed_mps = speed;
          heading_deg = heading;
          rcs_dbsm = rcs;
          is_hostile = a.lt hostile g.profile.hostile_probability;
          noise_stddev =
              max_real a (a.literal 1 0)
                (a.div (a.div range (a.literal 1000 0)) (max_real a (a.literal 1 2) rcs_linear));
        },
        record g { rng = rng8; next_id = (g.next_id + 1) % 2 ^ 32 },
      )

  unfoldable pub make_objects : ℕ → ObjectGenerator D R → List (WorldObject D) × ObjectGenerator D R
  make_objects zero g = ([], g)
  make_objects (suc count) g =
      let (obj, g') = make_object g (a.literal 0 0) in
      let (objects, g'') = make_objects count g' in (obj ∷ objects, g'')

  -- `none` is the exception that `reserve` throws for a negative count.
  unfoldable pub generate_initial :
      ObjectGenerator D R → Option (List (WorldObject D) × ObjectGenerator D R)
  unfolding make_objects
  generate_initial g =
      let (count, rng) = r.uniform_int g.profile.min_objects g.profile.max_objects g.rng in
      if leb (2 ^ 31) count then none else some (make_objects count (record g { rng = rng }))

  unfoldable pub maybe_spawn :
      ObjectGenerator D R → D → Option (WorldObject D) × ObjectGenerator D R
  maybe_spawn g current_time_s =
      let interval = a.div (a.literal 1 0) g.profile.spawn_rate_hz in
      let (obj, g') = make_object (record g { last_spawn_time = current_time_s }) current_time_s in
      if a.le g.profile.spawn_rate_hz (a.literal 0 0)
      then (none, g)
      else if a.le interval (a.sub current_time_s g.last_spawn_time)
      then (some obj, g')
      else (none, g)
