-- ===== src/Simulator/World.antt =====
-- src/sensor_sim/world_model.cpp and world_model.h: the objects that move. A `while` loop on the
-- azimuth gets a number of rounds, fuel, and a loop that needs more gives `none` for all that would
-- follow it; Simulator/World/Azimuth shows what is enough.
pub mod Azimuth
pub mod Population
use net_node_gateway.Prelude.{
  ℕ, zero, suc, Bool, true, false, Option, none, some, List, [], ◌∷◌, ◌++◌, length, if◌then◌else◌,
}
use net_node_gateway.Simulator.{WorldObject}
use net_node_gateway.Simulator.Machine.{Arithmetic}

pub record WorldModel (D : Type 0) : Type 0 where
  pub objects : List (WorldObject D)

abbrev pub new_world : {D : Type 0} → WorldModel D
new_world = record { objects = [] }

module _ {D : Type 0} where
  abbrev pub add_object : WorldModel D → WorldObject D → WorldModel D
  add_object w obj = record w { objects = w.objects ++ obj ∷ [] }

  abbrev pub active_count : WorldModel D → ℕ
  active_count w = length w.objects

module _ {D : Type 0} (a : Arithmetic D) where
  abbrev pi : D
  pi = a.literal 314159265358979323846 20

  abbrev deg_to_rad : D
  deg_to_rad = a.div pi (a.literal 180 0)

  abbrev rad_to_deg : D
  rad_to_deg = a.div (a.literal 180 0) pi

  abbrev pub min_range_m : D
  min_range_m = a.literal 50 0

  abbrev pub zero_deg : D
  zero_deg = a.literal 0 0

  abbrev pub full_turn : D
  full_turn = a.literal 360 0

  -- `while (azimuth < 0.0) azimuth += 360.0`; `none` where the loop has not ended within the rounds.
  unfoldable pub raise : ℕ → D → Option D
  raise zero x = if a.lt x zero_deg then none else some x
  raise (suc fuel) x =
      let rest = raise fuel (a.add x full_turn) in if a.lt x zero_deg then rest else some x

  -- `while (azimuth >= 360.0) azimuth -= 360.0`
  unfoldable pub reduce : ℕ → D → Option D
  reduce zero x = if a.le full_turn x then none else some x
  reduce (suc fuel) x =
      let rest = reduce fuel (a.sub x full_turn) in if a.le full_turn x then rest else some x

  -- the two loops, one behind the other
  unfoldable pub settle : ℕ → D → Option D
  unfolding raise reduce
  settle fuel x = elim (raise fuel x) [ none ↦ none | some y ↦ reduce fuel y ]

  abbrev pub radial : D → WorldObject D → D
  radial dt obj =
      a.add obj.range_m (a.mul (a.mul obj.speed_mps (a.cos (a.mul obj.heading_deg deg_to_rad))) dt)

  -- the azimuth before it is brought into range
  abbrev pub turned : D → WorldObject D → D
  turned dt obj =
      let tangential_delta =
        a.mul (a.mul obj.speed_mps (a.sin (a.mul obj.heading_deg deg_to_rad))) dt in
      a.add obj.azimuth_deg (a.mul (a.div tangential_delta (radial dt obj)) rad_to_deg)

  abbrev pub with_azimuth : WorldObject D → Option D → Option (WorldObject D)
  with_azimuth obj none = none
  with_azimuth obj (some azimuth) = some (record obj { azimuth_deg = azimuth })

  -- The body of the loop of `tick`.
  unfoldable pub move : ℕ → D → WorldObject D → Option (WorldObject D)
  unfolding settle
  move fuel dt obj =
      let nearer = record obj { range_m = radial dt obj } in
      if a.lt min_range_m (radial dt obj)
      then with_azimuth nearer (settle fuel (turned dt obj))
      else some nearer

  abbrev pub onto :
      Option (WorldObject D) → Option (List (WorldObject D)) → Option (List (WorldObject D))
  onto none moved = none
  onto (some obj) none = none
  onto (some obj) (some objects) = some (obj ∷ objects)

  -- The loop of `tick`.
  unfoldable pub move_all : ℕ → D → List (WorldObject D) → Option (List (WorldObject D))
  unfolding move
  move_all fuel dt [] = some []
  move_all fuel dt (obj ∷ objects) = onto (move fuel dt obj) (move_all fuel dt objects)

  unfoldable pub is_gone : D → WorldObject D → Bool
  is_gone now obj =
      if a.lt obj.range_m min_range_m
      then true
      else if a.lt (a.add obj.spawn_time_s obj.lifetime_s) now
      then true
      else false

  -- `erase` with `remove_if`
  unfoldable pub remove_gone : D → List (WorldObject D) → List (WorldObject D)
  unfolding is_gone
  remove_gone now [] = []
  remove_gone now (obj ∷ objects) =
      let rest = remove_gone now objects in if is_gone now obj then rest else obj ∷ rest

  abbrev pub left_over : D → WorldModel D → Option (List (WorldObject D)) → Option (WorldModel D)
  left_over now w none = none
  left_over now w (some moved) = some (record w { objects = remove_gone now moved })

  unfoldable pub tick : ℕ → D → D → WorldModel D → Option (WorldModel D)
  unfolding move_all remove_gone
  tick fuel dt now w = left_over now w (move_all fuel dt w.objects)
