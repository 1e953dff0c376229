-- ===== src/Simulator/Run/Crowd.antt =====
-- src/sensor_sim/sensor_sim_main.cpp: the objects of the world during a run.
use net_node_gateway.Prelude.{
  ℕ, suc, ◌+◌, ◌^◌, ◌<◌, ◌≡◌, sym, subst, ◌∙◌, true, false, some, List, [], ◌∷◌, ◌++◌, append_assoc,
  append-nil, length, All, arith, ◌==◌,
}
use net_node_gateway.Simulator.{WorldObject}
use net_node_gateway.Simulator.Machine.{Arithmetic, Random}
use net_node_gateway.Simulator.Faults.{FaultConfig}
use net_node_gateway.Simulator.Objects.{ScenarioProfile, ObjectGenerator, maybe_spawn}
use net_node_gateway.Simulator.Objects.Spawned.{IsSound, IsAllowed}
use net_node_gateway.Simulator.World.{WorldModel, add_object, new_world}
use net_node_gateway.Simulator.World.Population.{
  Ascends, Ascends-lower, HasIdsFrom-Ascends, IsPopulated, tick-IsPopulated,
}
use net_node_gateway.Simulator.Run.{
  Sink, Simulation, new_simulation, after_tick, step, simulate, total_ticks, add_all,
}
use net_node_gateway.Simulator.Run.Ending.{
  run_ends, step-some, ticks-keeps, populate-IsBatch, simulate-ticks, simulate-ends,
}

add_all_lem :
    {D : Type 0} (w : WorldModel D) (objects : List (WorldObject D))
    → (add_all w objects).objects ≡ w.objects ++ objects
add_all_lem w [] = sym (append-nil w.objects)
add_all_lem w (obj ∷ objects) =
    add_all_lem (add_object w obj) objects ∙ append_assoc w.objects (obj ∷ []) objects

module _ {ℓ} {W : Type ℓ} {D R N : Type 0} (a : Arithmetic D) (r : Random D R N) (k : Sink W) where
  -- The world is populated, and there is room for one more object in each round that is left.
  record HasRoom (profile : ScenarioProfile D) (left : ℕ) (s : Simulation D R W) : Type 0 where
    populated : IsPopulated s.generator s.world
    profile_kept : s.generator.profile ≡ profile
    room : s.generator.next_id + left < 2 ^ 32

  after_tick-HasRoom :
      (profile : ScenarioProfile D) (left number : ℕ) (now : D) (s : Simulation D R W)
      (generator : ObjectGenerator D R) (world : WorldModel D)
      → IsPopulated generator world
      → generator.profile ≡ profile
      → generator.next_id + left < 2 ^ 32
      → HasRoom profile left (after_tick a r k number now s generator world)
  unfolding after_tick
  after_tick-HasRoom profile left number now s generator world q kept room = record {
    populated = q;
    profile_kept = kept;
    room = room;
  }

  step-HasRoom :
      (profile : ScenarioProfile D) (fuel : ℕ) (dt : D)
      → 0 < length profile.allowed_types
      → (left number : ℕ) (s s' : Simulation D R W) → HasRoom profile (suc left) s
      → step a r k fuel dt number s ≡ some s'
      → HasRoom profile left s'
  step-HasRoom profile fuel dt types left number s s' p e =
      let now = a.mul (a.of_unsigned number) dt in
      let (world, ticked, same) = step-some a r k fuel dt number s s' e in
      let generator = (maybe_spawn a r s.generator now).1 in
      let (q, profiled, next) =
        tick-IsPopulated a r fuel s.generator s.world world dt now
          (subst (λ q. 0 < length q.allowed_types) (sym p.profile_kept) types)
          (omega (arith, p.room)) p.populated ticked in
      subst (HasRoom profile left) (sym same) (
        after_tick-HasRoom profile left number now s generator world q (profiled ∙ p.profile_kept)
          (omega (arith, next, p.room)))

  -- At the end of a run, whenever it is shut down, the ids of the objects in the world ascend strictly
  -- and are below the next id of the generator, so no two objects share one, and the class of each object
  -- is one that the profile names. The run ends if the loops on the azimuth end within the fuel and the
  -- rate is 1 or more as an `int`; the profile names a class and has bounds that are in order and no
  -- negative numbers, and the upper bound and the ticks are together below 2 ^ 32 - 1.
  pub simulate-IsPopulated :
      (fuel : ℕ) (rate_hz duration_s : D) (config : FaultConfig D) (profile : ScenarioProfile D)
      (seed1 seed2 seed3 : R) (w : W)
      → (a.bits 4 rate_hz == 0) ≡ false
      → IsSound profile
      → profile.max_objects + total_ticks a duration_s rate_hz + 1 < 2 ^ 32
      → run_ends a r k fuel rate_hz duration_s
          (new_simulation a r config profile seed1 seed2 seed3 w)
        ≡ true
      → (s' : Simulation D R W) × (simulate a r k fuel rate_hz duration_s
            (new_simulation a r config profile seed1 seed2 seed3 w)
          ≡ some s')
        × Ascends 0 s'.world.objects s'.generator.next_id
        × All (IsAllowed profile.allowed_types) s'.world.objects
  simulate-IsPopulated fuel rate_hz duration_s config profile seed1 seed2 seed3 w h sound few ends =
      let s = new_simulation a r config profile seed1 seed2 seed3 w in
      let (objects, g', made, fewest, most, batch) =
        populate-IsBatch a r k config profile seed1 seed2 seed3 w sound in
      let s0 = record s { generator = g'; world = add_all s.world objects } in
      let (s', e) = simulate-ends a r k fuel rate_hz duration_s s s0 made h ends in
      let all : objects ≡ (add_all new_world objects).objects =
        sym (add_all_lem new_world objects) in
      let ids : Ascends 0 objects g'.next_id = subst (Ascends 0 objects) (sym batch.next) (
        Ascends-lower 0 1 objects (1 + length objects) (omega arith)
          (HasIdsFrom-Ascends 1 objects batch.ids)) in
      let start : IsPopulated g' s0.world = record {
        ascends = subst (λ os. Ascends 0 os g'.next_id) all ids;
        allowed =
            subst (λ q. All (IsAllowed q.allowed_types) s0.world.objects) (sym batch.profile)
              (subst (All (IsAllowed profile.allowed_types)) all batch.allowed);
      } in
      let left = total_ticks a duration_s rate_hz in
      let (n, p) =
        ticks-keeps a r k (HasRoom profile) fuel (a.div (a.literal 1 0) rate_hz) (a.bits 4 rate_hz)
          (step-HasRoom profile fuel (a.div (a.literal 1 0) rate_hz) sound.types) left 0 s0 s'
          (record {
            populated = start;
            profile_kept = batch.profile;
            room = omega (arith, few, most, batch.next);
          })
          (sym (simulate-ticks a r k fuel rate_hz duration_s s s0 made) ∙ e) in
      (
        s',
        e,
        p.populated.ascends,
        subst (λ q. All (IsAllowed q.allowed_types) s'.world.objects) p.profile_kept
            p.populated.allowed,
      )
