-- ===== src/Simulator/Run/Ending.antt =====
-- src/sensor_sim/sensor_sim_main.cpp: when a run ends, and what holds then of the state that it leaves.
use net_node_gateway.Prelude.{List, length, arith}
use net_node_gateway.Prelude.{
  ℕ, zero, suc, ◌+◌, ◌≤◌, ◌≡◌, refl, sym, subst, ◌∙◌, ◌⊎◌, inl, inr, Bool, true, false, Option,
  none, some, ◌==◌, if◌then◌else◌,
}
use mathlib.Core.Option.{some-injective}
use net_node_gateway.Simulator.Machine.{Arithmetic, Random}
use net_node_gateway.Simulator.World.{WorldModel}
use net_node_gateway.Simulator.{WorldObject}
use net_node_gateway.Simulator.Faults.{FaultConfig}
use net_node_gateway.Simulator.Objects.{
  ScenarioProfile, ObjectGenerator, new_object_generator, maybe_spawn,
}
use net_node_gateway.Simulator.Objects.Spawned.{IsSound, IsBatch, generate_initial-IsBatch}
use net_node_gateway.Simulator.World.{tick}
use net_node_gateway.Simulator.World.Population.{add_spawned}
use net_node_gateway.Simulator.Run.{
  Sink, Simulation, new_simulation, add_all, after_tick, continue_round, step, ticks, populate,
  simulate, total_ticks,
}

module _ {ℓ} {W : Type ℓ} {D R N : Type 0} (a : Arithmetic D) (r : Random D R N) (k : Sink W) where
  -- A new simulation with a sound profile is populated.
  pub populate-IsBatch :
      (config : FaultConfig D) (profile : ScenarioProfile D) (seed1 seed2 seed3 : R) (w : W)
      → IsSound profile
      → let g = new_object_generator a profile seed1 in
        let s = new_simulation a r config profile seed1 seed2 seed3 w in
        (objects : List (WorldObject D)) × (g' : ObjectGenerator D R) × (populate a r s
          ≡ some (record s { generator = g'; world = add_all s.world objects }))
        × (profile.min_objects ≤ length objects)
        × (length objects ≤ profile.max_objects)
        × IsBatch g objects g'
  unfolding populate
  populate-IsBatch config profile seed1 seed2 seed3 w sound =
      let g = new_object_generator a profile seed1 in
      let (objects, g', made, fewest, most, batch) =
        generate_initial-IsBatch a r g sound.types sound.order sound.small
          (omega (arith, sound.small)) in
      (objects, g', rw (made, populate) refl, fewest, most, batch)

  -- Whether the loops on the azimuth end within the fuel in every round that is left.
  unfoldable pub rounds_end : ℕ → D → ℕ → ℕ → Simulation D R W → Bool
  unfolding step
  rounds_end fuel dt zero number s = true
  rounds_end fuel dt (suc left) number s =
      if k.shutdown s.outside then true else elim (step a r k fuel dt number s) [
        | none ↦ false
        | some s' ↦ rounds_end fuel dt left (number + 1) s'
      ]

  -- The same of a whole run.
  unfoldable pub run_ends : ℕ → D → D → Simulation D R W → Bool
  unfolding populate rounds_end
  run_ends fuel rate_hz duration_s s = elim (populate a r s) [
    | none ↦ true
    | some s' ↦
        rounds_end fuel (a.div (a.literal 1 0) rate_hz) (total_ticks a duration_s rate_hz) 0 s'
  ]

  -- A round that ends has ticked the world.
  pub step-some :
      (fuel : ℕ) (dt : D) (number : ℕ) (s s' : Simulation D R W)
      → step a r k fuel dt number s ≡ some s'
      → let now = a.mul (a.of_unsigned number) dt in
        let (spawned, generator) = maybe_spawn a r s.generator now in
        (world : WorldModel D) × (tick a fuel dt now (add_spawned s.world spawned) ≡ some world)
        × (s' ≡ after_tick a r k number now s generator world)
  unfolding step
  step-some fuel dt number s s' e =
      let now = a.mul (a.of_unsigned number) dt in
      let (spawned, generator) = maybe_spawn a r s.generator now in
      continued (tick a fuel dt now (add_spawned s.world spawned)) now generator e
    where
      continued :
          (t : Option (WorldModel D)) (now : D) (generator : ObjectGenerator D R)
          → continue_round a r k number now s generator t ≡ some s'
          → (world : WorldModel D) × (t ≡ some world)
            × (s' ≡ after_tick a r k number now s generator world)
      continued none now generator e = absurd cc
      continued (some world) now generator e =
          (world, refl, some-injective s' (after_tick a r k number now s generator world) (sym e))

  -- A loop with a round to go is shut down, or makes the round.
  ticks-suc :
      (fuel : ℕ) (dt : D) (rate left number : ℕ) (s s' : Simulation D R W)
      → ticks a r k fuel dt rate (suc left) number s ≡ some s'
      → (s ≡ s')
        ⊎ ((t : Simulation D R W) × (step a r k fuel dt number s ≡ some t)
            × (ticks a r k fuel dt rate left (number + 1) t ≡ some s'))
  unfolding ticks
  ticks-suc fuel dt rate left number s s' e =
      turn (ticks a r k fuel dt rate left (number + 1)) (k.shutdown s.outside) (rate == 0)
        (step a r k fuel dt number s) e
    where
      turn :
          (f : Simulation D R W → Option (Simulation D R W)) (down stuck : Bool)
          (o : Option (Simulation D R W))
          → (if down then some s else if stuck then none else elim o [ none ↦ none | some t ↦ f t ])
            ≡ some s'
          → (s ≡ s') ⊎ ((t : Simulation D R W) × (o ≡ some t) × (f t ≡ some s'))
      turn f true stuck o e = inl (some-injective s s' e)
      turn f false true o e = absurd cc
      turn f false false none e = absurd cc
      turn f false false (some t) e = inr (t, refl, e)

  -- What every round keeps, with one round less to go, holds at the end.
  pub ticks-keeps {κ} :
      (P : ℕ → Simulation D R W → Type κ) (fuel : ℕ) (dt : D) (rate : ℕ)
      → ((left number : ℕ) (s t : Simulation D R W)
          → P (suc left) s
          → step a r k fuel dt number s ≡ some t
          → P left t)
      → (left number : ℕ) (s s' : Simulation D R W) → P left s
      → ticks a r k fuel dt rate left number s ≡ some s'
      → (n : ℕ) × P n s'
  unfolding ticks
  ticks-keeps P fuel dt rate keeps zero number s s' p e = (0, subst (P 0) (some-injective s s' e) p)
  ticks-keeps P fuel dt rate keeps (suc left) number s s' p e =
      elim (ticks-suc fuel dt rate left number s s' e) [
        | inl same ↦ (suc left, subst (P (suc left)) same p)
        | inr (t, e1, e2) ↦
            ticks-keeps P fuel dt rate keeps left (number + 1) t s' (keeps left number s t p e1) e2
      ]

  ticks-ends :
      (fuel : ℕ) (dt : D) (rate left number : ℕ) (s : Simulation D R W)
      → (rate == 0) ≡ false
      → rounds_end fuel dt left number s ≡ true
      → (s' : Simulation D R W) × (ticks a r k fuel dt rate left number s ≡ some s')
  unfolding ticks rounds_end
  ticks-ends fuel dt rate zero number s h ends = (s, refl)
  ticks-ends fuel dt rate (suc left) number s h ends =
      turn (ticks a r k fuel dt rate left (number + 1)) (rounds_end fuel dt left (number + 1))
        (k.shutdown s.outside) (rate == 0) (step a r k fuel dt number s) h
        (λ t. ticks-ends fuel dt rate left (number + 1) t h) ends
    where
      turn :
          (f : Simulation D R W → Option (Simulation D R W)) (g : Simulation D R W → Bool)
          (down stuck : Bool) (o : Option (Simulation D R W))
          → stuck ≡ false
          → ((t : Simulation D R W) → g t ≡ true → (s' : Simulation D R W) × (f t ≡ some s'))
          → (if down then true else elim o [ none ↦ false | some t ↦ g t ]) ≡ true
          → (s' : Simulation D R W) × ((if down
                then some s
                else if stuck
                then none
                else elim o [ none ↦ none | some t ↦ f t ])
              ≡ some s')
      turn f g true stuck o h all ends = (s, refl)
      turn f g false true o h all ends = absurd cc
      turn f g false false none h all ends = absurd cc
      turn f g false false (some t) h all ends = all t ends

  -- The loop of a run whose initial objects are made.
  pub simulate-ticks :
      (fuel : ℕ) (rate_hz duration_s : D) (s s0 : Simulation D R W)
      → populate a r s ≡ some s0
      → simulate a r k fuel rate_hz duration_s s
        ≡ ticks a r k fuel
            (a.div (a.literal 1 0) rate_hz)
            (a.bits 4 rate_hz)
            (total_ticks a duration_s rate_hz)
            0
            s0
  unfolding simulate
  simulate-ticks fuel rate_hz duration_s s s0 e = rw (e, simulate) refl

  -- A run ends if its initial objects are made, the rate is 1 or more as an `int` and the loops on the
  -- azimuth end.
  pub simulate-ends :
      (fuel : ℕ) (rate_hz duration_s : D) (s s0 : Simulation D R W)
      → populate a r s ≡ some s0
      → (a.bits 4 rate_hz == 0) ≡ false
      → run_ends fuel rate_hz duration_s s ≡ true
      → (s' : Simulation D R W) × (simulate a r k fuel rate_hz duration_s s ≡ some s')
  unfolding run_ends
  simulate-ends fuel rate_hz duration_s s s0 e h ends =
      let dt = a.div (a.literal 1 0) rate_hz in
      let left = total_ticks a duration_s rate_hz in
      let same : run_ends fuel rate_hz duration_s s ≡ rounds_end fuel dt left 0 s0 =
        rw (e, run_ends) refl in
      let (s', q) = ticks-ends fuel dt (a.bits 4 rate_hz) left 0 s0 h (sym same ∙ ends) in
      (s', simulate-ticks fuel rate_hz duration_s s s0 e ∙ q)
