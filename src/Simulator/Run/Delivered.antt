-- ===== src/Simulator/Run/Delivered.antt =====
-- src/sensor_sim/sensor_sim_main.cpp and src/gateway/gateway.cpp together: a whole run without faults,
-- and what a gateway makes of its frames.
use net_node_gateway.Prelude.{
  ℕ, ◌%◌, ◌^◌, ◌≡◌, refl, sym, ap, subst, ◌∙◌, some, List, [], length, arith,
}
use net_node_gateway.Gateway.{Gateway}
use net_node_gateway.Simulator.Machine.{Arithmetic, Random}
use net_node_gateway.Simulator.Measurements.{Frame, new_generator}
use net_node_gateway.Simulator.Measurements.Numbered.{IsReady, Emits, Emits-nothing}
use net_node_gateway.Simulator.Faults.{FaultConfig}
use net_node_gateway.Simulator.Objects.{ScenarioProfile}
use net_node_gateway.Simulator.Objects.Spawned.{IsSound}
use net_node_gateway.Simulator.Run.{
  Sink, Simulation, new_simulation, simulate, total_ticks, add_all,
}
use net_node_gateway.Simulator.Run.Ending.{ticks-keeps, populate-IsBatch, simulate-ticks}
use net_node_gateway.Simulator.Run.Stream.{IsReliable, IsOff, Streams, step-Streams}

module _ {ℓ} {W : Type ℓ} {D R N : Type 0} (a : Arithmetic D) (r : Random D R N) {k : Sink W}
    {taken : W → List Frame} (good : IsReliable k taken) where
  -- What a run without faults has sent when it has ended.
  pub simulate-Streams :
      (fuel : ℕ) (rate_hz duration_s : D) (config : FaultConfig D) (profile : ScenarioProfile D)
      (seed1 seed2 seed3 : R) (w : W) (s' : Simulation D R W)
      → IsOff a config
      → IsSound profile
      → taken w ≡ []
      → simulate a r k fuel rate_hz duration_s
          (new_simulation a r config profile seed1 seed2 seed3 w)
        ≡ some s'
      → Streams a r good (new_generator 1 seed2) s'
  simulate-Streams fuel rate_hz duration_s config profile seed1 seed2 seed3 w s' off sound fresh
        ran =
      let s = new_simulation a r config profile seed1 seed2 seed3 w in
      let (objects, g', made, fewest, most, batch) =
        populate-IsBatch a r k config profile seed1 seed2 seed3 w sound in
      let s0 = record s { generator = g'; world = add_all s.world objects } in
      let m = new_generator 1 seed2 in
      let ready : IsReady m = (omega arith, omega arith) in
      let start : Streams a r good m s0 = record {
        emits = subst (λ fs. Emits m fs m) (sym fresh) (Emits-nothing m m (omega arith) refl refl);
        ready = ready;
        off = off;
        counted = ap (λ fs. length fs % 2 ^ 64) (sym fresh);
      } in
      let (n, st) =
        ticks-keeps a r k (λ left. Streams a r good m) fuel (a.div (a.literal 1 0) rate_hz)
          (a.bits 4 rate_hz)
          (λ left number t t' st e.
            step-Streams a r good m fuel (a.div (a.literal 1 0) rate_hz) number t t' ready st e)
          (total_ticks a duration_s rate_hz) 0 s0 s' start
          (sym (simulate-ticks a r k fuel rate_hz duration_s s s0 made) ∙ ran) in
      st
