-- ===== src/Simulator/Run/Stream.antt =====
-- src/sensor_sim/sensor_sim_main.cpp: the frames that a run without faults sends.
use net_node_gateway.Prelude.{
  ℕ, ◌+◌, ◌%◌, ◌^◌, ◌<◌, ◌≡◌, refl, sym, ap, subst, ◌∙◌, Bool, true, false, some, List, [], ◌∷◌,
  ◌++◌, append_assoc, append-nil, length, length-append, arith, leb, ◌==◌, if◌then◌else◌,
}
use net_node_gateway.Simulator.{WorldObject}
use net_node_gateway.Simulator.Machine.{Arithmetic, Random}
use net_node_gateway.Simulator.Measurements.{
  MeasurementGenerator, Frame, generate_tracks, generate_plots, generate_heartbeat,
}
use net_node_gateway.Simulator.Measurements.Numbered.{IsReady, Emits, Emits-append, Emits-IsReady}
use net_node_gateway.Simulator.Measurements.Batches.{
  tracks_loop-Emits, generate_plots-Emits, generate-Emits,
}
use net_node_gateway.Simulator.Faults.{FaultConfig, FaultInjector, Batch, no_faults, apply}
use net_node_gateway.Simulator.Objects.{ObjectGenerator, maybe_spawn}
use net_node_gateway.Simulator.World.{WorldModel}
use net_node_gateway.Simulator.Run.{
  Sink, Simulation, measure, send_frames, add_count, after_tick, step,
}
use net_node_gateway.Simulator.Run.Ending.{step-some}

-- A sink whose sends succeed, with the frames it has taken.
pub record IsReliable {ℓ} {W : Type ℓ} (k : Sink W) (taken : W → List Frame) : Type ℓ where
  pub sends : (frame : Frame) (w : W) → (k.send frame w).0 ≡ true
  pub takes : (frame : Frame) (w : W) → taken (k.send frame w).1 ≡ taken w ++ frame ∷ []
  pub pauses : (w : W) → taken (k.pause w) ≡ taken w

module _ {ℓ} {W : Type ℓ} {k : Sink W} {taken : W → List Frame} (good : IsReliable k taken) where
  pub send_frames_lem :
      (frames : List Frame) (sent : ℕ) (w : W)
      → sent < 2 ^ 64
      → let (sent', w') = send_frames k frames sent w in
        (sent' ≡ (sent + length frames) % 2 ^ 64) × (taken w' ≡ taken w ++ frames)
  unfolding send_frames
  send_frames_lem [] sent w h = (omega arith, sym (append-nil (taken w)))
  send_frames_lem (frame ∷ frames) sent w h =
      let w' = (k.send frame w).1 in
      let (counted, stored) = send_frames_lem frames (add_count sent 1) w' (omega arith) in
      rw (good.sends frame w, send_frames)
        (
          omega (arith, counted),
          stored
              ∙ ap (λ ys. ys ++ frames) (good.takes frame w)
              ∙ append_assoc (taken w) (frame ∷ []) frames,
        )

module _ {D : Type 0} (a : Arithmetic D) where
  -- Every percentage is one that switches its pass off.
  pub record IsOff (config : FaultConfig D) : Type 0 where
    pub loss : a.lt (a.literal 0 0) config.loss_pct ≡ false
    pub reorders : a.lt (a.literal 0 0) config.reorder_pct ≡ false
    pub duplicates : a.lt (a.literal 0 0) config.duplicate_pct ≡ false
    pub corrupts : a.lt (a.literal 0 0) config.corrupt_pct ≡ false

module _ {D R N : Type 0} (a : Arithmetic D) (r : Random D R N) where
  pub generate_tracks-Emits :
      (m : MeasurementGenerator R) (objects : List (WorldObject D)) (timestamp_ns : ℕ)
      → IsReady m
      → timestamp_ns < 2 ^ 64
      → let (frames, m') = generate_tracks a r m objects timestamp_ns in Emits m frames m'
  unfolding generate_tracks
  generate_tracks-Emits m objects ts ready time =
      tracks_loop-Emits a r m (r.normal (a.literal 0 0) (a.literal 1 0)) objects ts ready time

  either_way :
      (m : MeasurementGenerator R) (b : Bool) (p q : List Frame × MeasurementGenerator R)
      → Emits m p.0 p.1
      → Emits m q.0 q.1
      → let out = if b then p else q in Emits m out.0 out.1
  either_way m true p q s t = s
  either_way m false p q s t = t

  pub measure-Emits :
      (m : MeasurementGenerator R) (objects : List (WorldObject D)) (number timestamp_ns : ℕ)
      → IsReady m
      → timestamp_ns < 2 ^ 64
      → let (frames, m') = measure a r m objects number timestamp_ns in Emits m frames m'
  unfolding measure
  measure-Emits m objects number ts ready time =
      let (tracks, m1) = generate_tracks a r m objects ts in
      let (plots, m2) = generate_plots a r m1 objects ts in
      let (beat, m3) = generate_heartbeat a r m2 ts in
      let first = generate_tracks-Emits m objects ts ready time in
      let ready1 = Emits-IsReady m tracks m1 ready first in
      let second = generate_plots-Emits a r m1 objects ts ready1 time in
      let both = Emits-append m tracks m1 plots m2 ready.1 first second in
      either_way m (number % 50 == 0) (tracks ++ plots ++ beat ∷ [], m3) (tracks ++ plots, m2)
        (generate-Emits a r m objects ts ready time) both

  unchanged : (two : Bool) (b : Batch R) → (if two then b else b).frames ≡ b.frames
  unchanged true b = refl
  unchanged false b = refl

  apply-IsOff :
      (i : FaultInjector D R) (frames : List Frame)
      → IsOff a i.config
      → let (out, i') = apply a r i frames in (out ≡ frames) × (i'.config ≡ i.config)
  unfolding apply
  apply-IsOff i [] off = (refl, refl)
  apply-IsOff i (frame ∷ frames) off = rw off.corrupts (
      rw off.duplicates (
        rw off.loss (
          rw off.reorders (
            unchanged (leb 2 (length (frame ∷ frames)))
                (record { frames = frame ∷ frames; rng = i.rng; stats = no_faults }),
            refl,
          ))))

module _ {ℓ} {W : Type ℓ} {D R N : Type 0} (a : Arithmetic D) (r : Random D R N) {k : Sink W}
    {taken : W → List Frame} (good : IsReliable k taken) where
  -- What a simulation without faults has sent since the generator `m`.
  pub record Streams (m : MeasurementGenerator R) (s : Simulation D R W) : Type ℓ where
    pub emits : Emits m (taken s.outside) s.measurer
    pub ready : IsReady s.measurer
    pub off : IsOff a s.injector.config
    pub counted : s.frames_sent ≡ length (taken s.outside) % 2 ^ 64

  after_tick-Streams :
      (m : MeasurementGenerator R) (number : ℕ) (now : D) (s : Simulation D R W)
      (generator : ObjectGenerator D R) (world : WorldModel D)
      → IsReady m
      → Streams m s
      → Streams m (after_tick a r k number now s generator world)
  unfolding after_tick
  after_tick-Streams m number now s generator world ready st =
      let ts = a.bits 8 (a.mul now (a.literal 1000000000 0)) in
      let (frames, measurer) = measure a r s.measurer world.objects number ts in
      let new =
        measure-Emits a r s.measurer world.objects number ts st.ready
          (a.bits_lt 8 (a.mul now (a.literal 1000000000 0))) in
      let (same, config) = apply-IsOff a r s.injector frames st.off in
      let damaged = (apply a r s.injector frames).0 in
      let w = (send_frames k damaged s.frames_sent s.outside).1 in
      let (counted, stored) =
        send_frames_lem good damaged s.frames_sent s.outside (omega (arith, st.counted)) in
      let all : taken (k.pause w) ≡ taken s.outside ++ frames =
        good.pauses w ∙ stored ∙ ap (λ fs. taken s.outside ++ fs) same in
      record {
        emits =
            subst (λ fs. Emits m fs measurer) (sym all)
              (Emits-append m (taken s.outside) s.measurer frames measurer ready.1 st.emits new);
        ready = Emits-IsReady s.measurer frames measurer st.ready new;
        off = subst (IsOff a) (sym config) st.off;
        counted = omega (
          arith,
          counted,
          st.counted,
          ap length all,
          length-append (taken s.outside) frames,
          ap length same,
        );
      }

  pub step-Streams :
      (m : MeasurementGenerator R) (fuel : ℕ) (dt : D) (number : ℕ) (s s' : Simulation D R W)
      → IsReady m
      → Streams m s
      → step a r k fuel dt number s ≡ some s'
      → Streams m s'
  step-Streams m fuel dt number s s' ready st e =
      let now = a.mul (a.of_unsigned number) dt in
      let (world, ticked, same) = step-some a r k fuel dt number s s' e in
      subst (Streams m) (sym same)
        (after_tick-Streams m number now s (maybe_spawn a r s.generator now).1 world ready st)
