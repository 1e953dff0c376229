-- ===== src/Simulator/Measurements/Batches.antt =====
-- src/sensor_sim/measurement_generator.cpp: the frames of the objects of one tick, numbered one after the
-- other.
use net_node_gateway.Prelude.{
  ℕ, ◌^◌, ◌<◌, ◌≡◌, refl, sym, subst, Bool, true, false, Option, none, some, List, [], ◌∷◌, ◌++◌,
  if◌then◌else◌, arith,
}
use net_node_gateway.Prelude.Pack.{pack, pack_word}
use net_node_gateway.Types.{plot, track, heartbeat}
use net_node_gateway.Protocol.{plot_struct, track_struct, heartbeat_struct}
use net_node_gateway.Protocol.Layout.{store}
use net_node_gateway.Simulator.{WorldObject}
use net_node_gateway.Simulator.Machine.{Arithmetic, Random}
use net_node_gateway.Simulator.Measurements.{
  detection_probability, MeasurementGenerator, Frame, generate_heartbeat, plot_object,
  generate_plots, push, track_object, tracks_loop, generate_tracks,
}
use net_node_gateway.Simulator.Measurements.Numbered.{
  IsReady, Emits, Emits-from, Emits-nothing, Emits-append, Emits-IsReady, struct-Emits,
}

module _ {D R N : Type 0} (a : Arithmetic D) (r : Random D R N) where
  pub generate_heartbeat-Emits :
      (g : MeasurementGenerator R) (timestamp_ns : ℕ)
      → IsReady g
      → timestamp_ns < 2 ^ 64
      → let (frame, g') = generate_heartbeat a r g timestamp_ns in Emits g (frame ∷ []) g'
  unfolding generate_heartbeat
  generate_heartbeat-Emits g ts ready time = Emits-from g _ _ _ refl refl (
      struct-Emits heartbeat_struct (λ x. unfold store pack pack_word in omega arith) _ heartbeat _
        ts ready time)

  Sends : MeasurementGenerator R → Option Frame × MeasurementGenerator R → Type 0
  Sends g x = Emits g (push x.0 []) x.1

  either :
      (g : MeasurementGenerator R) (b : Bool) (x y : Option Frame × MeasurementGenerator R)
      → Sends g x
      → Sends g y
      → Sends g (if b then x else y)
  either g true x y s t = s
  either g false x y s t = t

  plot_object-Sends :
      (g : MeasurementGenerator R) (obj : WorldObject D) (timestamp_ns : ℕ)
      → IsReady g
      → timestamp_ns < 2 ^ 64
      → Sends g (plot_object a r g obj timestamp_ns)
  unfolding plot_object
  plot_object-Sends g obj ts ready time =
      let u = r.uniform_real (a.literal 0 0) (a.literal 1 0) g.rng in
      either g (a.lt (detection_probability a r obj) u.0) _ _
        (unfold Sends in Emits-nothing g _ ready.1 refl refl)
        (unfold Sends in
          Emits-from g _ _ _ refl refl (
            struct-Emits plot_struct (λ x. unfold store pack pack_word in omega arith) _ plot _ ts
              ready time))

  push-append : (o : Option Frame) (frames : List Frame) → push o frames ≡ push o [] ++ frames
  push-append none frames = refl
  push-append (some frame) frames = refl

  pub generate_plots-Emits :
      (g : MeasurementGenerator R) (objects : List (WorldObject D)) (timestamp_ns : ℕ)
      → IsReady g
      → timestamp_ns < 2 ^ 64
      → let (frames, g') = generate_plots a r g objects timestamp_ns in Emits g frames g'
  unfolding generate_plots Sends
  generate_plots-Emits g [] ts ready time = Emits-nothing g g ready.1 refl refl
  generate_plots-Emits g (obj ∷ objects) ts ready time =
      let one = plot_object-Sends g obj ts ready time in
      let (o, g') = plot_object a r g obj ts in
      let ready' = Emits-IsReady g (push o []) g' ready one in
      let (frames, g'') = generate_plots a r g' objects ts in
      subst (λ fs. Emits g fs g'') (sym (push-append o frames))
        (Emits-append g (push o []) g' frames g'' ready.1 one
          (generate_plots-Emits g' objects ts ready' time))

  track_object-Emits :
      (g : MeasurementGenerator R) (noise : N) (obj : WorldObject D) (timestamp_ns : ℕ)
      → IsReady g
      → timestamp_ns < 2 ^ 64
      → let (frame, (noise', g')) = track_object a r g noise obj timestamp_ns in
        Emits g (frame ∷ []) g'
  unfolding track_object
  track_object-Emits g noise obj ts ready time = Emits-from g _ _ _ refl refl (
      struct-Emits track_struct (λ x. unfold store pack pack_word in omega arith) _ track _ ts ready
        time)

  pub tracks_loop-Emits :
      (g : MeasurementGenerator R) (noise : N) (objects : List (WorldObject D)) (timestamp_ns : ℕ)
      → IsReady g
      → timestamp_ns < 2 ^ 64
      → let (frames, g') = tracks_loop a r g noise objects timestamp_ns in Emits g frames g'
  unfolding tracks_loop
  tracks_loop-Emits g noise [] ts ready time = Emits-nothing g g ready.1 refl refl
  tracks_loop-Emits g noise (obj ∷ objects) ts ready time =
      let one = track_object-Emits g noise obj ts ready time in
      let (frame, (noise', g')) = track_object a r g noise obj ts in
      let ready' = Emits-IsReady g (frame ∷ []) g' ready one in
      let (frames, g'') = tracks_loop a r g' noise' objects ts in
      Emits-append g (frame ∷ []) g' frames g'' ready.1 one
        (tracks_loop-Emits g' noise' objects ts ready' time)

  -- One tick's frames of tracks, plots and heartbeat are frames of the protocol without a checksum,
  -- from the generator's source, and carry its next numbers one after the other modulo 2 ^ 32; the
  -- generator goes on with the number after them. The source is below 2 ^ 16, the number below
  -- 2 ^ 32 and the time below 2 ^ 64.
  pub generate-Emits :
      (g : MeasurementGenerator R) (objects : List (WorldObject D)) (timestamp_ns : ℕ)
      → IsReady g
      → timestamp_ns < 2 ^ 64
      → let (tracks, g1) = generate_tracks a r g objects timestamp_ns in
        let (plots, g2) = generate_plots a r g1 objects timestamp_ns in
        let (beat, g3) = generate_heartbeat a r g2 timestamp_ns in
        Emits g (tracks ++ plots ++ beat ∷ []) g3
  unfolding generate_tracks
  generate-Emits g objects ts ready time =
      let noise = r.normal (a.literal 0 0) (a.literal 1 0) in
      let (tracks, g1) = tracks_loop a r g noise objects ts in
      let (plots, g2) = generate_plots a r g1 objects ts in
      let (beat, g3) = generate_heartbeat a r g2 ts in
      let first = tracks_loop-Emits g noise objects ts ready time in
      let ready1 = Emits-IsReady g tracks g1 ready first in
      let second = generate_plots-Emits g1 objects ts ready1 time in
      let ready2 = Emits-IsReady g1 plots g2 ready1 second in
      Emits-append g (tracks ++ plots) g2 (beat ∷ []) g3 ready.1
        (Emits-append g tracks g1 plots g2 ready.1 first second)
        (generate_heartbeat-Emits g2 ts ready2 time)
