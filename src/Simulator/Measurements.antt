-- ===== src/Simulator/Measurements.antt =====
-- src/sensor_sim/measurement_generator.cpp and measurement_generator.h: the frames that a sensor
-- sends for the objects of the world. `D`, `R` and `N` are the types of Simulator/Machine.
pub mod Numbered
pub mod Batches
use net_node_gateway.Prelude.{
  ℕ, ◌+◌, ◌/◌, ◌%◌, ◌^◌, Bool, true, false, ◌||◌, Option, none, some, List, [], ◌∷◌, ◌++◌, length,
  take, drop, repeat, ltb, leb, ◌==◌, if◌then◌else◌,
}
use net_node_gateway.Types.{
  protocol_version, frame_header_size, MsgType, msg_type_value, plot, track, heartbeat, TrackClass,
  uav_small, uav_large, missile, rocket_artillery, track_class_value, low, medium, high, critical,
  threat_level_value, friend, foe, iff_status_value, SubsystemState, subsystem_state_value,
  WeaponMode, weapon_mode_value,
}
use net_node_gateway.Protocol.{
  TelemetryHeader, PlotPayload, TrackPayload, HeartbeatPayload, EngagementPayload, serialize_header,
  memcpy, plot_struct, track_struct, heartbeat_struct, engagement_struct,
}
use net_node_gateway.Protocol.Layout.{store}
use net_node_gateway.Simulator.{WorldObject}
use net_node_gateway.Simulator.Machine.{Arithmetic, Random, max_real, clamp_real}

pub record MeasurementGenerator (R : Type 0) : Type 0 where
  pub src_id : ℕ
  pub seq : ℕ
  pub rng : R
  pub plot_id : ℕ
  pub track_update_counts : ℕ → ℕ

-- The constructor; `rng` is the engine seeded with its argument.
abbrev pub new_generator : {R : Type 0} → ℕ → R → MeasurementGenerator R
new_generator src_id rng = record {
  src_id = src_id;
  seq = 0;
  rng = rng;
  plot_id = 1;
  track_update_counts = λ i. 0;
}

abbrev pub Frame : Type 0
Frame = List ℕ

-- `payload_len` is the size of the struct at `payload` at every call.
unfoldable pub build_frame :
    {R : Type 0} → MeasurementGenerator R → MsgType → List ℕ → ℕ → Frame × MeasurementGenerator R
unfolding serialize_header memcpy
build_frame g type payload timestamp_ns =
    let hdr : TelemetryHeader = record {
      version = protocol_version;
      msg_type = msg_type_value type;
      src_id = g.src_id;
      seq = g.seq;
      ts_ns = timestamp_ns;
      payload_len = length payload;
    } in
    let buf = serialize_header hdr (repeat (frame_header_size + length payload) 0) in
    (
      take frame_header_size buf ++ memcpy (drop frame_header_size buf) payload,
      record g { seq = (g.seq + 1) % 2 ^ 32 },
    )

-- `generate_tracks`: the threat of an object
unfoldable pub hostile_threat : TrackClass → ℕ
hostile_threat missile = threat_level_value critical
hostile_threat rocket_artillery = threat_level_value critical
hostile_threat uav_small = threat_level_value high
hostile_threat uav_large = threat_level_value high
hostile_threat _ = threat_level_value medium

-- `std::clamp` on the image of an `int`
unfoldable pub clamp_int : ℕ → ℕ → ℕ → ℕ
clamp_int v lo hi = if leb (2 ^ 31) v || ltb v lo then lo else if ltb hi v then hi else v

abbrev pub push : Option Frame → List Frame → List Frame
push none frames = frames
push (some frame) frames = frame ∷ frames

module _ {R : Type 0} where
  unfoldable pub generate_engagement :
      MeasurementGenerator R → ℕ → WeaponMode → ℕ → ℕ → ℕ → ℕ → ℕ → Frame × MeasurementGenerator R
  generate_engagement g weapon_id mode assigned_track rounds barrel_temp bursts timestamp_ns =
      build_frame g MsgType.engagement
        (store engagement_struct (record {
          weapon_id = weapon_id;
          mode = weapon_mode_value mode;
          assigned_track = assigned_track;
          rounds_remaining = rounds;
          barrel_temp_c = barrel_temp;
          burst_count = bursts;
        }))
        timestamp_ns

module _ {D R N : Type 0} (a : Arithmetic D) (r : Random D R N) where
  unfoldable pub generate_heartbeat : MeasurementGenerator R → ℕ → Frame × MeasurementGenerator R
  generate_heartbeat g timestamp_ns =
      let (cpu, rng) = r.uniform_int 10 60 g.rng in
      let (mem, rng') = r.uniform_int 20 70 rng in
      build_frame (record g { rng = rng' }) heartbeat
        (store heartbeat_struct (record {
          subsystem_id = g.src_id;
          state = subsystem_state_value SubsystemState.ok;
          cpu_pct = cpu % 2 ^ 8;
          mem_pct = mem % 2 ^ 8;
          uptime_s = timestamp_ns / 1000000000 % 2 ^ 32;
          error_code = 0;
        }))
        timestamp_ns

  abbrev radial_speed : WorldObject D → D
  radial_speed obj =
      a.mul (a.neg obj.speed_mps)
        (a.cos (a.div (a.mul obj.heading_deg (a.literal 314159265 8)) (a.literal 180 0)))

  unfoldable pub detection_probability : WorldObject D → D
  detection_probability obj =
      let rcs_linear = a.pow (a.literal 10 0) (a.div obj.rcs_dbsm (a.literal 10 0)) in
      let range_km = a.div obj.range_m (a.literal 1000 0) in
      clamp_real a (a.div rcs_linear (a.mul range_km range_km)) (a.literal 1 1) (a.literal 1 0)

  -- The body of the loop of `generate_plots`; `none` is its `continue`.
  unfoldable pub plot_object :
      MeasurementGenerator R → WorldObject D → ℕ → Option Frame × MeasurementGenerator R
  plot_object g obj timestamp_ns =
      let p_detect = detection_probability obj in
      let (u, rng) = r.uniform_real (a.literal 0 0) (a.literal 1 0) g.rng in
      let noise = r.normal (a.literal 0 0) obj.noise_stddev in
      let (n1, (noise1, rng1)) = r.draw noise rng in
      let (n2, (noise2, rng2)) = r.draw noise1 rng1 in
      let (n3, (noise3, rng3)) = r.draw noise2 rng2 in
      let (n4, (noise4, rng4)) = r.draw noise3 rng3 in
      let cent = a.literal 1 2 in
      let thousand = a.literal 1000 0 in
      let pp : PlotPayload = record {
        plot_id = g.plot_id;
        azimuth_mdeg = a.bits 4 (a.mul (a.add obj.azimuth_deg (a.mul n1 cent)) thousand);
        elevation_mdeg = a.bits 4 (a.mul (a.add obj.elevation_deg (a.mul n2 cent)) thousand);
        range_m = a.bits 4 (max_real a (a.literal 0 0) (a.add obj.range_m n3));
        amplitude_db =
            a.bits 2 (a.add (a.mul obj.rcs_dbsm (a.literal 10 0)) (a.mul n4 (a.literal 5 0)));
        doppler_mps = a.bits 2 (radial_speed obj);
        quality = clamp_int (a.bits 4 (a.mul p_detect (a.literal 100 0))) 10 100 % 2 ^ 8;
      } in
      let (frame, g') =
        build_frame (record g { rng = rng4; plot_id = (g.plot_id + 1) % 2 ^ 32 }) plot
          (store plot_struct pp) timestamp_ns in
      if a.lt p_detect u then (none, record g { rng = rng }) else (some frame, g')

  unfoldable pub generate_plots :
      MeasurementGenerator R → List (WorldObject D) → ℕ → List Frame × MeasurementGenerator R
  generate_plots g [] timestamp_ns = ([], g)
  generate_plots g (obj ∷ objects) timestamp_ns =
      let (frame, g') = plot_object g obj timestamp_ns in
      let (frames, g'') = generate_plots g' objects timestamp_ns in (push frame frames, g'')

  -- The body of the loop of `generate_tracks`, with the distribution that its rounds share.
  unfoldable pub track_object :
      MeasurementGenerator R → N → WorldObject D → ℕ → Frame × (N × MeasurementGenerator R)
  track_object g noise obj timestamp_ns =
      let tid_idx = obj.id % 2 ^ 16 in
      let count = (g.track_update_counts tid_idx + 1) % 2 ^ 16 in
      let (n1, (noise1, rng1)) = r.draw noise g.rng in
      let (n2, (noise2, rng2)) = r.draw noise1 rng1 in
      let (n3, (noise3, rng3)) = r.draw noise2 rng2 in
      let thousand = a.literal 1000 0 in
      let ten = a.literal 10 0 in
      let tp : TrackPayload = record {
        track_id = obj.id;
        classification = track_class_value obj.classification;
        threat_level =
            if obj.is_hostile then hostile_threat obj.classification else threat_level_value low;
        iff_status = if obj.is_hostile then iff_status_value foe else iff_status_value friend;
        azimuth_mdeg =
            a.bits 4
              (a.add (a.mul obj.azimuth_deg thousand) (a.mul (a.mul n1 obj.noise_stddev) ten));
        elevation_mdeg =
            a.bits 4
              (a.add (a.mul obj.elevation_deg thousand) (a.mul (a.mul n2 obj.noise_stddev) ten));
        range_m =
            a.bits 4 (max_real a (a.literal 0 0) (a.add obj.range_m (a.mul n3 obj.noise_stddev)));
        velocity_mps = a.bits 2 (radial_speed obj);
        rcs_dbsm = a.bits 2 (a.mul obj.rcs_dbsm (a.literal 100 0));
        update_count = count;
      } in
      let counted = record g {
        rng = rng3;
        track_update_counts = λ i. if i == tid_idx then count else g.track_update_counts i;
      } in
      let (frame, g') = build_frame counted track (store track_struct tp) timestamp_ns in
      (frame, (noise3, g'))

  unfoldable pub tracks_loop :
      MeasurementGenerator R → N → List (WorldObject D) → ℕ → List Frame × MeasurementGenerator R
  tracks_loop g noise [] timestamp_ns = ([], g)
  tracks_loop g noise (obj ∷ objects) timestamp_ns =
      let (frame, (noise', g')) = track_object g noise obj timestamp_ns in
      let (frames, g'') = tracks_loop g' noise' objects timestamp_ns in (frame ∷ frames, g'')

  unfoldable pub generate_tracks :
      MeasurementGenerator R → List (WorldObject D) → ℕ → List Frame × MeasurementGenerator R
  generate_tracks g objects timestamp_ns =
      tracks_loop g (r.normal (a.literal 0 0) (a.literal 1 0)) objects timestamp_ns
