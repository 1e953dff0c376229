-- ===== src/Protocol.antt =====
-- src/common/protocol.h: the packed structs of the wire format. `memcpy` between such a struct and
-- a buffer is `store` and `load`; a pointer into a buffer is the list of bytes from it on. Signed
-- fields are kept as their bit patterns.
pub mod Layout
pub mod RoundTrip
mod Examples
use net_node_gateway.Prelude.{ℕ, List, [], ◌∷◌, ◌++◌, refl, get_or, drop, length}
use Layout.{PackedStruct, store, load}

pub record TelemetryHeader : Type 0 where
  pub version : ℕ
  pub msg_type : ℕ
  pub src_id : ℕ
  pub seq : ℕ
  pub ts_ns : ℕ
  pub payload_len : ℕ

pub record PlotPayload : Type 0 where
  pub plot_id : ℕ
  pub azimuth_mdeg : ℕ
  pub elevation_mdeg : ℕ
  pub range_m : ℕ
  pub amplitude_db : ℕ
  pub doppler_mps : ℕ
  pub quality : ℕ

pub record TrackPayload : Type 0 where
  pub track_id : ℕ
  pub classification : ℕ
  pub threat_level : ℕ
  pub iff_status : ℕ
  pub azimuth_mdeg : ℕ
  pub elevation_mdeg : ℕ
  pub range_m : ℕ
  pub velocity_mps : ℕ
  pub rcs_dbsm : ℕ
  pub update_count : ℕ

pub record HeartbeatPayload : Type 0 where
  pub subsystem_id : ℕ
  pub state : ℕ
  pub cpu_pct : ℕ
  pub mem_pct : ℕ
  pub uptime_s : ℕ
  pub error_code : ℕ

pub record EngagementPayload : Type 0 where
  pub weapon_id : ℕ
  pub mode : ℕ
  pub assigned_track : ℕ
  pub rounds_remaining : ℕ
  pub barrel_temp_c : ℕ
  pub burst_count : ℕ

abbrev pub header_struct : PackedStruct TelemetryHeader
header_struct = record {
  layout = 1 ∷ 1 ∷ 2 ∷ 4 ∷ 8 ∷ 2 ∷ [];
  fields = λ h. h.version ∷ h.msg_type ∷ h.src_id ∷ h.seq ∷ h.ts_ns ∷ h.payload_len ∷ [];
  build = λ vs. record {
    version = get_or vs 0 0;
    msg_type = get_or vs 1 0;
    src_id = get_or vs 2 0;
    seq = get_or vs 3 0;
    ts_ns = get_or vs 4 0;
    payload_len = get_or vs 5 0;
  };
  build-fields = λ h. refl;
}

abbrev pub plot_struct : PackedStruct PlotPayload
plot_struct = record {
  layout = 4 ∷ 4 ∷ 4 ∷ 4 ∷ 2 ∷ 2 ∷ 1 ∷ [];
  fields = λ p.
      p.plot_id ∷ p.azimuth_mdeg ∷ p.elevation_mdeg ∷ p.range_m ∷ p.amplitude_db ∷ p.doppler_mps
      ∷ p.quality ∷ [];
  build = λ vs. record {
    plot_id = get_or vs 0 0;
    azimuth_mdeg = get_or vs 1 0;
    elevation_mdeg = get_or vs 2 0;
    range_m = get_or vs 3 0;
    amplitude_db = get_or vs 4 0;
    doppler_mps = get_or vs 5 0;
    quality = get_or vs 6 0;
  };
  build-fields = λ p. refl;
}

abbrev pub track_struct : PackedStruct TrackPayload
track_struct = record {
  layout = 4 ∷ 1 ∷ 1 ∷ 1 ∷ 4 ∷ 4 ∷ 4 ∷ 2 ∷ 2 ∷ 2 ∷ [];
  fields = λ t.
      t.track_id ∷ t.classification ∷ t.threat_level ∷ t.iff_status ∷ t.azimuth_mdeg
      ∷ t.elevation_mdeg ∷ t.range_m ∷ t.velocity_mps ∷ t.rcs_dbsm ∷ t.update_count ∷ [];
  build = λ vs. record {
    track_id = get_or vs 0 0;
    classification = get_or vs 1 0;
    threat_level = get_or vs 2 0;
    iff_status = get_or vs 3 0;
    azimuth_mdeg = get_or vs 4 0;
    elevation_mdeg = get_or vs 5 0;
    range_m = get_or vs 6 0;
    velocity_mps = get_or vs 7 0;
    rcs_dbsm = get_or vs 8 0;
    update_count = get_or vs 9 0;
  };
  build-fields = λ t. refl;
}

abbrev pub heartbeat_struct : PackedStruct HeartbeatPayload
heartbeat_struct = record {
  layout = 2 ∷ 1 ∷ 1 ∷ 1 ∷ 4 ∷ 2 ∷ [];
  fields = λ h. h.subsystem_id ∷ h.state ∷ h.cpu_pct ∷ h.mem_pct ∷ h.uptime_s ∷ h.error_code ∷ [];
  build = λ vs. record {
    subsystem_id = get_or vs 0 0;
    state = get_or vs 1 0;
    cpu_pct = get_or vs 2 0;
    mem_pct = get_or vs 3 0;
    uptime_s = get_or vs 4 0;
    error_code = get_or vs 5 0;
  };
  build-fields = λ h. refl;
}

abbrev pub engagement_struct : PackedStruct EngagementPayload
engagement_struct = record {
  layout = 2 ∷ 1 ∷ 4 ∷ 2 ∷ 2 ∷ 2 ∷ [];
  fields = λ e.
      e.weapon_id ∷ e.mode ∷ e.assigned_track ∷ e.rounds_remaining ∷ e.barrel_temp_c ∷ e.burst_count
      ∷ [];
  build = λ vs. record {
    weapon_id = get_or vs 0 0;
    mode = get_or vs 1 0;
    assigned_track = get_or vs 2 0;
    rounds_remaining = get_or vs 3 0;
    barrel_temp_c = get_or vs 4 0;
    burst_count = get_or vs 5 0;
  };
  build-fields = λ e. refl;
}

-- `memcpy(dst, src, n)`: the n bytes of `src` over the first n of `dst`.
unfoldable pub memcpy : List ℕ → List ℕ → List ℕ
memcpy dst src = src ++ drop (length src) dst

unfoldable pub serialize_header : TelemetryHeader → List ℕ → List ℕ
unfolding memcpy
serialize_header h buf = memcpy buf (store header_struct h)

unfoldable pub deserialize_header : List ℕ → TelemetryHeader
deserialize_header buf = load header_struct buf

unfoldable pub serialize_plot : PlotPayload → List ℕ → List ℕ
unfolding memcpy
serialize_plot p buf = memcpy buf (store plot_struct p)

unfoldable pub deserialize_plot : List ℕ → PlotPayload
deserialize_plot buf = load plot_struct buf

unfoldable pub serialize_track : TrackPayload → List ℕ → List ℕ
unfolding memcpy
serialize_track t buf = memcpy buf (store track_struct t)

unfoldable pub deserialize_track : List ℕ → TrackPayload
deserialize_track buf = load track_struct buf

unfoldable pub serialize_heartbeat : HeartbeatPayload → List ℕ → List ℕ
unfolding memcpy
serialize_heartbeat hb buf = memcpy buf (store heartbeat_struct hb)

unfoldable pub deserialize_heartbeat : List ℕ → HeartbeatPayload
deserialize_heartbeat buf = load heartbeat_struct buf

unfoldable pub serialize_engagement : EngagementPayload → List ℕ → List ℕ
unfolding memcpy
serialize_engagement e buf = memcpy buf (store engagement_struct e)

unfoldable pub deserialize_engagement : List ℕ → EngagementPayload
deserialize_engagement buf = load engagement_struct buf
