-- ===== src/Protocol/Examples.antt =====
-- A header and payloads at concrete values.
use net_node_gateway.Prelude.{ℕ, ◌≡◌, List, [], ◌∷◌, arith}
use net_node_gateway.Protocol.{
  TelemetryHeader, PlotPayload, TrackPayload, HeartbeatPayload, EngagementPayload, serialize_plot,
  deserialize_plot, serialize_track, deserialize_track, serialize_heartbeat, deserialize_heartbeat,
  serialize_engagement, deserialize_engagement,
}
use net_node_gateway.Protocol.RoundTrip.{deserialize_payload-serialize_payload}

abbrev header_7 : TelemetryHeader
header_7 = record {
  version = 1;
  msg_type = 2;
  src_id = 7;
  seq = 300;
  ts_ns = 70000;
  payload_len = 25;
}

abbrev plot_1 : PlotPayload
plot_1 = record {
  plot_id = 1;
  azimuth_mdeg = 90000;
  elevation_mdeg = 4294967295;
  range_m = 1500;
  amplitude_db = 12;
  doppler_mps = 65535;
  quality = 80;
}

abbrev track_1 : TrackPayload
track_1 = record {
  track_id = 9;
  classification = 3;
  threat_level = 4;
  iff_status = 2;
  azimuth_mdeg = 1;
  elevation_mdeg = 2;
  range_m = 3;
  velocity_mps = 4;
  rcs_dbsm = 5;
  update_count = 6;
}

abbrev heartbeat_1 : HeartbeatPayload
heartbeat_1 = record {
  subsystem_id = 2;
  state = 1;
  cpu_pct = 50;
  mem_pct = 60;
  uptime_s = 3600;
  error_code = 0;
}

abbrev engagement_1 : EngagementPayload
engagement_1 = record {
  weapon_id = 1;
  mode = 2;
  assigned_track = 9;
  rounds_remaining = 250;
  barrel_temp_c = 40;
  burst_count = 3;
}

abbrev zeros : List ℕ
zeros = 0 ∷ 0 ∷ 0 ∷ 0 ∷ 0 ∷ 0 ∷ 0 ∷ 0 ∷ 0 ∷ 0 ∷ 0 ∷ 0 ∷ 0 ∷ 0 ∷ 0 ∷ 0 ∷ 0 ∷ 0 ∷ 0 ∷ []

deserialize_payload-serialize_payload_example :
    (deserialize_plot (serialize_plot plot_1 zeros) ≡ plot_1)
    × (deserialize_track (serialize_track track_1 zeros) ≡ track_1)
    × (deserialize_heartbeat (serialize_heartbeat heartbeat_1 zeros) ≡ heartbeat_1)
    × (deserialize_engagement (serialize_engagement engagement_1 zeros) ≡ engagement_1)
deserialize_payload-serialize_payload_example =
    deserialize_payload-serialize_payload plot_1 track_1 heartbeat_1 engagement_1 zeros
      (ground arith) (ground arith) (ground arith) (ground arith)
