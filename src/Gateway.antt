-- ===== src/Gateway.antt =====
-- src/gateway/gateway.cpp and gateway.h: the processing of a frame. `W` is the world outside the
-- gateway: the clocks and what the callbacks of the event bus act on.
pub mod Config
pub mod Core
pub mod Accounting
pub mod Damage
pub mod Source
pub mod Drained
mod Examples
use net_node_gateway.Prelude.{
  ℕ, ◌-◌, ◌+◌, Bool, true, false, ◌&&◌, ◌||◌, Option, none, some, List, [], ◌∷◌, ◌++◌, length, leb,
  ◌==◌, if◌then◌else◌,
}
use net_node_gateway.Prelude.Text.{codes, decimal}
use net_node_gateway.Types.{
  MsgType, plot, track, heartbeat, msg_type_of, SubsystemState, offline, subsystem_state_value,
  Severity, debug, info, warn, alarm, EventCategory, tracking, network, health, EventId,
}
use net_node_gateway.Types
use net_node_gateway.Protocol.{
  TelemetryHeader, deserialize_track, deserialize_plot, deserialize_heartbeat,
  deserialize_engagement,
}
use net_node_gateway.Parser.{ParseError, ParsedFrame, parse_frame}
use net_node_gateway.Tracker.{empty_tracker, SeqResult, SeqEvent, SequenceTracker}
use net_node_gateway.Tracker
use net_node_gateway.Stats.{
  empty_stats, StatsManager, record_rx, record_malformed, record_gap, record_reorder,
  record_duplicate, record_crc_fail,
}
use net_node_gateway.EventBus.{new_bus, EventRecord, EventBus, Callback, publish}
use net_node_gateway.Recorder.{new_recorder, FrameRecorder, record_frame}
use net_node_gateway.Logger.{set_level, Logger, Stamp, log}
use Config.{GatewayConfig}

-- What the gateway uses of its surroundings.
pub record Outside {ℓ} (W : Type ℓ) : Type ℓ where
  pub wall_now : W → Stamp × W
  pub steady_now : W → ℕ × W
  pub invoke : Callback → EventRecord → EventBus × W → EventBus × W

pub record Gateway {ℓ} (W : Type ℓ) : Type ℓ where
  pub config : GatewayConfig
  pub tracker : SequenceTracker
  pub stats : StatsManager
  pub events : EventBus
  pub recorder : FrameRecorder
  pub logger : Logger
  pub world : W

-- The constructor; `l` is the logger of the process.
abbrev pub new_gateway {ℓ} : {W : Type ℓ} → GatewayConfig → Logger → W → Gateway W
new_gateway config l w = record {
  config = config;
  tracker = empty_tracker;
  stats = empty_stats;
  events = new_bus;
  recorder = new_recorder;
  logger = set_level l config.log_level;
  world = w;
}

abbrev pub event_name : EventId → List ℕ
event_name Types.track_new = codes "EVT_TRACK_NEW"
event_name Types.track_update = codes "EVT_TRACK_UPDATE"
event_name Types.track_lost = codes "EVT_TRACK_LOST"
event_name Types.seq_gap = codes "EVT_SEQ_GAP"
event_name Types.seq_reorder = codes "EVT_SEQ_REORDER"
event_name Types.frame_malformed = codes "EVT_FRAME_MALFORMED"
event_name Types.crc_fail = codes "EVT_CRC_FAIL"
event_name Types.source_online = codes "EVT_SOURCE_ONLINE"
event_name Types.source_timeout = codes "EVT_SOURCE_TIMEOUT"
event_name Types.heartbeat_ok = codes "EVT_HEARTBEAT_OK"
event_name Types.heartbeat_degrade = codes "EVT_HEARTBEAT_DEGRADE"
event_name Types.heartbeat_error = codes "EVT_HEARTBEAT_ERROR"
event_name Types.config_change = codes "EVT_CONFIG_CHANGE"
event_name Types.weapon_status = codes "EVT_WEAPON_STATUS"
event_name _ = codes "UNKNOWN"

-- The default branch of the source is not reached: it stands for no error.
abbrev pub error_str : ParseError → List ℕ
error_str ParseError.too_short = codes "TOO_SHORT"
error_str ParseError.bad_version = codes "BAD_VERSION"
error_str ParseError.bad_msg_type = codes "BAD_MSG_TYPE"
error_str ParseError.payload_too_long = codes "PAYLOAD_TOO_LONG"
error_str ParseError.truncated = codes "TRUNCATED"
error_str ParseError.crc_mismatch = codes "CRC_MISMATCH"
error_str ParseError.ok = codes "UNKNOWN"

-- What `parsed` holds before the call.
abbrev pub no_frame : ParsedFrame
no_frame = record {
  header = record { version = 0; msg_type = 0; src_id = 0; seq = 0; ts_ns = 0; payload_len = 0 };
  payload_ptr = none;
  crc = 0;
  has_crc = false;
}

abbrev pub payload_of : Option (List ℕ) → List ℕ
payload_of none = []
payload_of (some bytes) = bytes

abbrev pub field : List ℕ → ℕ → List ℕ
field name n = name ++ decimal n

unfoldable pub heartbeat_event : ℕ → EventId × Severity
heartbeat_event state =
    if state == subsystem_state_value SubsystemState.degraded
    then (Types.heartbeat_degrade, warn)
    else if state == subsystem_state_value SubsystemState.error
        || state == subsystem_state_value offline
    then (Types.heartbeat_error, alarm)
    else (Types.heartbeat_ok, debug)

abbrev pub record_if_enabled {ℓ} : {W : Type ℓ} → Gateway W → List ℕ → ℕ → FrameRecorder
record_if_enabled g frame rx_timestamp_ns =
    if g.config.record_enabled && g.recorder.file.is_open
    then (record_frame g.recorder rx_timestamp_ns frame).0
    else g.recorder

module _ {ℓ} {W : Type ℓ} (o : Outside W) where
  unfoldable pub publish_event : Gateway W → EventId → EventCategory → Severity → List ℕ → Gateway W
  publish_event g id cat sev detail =
      let (logger, w) = log o.wall_now g.logger g.world sev cat (event_name id) detail in
      let (now, w') = o.steady_now w in
      let (events, w'') =
        publish o.invoke
          (record { id = id; category = cat; severity = sev; timestamp_ns = now; detail = detail })
          (g.events, w') in
      record g { logger = logger; events = events; world = w'' }

  -- The branch of `process_frame` for a frame that does not parse.
  unfoldable pub reject_frame : Gateway W → List ℕ → ParseError → Gateway W
  unfolding publish_event
  reject_frame g frame ParseError.crc_mismatch =
      publish_event (record g { stats = record_crc_fail (record_malformed g.stats 0) 0 })
        Types.crc_fail network warn (codes "error=" ++ error_str ParseError.crc_mismatch)
  reject_frame g frame err =
      publish_event (record g { stats = record_malformed g.stats 0 }) Types.frame_malformed network
        warn (codes "error=" ++ error_str err ++ field (codes " len=") (length frame))

  -- The switch on the verdict of the tracker.
  unfoldable pub handle_sequence : Gateway W → ℕ → SeqEvent → SeqResult → Gateway W
  unfolding publish_event
  handle_sequence g src_id ev SeqResult.first =
      publish_event g Types.source_online network info (field (codes "src_id=") src_id)
  handle_sequence g src_id ev SeqResult.gap =
      publish_event (record g { stats = record_gap g.stats src_id ev.gap_size }) Types.seq_gap
        network warn
        (field (codes "src_id=") src_id
          ++ field (codes " expected=") ev.expected_seq
          ++ field (codes " actual=") ev.actual_seq
          ++ field (codes " gap=") ev.gap_size)
  handle_sequence g src_id ev SeqResult.reorder =
      publish_event (record g { stats = record_reorder g.stats src_id }) Types.seq_reorder network
        warn
        (field (codes "src_id=") src_id
          ++ field (codes " expected=") ev.expected_seq
          ++ field (codes " actual=") ev.actual_seq)
  handle_sequence g src_id ev SeqResult.duplicate = record g {
    stats = record_duplicate g.stats src_id;
  }
  handle_sequence g src_id ev SeqResult.ok = g

  -- The switch on the type of the message, with the bytes from `payload_ptr` on.
  unfoldable pub handle_message : Gateway W → TelemetryHeader → List ℕ → Option MsgType → Gateway W
  unfolding publish_event heartbeat_event
  handle_message g h payload (some track) =
      if leb 25 h.payload_len
      then (let t = deserialize_track payload in
          publish_event g Types.track_update tracking debug (
            field (codes "src_id=") h.src_id
            ++ field (codes " track_id=") t.track_id
            ++ field (codes " class=") t.classification
            ++ field (codes " threat=") t.threat_level))
      else g
  handle_message g h payload (some plot) =
      if leb 21 h.payload_len
      then (let p = deserialize_plot payload in
          publish_event g Types.track_new tracking debug (
            field (codes "src_id=") h.src_id
            ++ field (codes " plot_id=") p.plot_id
            ++ field (codes " range=") p.range_m
            ++ codes "m"))
      else g
  handle_message g h payload (some heartbeat) =
      if leb 11 h.payload_len
      then (let hb = deserialize_heartbeat payload in
          let (id, sev) = heartbeat_event hb.state in
          publish_event g id health sev (
            field (codes "subsystem=") hb.subsystem_id
            ++ field (codes " state=") hb.state
            ++ field (codes " cpu=") hb.cpu_pct
            ++ codes "%"
            ++ field (codes " mem=") hb.mem_pct
            ++ codes "%"))
      else g
  handle_message g h payload (some MsgType.engagement) =
      if leb 13 h.payload_len
      then (let e = deserialize_engagement payload in
          publish_event g Types.weapon_status EventCategory.engagement info (
            field (codes "weapon=") e.weapon_id
            ++ field (codes " mode=") e.mode
            ++ field (codes " track=") e.assigned_track
            ++ field (codes " rounds=") e.rounds_remaining))
      else g
  handle_message g h payload none = g

  -- The branch of `process_frame` for a frame that parses.
  unfoldable pub accept_frame : Gateway W → ℕ → ParsedFrame → Gateway W
  unfolding handle_sequence handle_message
  accept_frame g rx_timestamp_ns parsed =
      let h = parsed.header in
      let (ev, tracker) = Tracker.track g.tracker h.src_id h.seq in
      let g' = record g {
        tracker = tracker;
        stats = record_rx g.stats h.src_id h.seq rx_timestamp_ns;
      } in
      handle_message (handle_sequence g' h.src_id ev ev.result) h (payload_of parsed.payload_ptr)
        (msg_type_of h.msg_type)

  abbrev pub after_parse : Gateway W → List ℕ → ℕ → ParseError × ParsedFrame → Gateway W
  after_parse g frame rx_timestamp_ns (ParseError.ok, parsed) =
      accept_frame g rx_timestamp_ns parsed
  after_parse g frame rx_timestamp_ns (err, parsed) = reject_frame g frame err

  unfoldable pub process_frame : Gateway W → List ℕ → ℕ → Gateway W
  unfolding accept_frame reject_frame
  process_frame g frame rx_timestamp_ns =
      after_parse (record g { recorder = record_if_enabled g frame rx_timestamp_ns }) frame
        rx_timestamp_ns (parse_frame frame g.config.crc_enabled no_frame)

  -- Frames and their times of arrival, one after the other.
  unfoldable pub process_all : Gateway W → List (List ℕ × ℕ) → Gateway W
  process_all g [] = g
  process_all g ((frame, rx_timestamp_ns) ∷ frames) =
      process_all (process_frame g frame rx_timestamp_ns) frames
