-- ===== src/Types.antt =====
-- src/common/types.h: the enumerations with the numbers that stand for them on the wire, and the
-- sizes of a frame. `X_value` is `static_cast` to the underlying type.
use net_node_gateway.Prelude.{ℕ, Option, none, some, ◌==◌, if◌then◌else◌}

abbrev pub protocol_version : ℕ
protocol_version = 1

pub data MsgType : Type 0 where
  plot track heartbeat engagement : MsgType

abbrev pub msg_type_value : MsgType → ℕ
msg_type_value plot = 0x01
msg_type_value track = 0x02
msg_type_value heartbeat = 0x03
msg_type_value engagement = 0x04

-- `static_cast<MsgType>` as a `switch` reads it: `none` where no case fits.
abbrev pub msg_type_of : ℕ → Option MsgType
msg_type_of v =
    if v == 0x01
    then some plot
    else if v == 0x02
    then some track
    else if v == 0x03
    then some heartbeat
    else if v == 0x04
    then some engagement
    else none

pub data TrackClass : Type 0 where
  unknown fixed_wing rotary_wing uav_small uav_large missile rocket_artillery bird decoy :
      TrackClass

abbrev pub track_class_value : TrackClass → ℕ
track_class_value unknown = 0x00
track_class_value fixed_wing = 0x01
track_class_value rotary_wing = 0x02
track_class_value uav_small = 0x03
track_class_value uav_large = 0x04
track_class_value missile = 0x05
track_class_value rocket_artillery = 0x06
track_class_value bird = 0x07
track_class_value decoy = 0x08

pub data ThreatLevel : Type 0 where
  unknown low medium high critical : ThreatLevel

abbrev pub threat_level_value : ThreatLevel → ℕ
threat_level_value ThreatLevel.unknown = 0
threat_level_value low = 1
threat_level_value medium = 2
threat_level_value high = 3
threat_level_value critical = 4

pub data IffStatus : Type 0 where
  no_response friend foe pending : IffStatus

abbrev pub iff_status_value : IffStatus → ℕ
iff_status_value no_response = 0
iff_status_value friend = 1
iff_status_value foe = 2
iff_status_value pending = 3

pub data SubsystemState : Type 0 where
  ok degraded error offline : SubsystemState

abbrev pub subsystem_state_value : SubsystemState → ℕ
subsystem_state_value ok = 0
subsystem_state_value degraded = 1
subsystem_state_value error = 2
subsystem_state_value offline = 3

pub data WeaponMode : Type 0 where
  safe armed engaging cease_fire : WeaponMode

abbrev pub weapon_mode_value : WeaponMode → ℕ
weapon_mode_value safe = 0
weapon_mode_value armed = 1
weapon_mode_value engaging = 2
weapon_mode_value cease_fire = 3

pub data Severity : Type 0 where
  debug info warn alarm error fatal : Severity

abbrev pub severity_value : Severity → ℕ
severity_value debug = 0
severity_value info = 1
severity_value warn = 2
severity_value alarm = 3
severity_value Severity.error = 4
severity_value fatal = 5

pub data EventCategory : Type 0 where
  tracking threat iff engagement network health control : EventCategory

abbrev pub event_category_value : EventCategory → ℕ
event_category_value tracking = 0
event_category_value threat = 1
event_category_value iff = 2
event_category_value EventCategory.engagement = 3
event_category_value network = 4
event_category_value health = 5
event_category_value control = 6

pub data EventId : Type 0 where
  track_new track_update track_lost track_classify threat_eval threat_critical iff_response :
      EventId
  iff_foe engage_start engage_cease weapon_status ammo_low seq_gap seq_reorder : EventId
  frame_malformed crc_fail source_online source_timeout heartbeat_ok heartbeat_degrade : EventId
  heartbeat_error config_change : EventId

abbrev pub event_id_value : EventId → ℕ
event_id_value EventId.track_new = 256
event_id_value EventId.track_update = 257
event_id_value EventId.track_lost = 258
event_id_value EventId.track_classify = 259
event_id_value EventId.threat_eval = 512
event_id_value EventId.threat_critical = 513
event_id_value EventId.iff_response = 768
event_id_value EventId.iff_foe = 769
event_id_value EventId.engage_start = 1024
event_id_value EventId.engage_cease = 1025
event_id_value EventId.weapon_status = 1026
event_id_value EventId.ammo_low = 1027
event_id_value EventId.seq_gap = 1280
event_id_value EventId.seq_reorder = 1281
event_id_value EventId.frame_malformed = 1282
event_id_value EventId.crc_fail = 1283
event_id_value EventId.source_online = 1284
event_id_value EventId.source_timeout = 1285
event_id_value EventId.heartbeat_ok = 1536
event_id_value EventId.heartbeat_degrade = 1537
event_id_value EventId.heartbeat_error = 1538
event_id_value EventId.config_change = 1792

abbrev pub frame_header_size : ℕ
frame_header_size = 18

abbrev pub frame_crc_size : ℕ
frame_crc_size = 4

abbrev pub max_payload_size : ℕ
max_payload_size = 1024
