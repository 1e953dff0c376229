-- ===== src/Gateway/Core.antt =====
-- src/gateway/gateway.cpp: the part of the gateway's state that events do not touch, and what a
-- frame does to it.
use net_node_gateway.Prelude.{
  ℕ, ◌≡◌, refl, ◌∙◌, Bool, true, false, Option, none, some, List, [], ◌∷◌, if◌then◌else◌,
}
use net_node_gateway.Types.{
  MsgType, track, plot, heartbeat, engagement, msg_type_of, EventId, EventCategory, Severity,
}
use net_node_gateway.Protocol.{TelemetryHeader}
use net_node_gateway.Parser.{ParseError, ParsedFrame, parse_frame}
use net_node_gateway.Tracker.{SeqResult, SeqEvent, SequenceTracker}
use net_node_gateway.Tracker
use net_node_gateway.Stats.{StatsManager, record_rx}
use net_node_gateway.Stats.Ledger.{
  Call, replay, rx, malformed, gap, reorder, duplicate, crc_fail, apply,
}
use net_node_gateway.Recorder.{FrameRecorder}
use net_node_gateway.Gateway.{
  Outside, Gateway, publish_event, reject_frame, handle_sequence, handle_message, accept_frame,
  process_frame, after_parse, record_if_enabled, no_frame, payload_of,
}
use net_node_gateway.Gateway.Config.{GatewayConfig}

pub record Core : Type 0 where
  pub config : GatewayConfig
  pub tracker : SequenceTracker
  pub stats : StatsManager
  pub recorder : FrameRecorder

abbrev pub core {ℓ} : {W : Type ℓ} → Gateway W → Core
core g = record { config = g.config; tracker = g.tracker; stats = g.stats; recorder = g.recorder }

-- The calls on the statistics that a verdict of the tracker asks for.
abbrev pub verdict_calls : ℕ → ℕ → SeqResult → List Call
verdict_calls src_id gap_size SeqResult.gap = gap src_id gap_size ∷ []
verdict_calls src_id gap_size SeqResult.reorder = reorder src_id ∷ []
verdict_calls src_id gap_size SeqResult.duplicate = duplicate src_id ∷ []
verdict_calls src_id gap_size _ = []

-- The calls for one frame, from what the parser answers and the tracker then says.
abbrev pub frame_calls : SequenceTracker → ℕ → ParseError × ParsedFrame → List Call
frame_calls t rx_timestamp_ns (ParseError.ok, parsed) =
    let ev = (Tracker.track t parsed.header.src_id parsed.header.seq).0 in
    rx parsed.header.src_id parsed.header.seq rx_timestamp_ns
    ∷ verdict_calls parsed.header.src_id ev.gap_size ev.result
frame_calls t rx_timestamp_ns (ParseError.crc_mismatch, parsed) = malformed 0 ∷ crc_fail 0 ∷ []
frame_calls t rx_timestamp_ns (_, parsed) = malformed 0 ∷ []

abbrev pub tracker_after : SequenceTracker → ParseError × ParsedFrame → SequenceTracker
tracker_after t (ParseError.ok, parsed) = (Tracker.track t parsed.header.src_id parsed.header.seq).1
tracker_after t (_, parsed) = t

-- What a frame does to the core.
abbrev pub core_after {ℓ} : {W : Type ℓ} → Gateway W → List ℕ → ℕ → Core
core_after g frame rx_timestamp_ns =
    let parsed = parse_frame frame g.config.crc_enabled no_frame in
    record {
      config = g.config;
      tracker = tracker_after g.tracker parsed;
      stats = replay g.stats (frame_calls g.tracker rx_timestamp_ns parsed);
      recorder = record_if_enabled g frame rx_timestamp_ns;
    }

module _ {ℓ} {W : Type ℓ} (o : Outside W) where
  core-publish_event :
      (g : Gateway W) (id : EventId) (cat : EventCategory) (sev : Severity) (detail : List ℕ)
      → core (publish_event o g id cat sev detail) ≡ core g
  unfolding publish_event
  core-publish_event g id cat sev detail = refl

  core-if : (b : Bool) (g g' : Gateway W) → core g' ≡ core g → core (if b then g' else g) ≡ core g
  core-if true g g' e = e
  core-if false g g' e = refl

  core-handle_message :
      (g : Gateway W) (h : TelemetryHeader) (payload : List ℕ) (t : Option MsgType)
      → core (handle_message o g h payload t) ≡ core g
  unfolding handle_message publish_event
  core-handle_message g h payload none = refl
  core-handle_message g h payload (some track) = core-if _ g _ refl
  core-handle_message g h payload (some plot) = core-if _ g _ refl
  core-handle_message g h payload (some heartbeat) = core-if _ g _ refl
  core-handle_message g h payload (some engagement) = core-if _ g _ refl

  core-handle_sequence :
      (g : Gateway W) (src_id : ℕ) (ev : SeqEvent) (r : SeqResult)
      → core (handle_sequence o g src_id ev r) ≡ record {
        config = g.config;
        tracker = g.tracker;
        stats = replay g.stats (verdict_calls src_id ev.gap_size r);
        recorder = g.recorder;
      }
  unfolding handle_sequence publish_event replay apply
  core-handle_sequence g src_id ev SeqResult.first = refl
  core-handle_sequence g src_id ev SeqResult.ok = refl
  core-handle_sequence g src_id ev SeqResult.gap = refl
  core-handle_sequence g src_id ev SeqResult.reorder = refl
  core-handle_sequence g src_id ev SeqResult.duplicate = refl

  core-after_parse :
      (g : Gateway W) (frame : List ℕ) (rx_timestamp_ns : ℕ) (p : ParseError × ParsedFrame)
      → core (after_parse o g frame rx_timestamp_ns p) ≡ record {
        config = g.config;
        tracker = tracker_after g.tracker p;
        stats = replay g.stats (frame_calls g.tracker rx_timestamp_ns p);
        recorder = g.recorder;
      }
  unfolding accept_frame reject_frame publish_event replay apply
  core-after_parse g frame ts (ParseError.ok, p) =
      let h = p.header in
      let (ev, t) = Tracker.track g.tracker h.src_id h.seq in
      let g' : Gateway W = record g { tracker = t; stats = record_rx g.stats h.src_id h.seq ts } in
      core-handle_message (handle_sequence o g' h.src_id ev ev.result) h (payload_of p.payload_ptr)
        (msg_type_of h.msg_type)
      ∙ core-handle_sequence g' h.src_id ev ev.result
  core-after_parse g frame ts (ParseError.too_short, p) = refl
  core-after_parse g frame ts (ParseError.bad_version, p) = refl
  core-after_parse g frame ts (ParseError.bad_msg_type, p) = refl
  core-after_parse g frame ts (ParseError.payload_too_long, p) = refl
  core-after_parse g frame ts (ParseError.truncated, p) = refl
  core-after_parse g frame ts (ParseError.crc_mismatch, p) = refl

  -- What a frame does to the configuration, the tracker, the statistics and the recorder, whatever the
  -- callbacks do to the bus and the world: the recorder takes the frame as it came, only an accepted
  -- frame moves the tracker, and the statistics take the calls of `frame_calls`.
  pub process_frame-core :
      (g : Gateway W) (frame : List ℕ) (rx_timestamp_ns : ℕ)
      → core (process_frame o g frame rx_timestamp_ns) ≡ core_after g frame rx_timestamp_ns
  unfolding process_frame
  process_frame-core g frame ts =
      core-after_parse (record g { recorder = record_if_enabled g frame ts }) frame ts
        (parse_frame frame g.config.crc_enabled no_frame)
