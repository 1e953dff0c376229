-- ===== src/Programs/GatewayMain/Recording/Steps.antt =====
-- src/gateway/gateway.cpp: what the frames of a recording do to the statistics and to the recorder.
use net_node_gateway.Prelude.{
  ℕ, ◌≡◌, refl, ap, ap₂, ◌∙◌, Bool, true, ◌&&◌, List, [], ◌∷◌, arith, if◌then◌else◌,
}
use net_node_gateway.Parser.{parse_frame}
use net_node_gateway.Tracker.{SequenceTracker}
use net_node_gateway.Stats.{StatsManager}
use net_node_gateway.Stats.Ledger.{replay}
use net_node_gateway.Recorder.{FrameRecorder, record_frame}
use net_node_gateway.Recorder.Behaviour.{record_all}
use net_node_gateway.Gateway.{no_frame}
use net_node_gateway.Gateway.Core.{Core, frame_calls, tracker_after}
use net_node_gateway.Gateway.Drained.{core_steps, core_step}

-- The statistics after some frames, each with its time of arrival: those of the calls that each frame
-- makes, from the tracker that it finds.
abbrev pub stats_after : Bool → SequenceTracker → StatsManager → List (List ℕ × ℕ) → StatsManager
stats_after crc tracker stats [] = stats
stats_after crc tracker stats ((frame, ts) ∷ frames) =
    let read = parse_frame frame crc no_frame in
    stats_after crc (tracker_after tracker read) (replay stats (frame_calls tracker ts read)) frames

pub stats-core_steps :
    (c : Core) (arrived : List (List ℕ × ℕ))
    → (core_steps c arrived).stats ≡ stats_after c.config.crc_enabled c.tracker c.stats arrived
stats-core_steps c [] = refl
stats-core_steps c ((frame, ts) ∷ arrived) = stats-core_steps (core_step c frame ts) arrived

-- The frames with their times, as a recorder takes them.
abbrev pub timed : List (List ℕ × ℕ) → List (ℕ × List ℕ)
timed [] = []
timed ((frame, ts) ∷ arrived) = (ts, frame) ∷ timed arrived

is_open-record_frame :
    (r : FrameRecorder) (ts : ℕ) (frame : List ℕ)
    → (record_frame r ts frame).0.file.is_open ≡ r.file.is_open
unfolding record_frame
is_open-record_frame r ts frame = ground arith

pub recorder-core_steps :
    (c : Core) (arrived : List (List ℕ × ℕ))
    → c.config.record_enabled ≡ true
    → c.recorder.file.is_open ≡ true
    → (core_steps c arrived).recorder ≡ record_all c.recorder (timed arrived)
unfolding record_all
recorder-core_steps c [] e h = refl
recorder-core_steps c ((frame, ts) ∷ arrived) e h =
    let step : (core_step c frame ts).recorder ≡ (record_frame c.recorder ts frame).0 =
      ap₂ (λ b d. if b && d then (record_frame c.recorder ts frame).0 else c.recorder) e h in
    recorder-core_steps (core_step c frame ts) arrived e (
      ap (λ (r : FrameRecorder). r.file.is_open) step
      ∙ is_open-record_frame c.recorder ts frame
      ∙ h)
    ∙ ap (λ r. record_all r (timed arrived)) step
