-- ===== src/Gateway/Source.antt =====
-- src/gateway/gateway.cpp, frame_source.h: `run` on a source of frames, which the caller has opened:
-- `replay_source` below, or `udp_source` of Sockets. The loop's number is how often it finds
-- `should_stop_` unset, that is, when another thread calls `stop`.
use net_node_gateway.Prelude.{
  ℕ, zero, suc, Bool, true, false, Option, none, some, List, ◌++◌, if◌then◌else◌,
}
use net_node_gateway.Prelude.Text.{codes}
use net_node_gateway.Types.{Severity, info, warn, EventCategory, network, control}
use net_node_gateway.Recorder
use net_node_gateway.Replay.{ReplayFrameSource, Received, receive}
use net_node_gateway.Logger.{log}
use net_node_gateway.Gateway.{Outside, Gateway, process_frame, field}

-- `is_done` is true only of a replay that has come to its end.
pub record FrameSource {κ} (S : Type κ) : Type κ where
  pub receive : S → Option (List ℕ) × S
  pub is_done : S → Bool

abbrev pub found_frame : Received → Option (List ℕ)
found_frame r = if r.found then some r.buf else none

-- `run` sets the speed to 0, at which the source reads no clock.
abbrev pub replay_source : FrameSource ReplayFrameSource
replay_source = record {
  receive = λ s. (found_frame (receive s 0).0, (receive s 0).1);
  is_done = λ s. s.done;
}

module _ {ℓ κ} {W : Type ℓ} {S : Type κ} (o : Outside W) (source : FrameSource S) where
  abbrev pub process_now : Gateway W → List ℕ → Gateway W
  process_now g buf =
      let (now, w) = o.steady_now g.world in process_frame o (record g { world = w }) buf now

  unfoldable pub run_loop : ℕ → Gateway W → S → Gateway W × S
  run_loop zero g s = (g, s)
  run_loop (suc n) g s =
      let (frame, s') = source.receive s in
      elim frame [
        | none ↦ elim (source.is_done s') [ true ↦ (g, s') | false ↦ run_loop n g s' ]
        | some buf ↦ run_loop n (process_now g buf) s'
      ]

  abbrev pub write_log : Gateway W → Severity → EventCategory → List ℕ → List ℕ → Gateway W
  write_log g sev cat name detail =
      let (logger, w) = log o.wall_now g.logger g.world sev cat name detail in
      record g { logger = logger; world = w }

  abbrev pub open_recorder : Gateway W → Bool → ℕ → Gateway W
  open_recorder g can_open room =
      if g.config.record_enabled
      then (let (r, opened) = Recorder.open_file g.recorder can_open room in
          if opened
          then record g { recorder = r }
          else write_log (record g { recorder = r }) warn network (codes "EVT_CONFIG_CHANGE")
              (codes "Failed to open record file: " ++ g.config.record_path))
      else g

  abbrev pub close_recorder : Gateway W → Gateway W
  close_recorder g =
      if g.config.record_enabled then record g { recorder = Recorder.close g.recorder } else g

  -- `run` of a gateway that is not running, from the opening of the source on. `failure` is the text
  -- for a source that does not open.
  unfoldable pub run : ℕ → List ℕ → Bool → ℕ → Gateway W → Option S → Gateway W
  unfolding run_loop
  run n failure can_open room g none =
      write_log g Severity.error network (codes "EVT_SOURCE_TIMEOUT") failure
  run n failure can_open room g (some s) =
      let started =
        write_log (open_recorder g can_open room) info control (codes "EVT_CONFIG_CHANGE")
          (field (codes "Gateway started on port ") g.config.udp_port) in
      write_log (close_recorder (run_loop n started s).0) info control (codes "EVT_CONFIG_CHANGE")
        (codes "Gateway stopped")
