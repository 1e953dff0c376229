-- ===== src/Programs/GatewayMain/Recording.antt =====
-- src/gateway/gateway_main.cpp: a gateway that is started on a recording.
pub mod Steps
use mathlib.Core.Option
use net_node_gateway.Prelude.{
  is_empty, ℕ, zero, suc, ◌<◌, ◌≤◌, ◌^◌, ◌≡◌, refl, ap, ap₂, ◌∙◌, Bool, true, false, ◌&&◌, Option,
  some, List, [], ◌∷◌, ◌++◌, map, length, All, arith, Bool-cases, inl, inr, if◌then◌else◌,
}
use net_node_gateway.Parser.{parse_frame}
use net_node_gateway.Tracker.{SequenceTracker, empty_tracker}
use net_node_gateway.Stats.{StatsManager, empty_stats, get_global_stats}
use net_node_gateway.Stats.Ledger.{replay}
use net_node_gateway.Logger.{Logger, new_logger, set_output}
use net_node_gateway.Recorder
use net_node_gateway.Recorder.{FrameRecorder, record_frame, new_recorder}
use net_node_gateway.Recorder.Behaviour.{entries, record_all, record_all-entries}
use net_node_gateway.Replay.{ReplayFrameSource, receive, open_file, set_speed}
use net_node_gateway.Replay.Drain.{IsRecordable, IsCut}
use net_node_gateway.Prelude.Text.{codes}
use net_node_gateway.Types.{info, control}
use net_node_gateway.Gateway.{Outside, Gateway, new_gateway, no_frame, field}
use net_node_gateway.Gateway.Config.{GatewayConfig, default_config}
use net_node_gateway.Gateway.Core.{Core, core, frame_calls, tracker_after}
use net_node_gateway.Gateway.Source.{
  replay_source, run_loop, run, open_recorder, close_recorder, process_now, write_log,
}
use net_node_gateway.Gateway.Drained.{core_steps, core_step, run_loop-recording}
use net_node_gateway.Sockets.{System}
use net_node_gateway.Programs.Options.{arguments, gateway_options-arguments}
use net_node_gateway.Programs.Replayed.{new_source}
use net_node_gateway.Programs.GatewayMain.{
  recording, at_once, finished, failure, banner, final_statistics, either_source, make_source,
  run_gateway, started, gateway_main, Source, truncated, written,
}
use net_node_gateway.Programs.GatewayMain.Recording.Steps.{
  stats_after, stats-core_steps, timed, recorder-core_steps,
}

module _ {ℓ κ} {W : Type ℓ} {V : Type κ} (o : Outside W) (k : System V) where
  run_loop-recording_source :
      (n : ℕ) (g : Gateway W) (s : ReplayFrameSource)
      → (run_loop o (either_source o k) n g (recording s)).0 ≡ (run_loop o replay_source n g s).0
  unfolding run_loop
  run_loop-recording_source zero g s = refl
  run_loop-recording_source (suc n) g s =
      let (r, s') = receive s 0 in
      ground (
        arith,
        run_loop-recording_source n g s',
        run_loop-recording_source n (process_now o replay_source g r.buf) s',
      )

  stats-close_recorder :
      (g : Gateway W)
      → ((close_recorder o replay_source g).stats ≡ g.stats)
        × ((close_recorder o replay_source g).recorder.file.bytes ≡ g.recorder.file.bytes)
  unfolding Recorder.close
  stats-close_recorder g = (ground arith, ground arith)

  abbrev begun : Bool → ℕ → GatewayConfig → Logger → W → Gateway W
  begun can_open room config logger w =
      open_recorder o replay_source (new_gateway config logger w) can_open room

  begun-core :
      (can_open : Bool) (room : ℕ) (config : GatewayConfig) (logger : Logger) (w : W)
      → let c = core (begun can_open room config logger w) in
        (c.config ≡ config) × (c.tracker ≡ empty_tracker) × (c.stats ≡ empty_stats)
  unfolding Recorder.open_file
  begun-core can_open room config logger w = (ground arith, ground arith, ground arith)

  begun-recorder :
      (can_open : Bool) (room : ℕ) (config : GatewayConfig) (logger : Logger) (w : W)
      → config.record_enabled ≡ true
      → can_open ≡ true
      → (begun can_open room config logger w).recorder
        ≡ (Recorder.open_file new_recorder true room).0
  unfolding Recorder.open_file
  begun-recorder can_open room config logger w e h = ground arith

  -- The gateway that `run` hands to its loop.
  abbrev looping : Bool → ℕ → GatewayConfig → Logger → W → Gateway W
  looping can_open room config logger w =
      write_log o replay_source (begun can_open room config logger w) info control
        (codes "EVT_CONFIG_CHANGE") (field (codes "Gateway started on port ") config.udp_port)

  bytes-core_steps :
      (can_open : Bool) (room : ℕ) (config : GatewayConfig) (logger : Logger) (w : W)
      (arrived : List (List ℕ × ℕ))
      → config.record_enabled ≡ true
      → can_open ≡ true
      → length (entries (timed arrived)) ≤ room
      → (core_steps (core (looping can_open room config logger w)) arrived).recorder.file.bytes
        ≡ entries (timed arrived)
  unfolding Recorder.open_file
  bytes-core_steps can_open room config logger w arrived e h fits =
      let start = core (looping can_open room config logger w) in
      let fresh = begun-recorder can_open room config logger w e h in
      let enabled =
        ap (λ (c : GatewayConfig). c.record_enabled) (begun-core can_open room config logger w).0
        ∙ e in
      ap (λ (r : FrameRecorder). r.file.bytes)
        (recorder-core_steps start arrived enabled
          (ap (λ (r : FrameRecorder). r.file.is_open) fresh))
      ∙ ap (λ (r : FrameRecorder). (record_all r (timed arrived)).file.bytes) fresh
      ∙ (record_all-entries (timed arrived) new_recorder room fits).0

  abbrev source_of : List ℕ → ReplayFrameSource
  source_of file = (open_file (new_source at_once) (some file)).0

  make_source-recording :
      (config : GatewayConfig) (file : List ℕ) (v : V)
      → is_empty config.replay_path ≡ false
      → make_source o k config (some file) v ≡ some (recording (source_of file))
  unfolding make_source open_file set_speed
  make_source-recording config file v e = rw e refl

  -- The file that is replayed is not the one that is recorded to.
  abbrev IsApart : GatewayConfig → Bool → Type 0
  IsApart config same_file = config.record_enabled ≡ true → same_file ≡ false

  not_truncated :
      (config : GatewayConfig) (can_open same_file : Bool) (s : Source V)
      → IsApart config same_file
      → truncated o k (config.record_enabled && can_open && same_file) s ≡ s
  not_truncated config can_open same_file s apart = elim (Bool-cases config.record_enabled) [
    | inl e ↦ rw (apart e) (ground arith)
    | inr e ↦ rw e refl
  ]

  -- What is left of a run besides its log: the statistics and the recording of its loop.
  run_gateway-loop :
      (rounds : ℕ) (can_open same_file : Bool) (room : ℕ) (file : List ℕ) (config : GatewayConfig)
      (logger : Logger) (w : W) (v : V)
      → is_empty config.replay_path ≡ false
      → IsApart config same_file
      → let g = run_gateway o k rounds can_open same_file room (some file) config logger w v in
        let left =
          (run_loop o replay_source rounds
            (looping can_open room config logger w)
            (source_of file)).0 in
        (g.stats ≡ left.stats) × (g.recorder.file.bytes ≡ left.recorder.file.bytes)
  unfolding run_gateway run
  run_gateway-loop rounds can_open same_file room file config logger w v e apart =
      let s = source_of file in
      let start = looping can_open room config logger w in
      let emptied = config.record_enabled && can_open && same_file in
      let opened =
        ap (Option.map (truncated o k emptied)) (make_source-recording config file v e)
        ∙ ap some (not_truncated config can_open same_file (recording s) apart) in
      let made =
        ap
          (run o (either_source o k) rounds (failure config) can_open room
            (new_gateway config logger w))
          opened in
      let left = (run_loop o (either_source o k) rounds start (recording s)).0 in
      let same = run_loop-recording_source rounds start s in
      let (kept, held) = stats-close_recorder left in
      (
        ap (λ (g : Gateway W). g.stats) made ∙ kept ∙ ap (λ (g : Gateway W). g.stats) same,
        ap (λ (g : Gateway W). g.recorder.file.bytes) made
            ∙ held
            ∙ ap (λ (g : Gateway W). g.recorder.file.bytes) same,
      )

  -- The program with the options of a configuration that names a recording of frames, broken off or not
  -- inside one more entry, ends with status 0, and what it has printed ends with the final statistics of
  -- a gateway that has taken in exactly the recorded frames in their order, each at some time of arrival,
  -- if `stop` is not called before the loop has found `should_stop_` unset once more than there are
  -- frames, and if it does not record to the file that it replays. If it records, to a file that opens on
  -- a device with room, the new recording holds exactly these frames again. In front of the statistics
  -- stands what the stream of the log holds then.
  pub gateway_main-recording :
      (stoi : List ℕ → Option ℕ) (port : List ℕ) (config : GatewayConfig) (fs : List (ℕ × List ℕ))
      (cut : List ℕ) (rounds : ℕ) (can_open same_file : Bool) (room : ℕ) (w : W) (v : V)
      → stoi port ≡ some config.udp_port
      → config.udp_port < 2 ^ 16
      → (config.record_enabled ≡ false → config.record_path ≡ default_config.record_path)
      → is_empty config.replay_path ≡ false
      → (config.record_enabled ≡ true → same_file ≡ false)
      → All IsRecordable fs
      → IsCut cut
      → length fs < rounds
      → (g : Gateway W) × (arrived : List (List ℕ × ℕ)) × (map (λ a. a.0) arrived
          ≡ map (λ f. f.1) fs)
        × (gateway_main o k stoi rounds can_open same_file room
              (some (entries fs ++ cut))
              w
              v
              (arguments port config)
            ≡ finished g (written g.logger ++ final_statistics (get_global_stats g.stats)))
        × (g.stats ≡ stats_after config.crc_enabled empty_tracker empty_stats arrived)
        × (config.record_enabled ≡ true
            → can_open ≡ true
            → length (entries (timed arrived)) ≤ room
            → g.recorder.file.bytes ≡ entries (timed arrived))
  unfolding gateway_main
  gateway_main-recording stoi port config fs cut rounds can_open same_file room w v read small path
        named apart ok c enough =
      let file = some (entries fs ++ cut) in
      let logger = set_output new_logger (banner config) in
      let g = run_gateway o k rounds can_open same_file room file config logger w v in
      let start = looping can_open room config logger w in
      let (arrived, frames, cores) =
        run_loop-recording o fs cut rounds start (new_source at_once) ok c enough in
      let (stats, bytes) =
        run_gateway-loop rounds can_open same_file room (entries fs ++ cut) config logger w v named
          apart in
      let (configured, tracks, counts) = begun-core can_open room config logger w in
      (
        g,
        arrived,
        frames,
        ap (started o k rounds can_open same_file room file w v)
            (gateway_options-arguments stoi port config read small path),
        stats
            ∙ ap (λ (c : Core). c.stats) cores
            ∙ stats-core_steps (core start) arrived
            ∙ rw (configured, tracks, counts) refl,
        λ e h fits.
            bytes
            ∙ ap (λ (c : Core). c.recorder.file.bytes) cores
            ∙ bytes-core_steps can_open room config logger w arrived e h fits,
      )
